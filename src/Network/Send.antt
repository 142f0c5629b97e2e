-- ===== src/Network/Send.antt =====
-- Network.h and the sending half of Network.cpp. A call of an RPC is its value: the node called,
-- the RPC, named by the type of message that it is for, and the message. Whether the RPC succeeds
-- only changes what is printed.
pub mod Delivery
pub mod Broadcast
use hawk_txn.Common.{
  ℕ, zero, suc, ◌+◌, Bool, true, false, ◌&&◌, ◌||◌, not, Option, some, none, List, [], ◌∷◌, ◌++◌,
  ◌==◌, if◌then◌else◌, elem,
}
use hawk_txn.Types.{NodeId, TransactionId, centralized_node_id}
use hawk_txn.Resource.{count_up}
use hawk_txn.Message.{
  NetworkMessageType, unknown, lock_request, lock_response, release_lock_request,
  release_lock_response, pag_request, pag_response, wfg_report, deadlock_resolution,
  abort_transaction_signal, distributed_detection_init, zone_detection_request, zone_wfg_report,
  central_wfg_report_from_zone, path_pushing_probe, client_collect_wfg_request,
  client_collect_wfg_response, client_print_deadlock_request, client_resolve_deadlock_request,
  deadlock_report_to_client, NetworkMessage, blank,
}
use hawk_txn.Network.{
  ProtoMessage, no_payload, convert_to_proto_message, convert_from_proto_message,
}

pub record Network : Type 0 where
  pub node_id : NodeId
  pub num_nodes : ℕ
  pub is_client : Bool
  -- the nodes in `peerStubs_`
  pub peer_stubs : List NodeId
  -- the server of `clientToServerStub_`
  pub client_to_server_stub : Option NodeId
  -- whether there is a `server_`, which receives RPCs
  pub server : Bool
  pub incoming_queue : List NetworkMessage

pub record RpcCall : Type 0 where
  pub target : NodeId
  pub rpc : NetworkMessageType
  pub message : ProtoMessage

-- The constructor.
unfoldable pub init : NodeId → ℕ → Bool → Network
init n num client = record {
  node_id = n;
  num_nodes = num;
  is_client = client;
  peer_stubs = [];
  client_to_server_stub = none;
  server = false;
  incoming_queue = [];
}

-- The body of every RPC: GRPC_RPC_HANDLER.
unfoldable pub handle_rpc : ProtoMessage → Network → Network
handle_rpc p net = record net {
  incoming_queue = net.incoming_queue ++ convert_from_proto_message p ∷ [];
}

-- Network::init, where the server can be built.
unfoldable pub init_server : Network → Network
init_server net = record net { server = true }

-- The loop of connectToPeers from node `i` on, `n` nodes.
unfoldable pub connect_from : ℕ → NodeId → Network → Network
connect_from zero i net = net
connect_from (suc n) i net =
    connect_from n (i + 1)
      (if i == net.node_id then net else record net { peer_stubs = net.peer_stubs ++ i ∷ [] })

-- connectToPeers
unfoldable pub connect_to_peers : Network → Network
unfolding connect_from
connect_to_peers net = if net.is_client then net else connect_from net.num_nodes 1 net

-- connectToServer, with the RPC by which it tests the connection.
unfoldable pub connect_to_server : Network → NodeId → Network × List RpcCall
connect_to_server net server_node_id = if not net.is_client then (net, []) else (
  record net { client_to_server_stub = some server_node_id },
  (record {
    target = server_node_id;
    rpc = client_print_deadlock_request;
    message = record {
      type = client_print_deadlock_request;
      sender_id = 0;
      receiver_id = server_node_id;
      payload = no_payload;
    };
  })
      ∷ [],
)

-- The two switches of sendMessage: the types that have an RPC there.
unfoldable pub client_rpc : NetworkMessageType → Bool
client_rpc client_collect_wfg_request = true
client_rpc client_print_deadlock_request = true
client_rpc client_resolve_deadlock_request = true
client_rpc other = false

unfoldable pub peer_rpc : NetworkMessageType → Bool
peer_rpc unknown = false
peer_rpc client_collect_wfg_request = false
peer_rpc client_collect_wfg_response = false
peer_rpc client_print_deadlock_request = false
peer_rpc client_resolve_deadlock_request = false
peer_rpc other = true

unfoldable pub call_if : Bool → NodeId → ProtoMessage → List RpcCall
call_if true n p = (record { target = n; rpc = p.type; message = p }) ∷ []
call_if false n p = []

-- sendMessage
unfoldable pub send_message : Network → NetworkMessage → List RpcCall
unfolding client_rpc peer_rpc call_if
send_message net m =
    let p = convert_to_proto_message m in
    if m.receiver_id == 0 && not net.is_client
    then []
    else if net.is_client
    then (elim net.client_to_server_stub [
      | none ↦ []
      | some server ↦ call_if (client_rpc p.type) server p
    ])
    else if elem m.receiver_id net.peer_stubs
    then call_if (peer_rpc p.type) m.receiver_id p
    else []

-- The message of broadcastTreeAdjustment.
abbrev pub tree_adjustment : NodeId → List (List NodeId) → List NodeId → NetworkMessage
tree_adjustment sender zones leaders = record blank {
  type = distributed_detection_init;
  sender_id = sender;
  receiver_id = 0;
  detection_zones = zones;
  detection_zone_leaders = leaders;
}

-- Its loop over the nodes.
unfoldable pub broadcast_to : Network → ProtoMessage → List NodeId → List RpcCall
unfolding call_if
broadcast_to net p [] = []
broadcast_to net p (i ∷ is) =
    call_if (not (i == net.node_id) && elem i net.peer_stubs) i p ++ broadcast_to net p is

-- broadcastTreeAdjustment
unfoldable pub broadcast_tree_adjustment :
    Network → NodeId → List (List NodeId) → List NodeId → List RpcCall
unfolding broadcast_to count_up
broadcast_tree_adjustment net sender zones leaders =
    broadcast_to net (convert_to_proto_message (tree_adjustment sender zones leaders))
      (count_up net.num_nodes 1)

-- The messages of the three commands.
abbrev pub collect_command : NodeId → NetworkMessage
collect_command n = record blank {
  type = client_collect_wfg_request;
  sender_id = 0;
  receiver_id = n;
}

abbrev pub print_command : NetworkMessage
print_command = record blank {
  type = client_print_deadlock_request;
  sender_id = 0;
  receiver_id = centralized_node_id;
}

abbrev pub abort_command : TransactionId → NetworkMessage
abort_command victim = record blank {
  type = client_resolve_deadlock_request;
  sender_id = 0;
  receiver_id = centralized_node_id;
  victim_trans_id = victim;
}

-- sendCollectCommand
unfoldable pub send_collect_command : Network → NodeId → List RpcCall
unfolding send_message
send_collect_command net n = send_message net (collect_command n)

-- sendPrintCommand
unfoldable pub send_print_command : Network → List RpcCall
unfolding send_message
send_print_command net = send_message net print_command

-- sendAbortCommand
unfoldable pub send_abort_command : Network → TransactionId → List RpcCall
unfolding send_message
send_abort_command net victim = send_message net (abort_command victim)
