-- ===== src/Network/Send/Delivery.antt =====
-- Who gets which message from sendMessage and broadcastTreeAdjustment of Network.cpp.
use hawk_txn.Common.{
  ℕ, zero, suc, ◌+◌, ◌≤◌, ◌<◌, ◌≡◌, ◌≢◌, refl, Bool, true, false, ◌&&◌, ◌||◌, not, some, [], ◌∷◌,
  ◌++◌, ◌==◌, elem, arith, Bool-cases, ap, ◌∙◌, inl, inr, ==_of_ne, elem-append,
}
use hawk_txn.Map.{IsUnique}
use hawk_txn.Types.{NodeId, TransactionId}
use hawk_txn.Message.{
  NetworkMessageType, unknown, lock_request, lock_response, release_lock_request,
  release_lock_response, pag_request, pag_response, wfg_report, deadlock_resolution,
  abort_transaction_signal, distributed_detection_init, zone_detection_request, zone_wfg_report,
  central_wfg_report_from_zone, path_pushing_probe, client_collect_wfg_request,
  client_collect_wfg_response, client_print_deadlock_request, client_resolve_deadlock_request,
  deadlock_report_to_client, NetworkMessage,
}
use hawk_txn.Resource.{count_up}
use hawk_txn.Network.{convert_to_proto_message, convert_from_proto_message, body_of, read_body}
use hawk_txn.Network.Codec.{carried, round_trip}
use hawk_txn.Network.Send.{
  Network, RpcCall, handle_rpc, connect_from, connect_to_peers, client_rpc, peer_rpc, call_if,
  send_message, collect_command, print_command, abort_command, send_collect_command,
  send_print_command, send_abort_command,
}

-- The types that one node can send to another.
abbrev pub between_nodes : NetworkMessageType → Bool
between_nodes unknown = false
between_nodes pag_request = false
between_nodes client_collect_wfg_request = false
between_nodes client_collect_wfg_response = false
between_nodes client_print_deadlock_request = false
between_nodes client_resolve_deadlock_request = false
between_nodes other = true

between_nodes_lem :
    (m : NetworkMessage) (type : NetworkMessageType)
    → peer_rpc (body_of type m).0 ≡ between_nodes type
unfolding peer_rpc body_of
between_nodes_lem m unknown = refl
between_nodes_lem m lock_request = refl
between_nodes_lem m lock_response = refl
between_nodes_lem m release_lock_request = refl
between_nodes_lem m release_lock_response = refl
between_nodes_lem m pag_request = refl
between_nodes_lem m pag_response = refl
between_nodes_lem m wfg_report = refl
between_nodes_lem m deadlock_resolution = refl
between_nodes_lem m abort_transaction_signal = refl
between_nodes_lem m distributed_detection_init = refl
between_nodes_lem m zone_detection_request = refl
between_nodes_lem m zone_wfg_report = refl
between_nodes_lem m central_wfg_report_from_zone = refl
between_nodes_lem m path_pushing_probe = refl
between_nodes_lem m client_collect_wfg_request = refl
between_nodes_lem m client_collect_wfg_response = refl
between_nodes_lem m client_print_deadlock_request = refl
between_nodes_lem m client_resolve_deadlock_request = refl
between_nodes_lem m deadlock_report_to_client = refl

pub connect_from_lem :
    (n i x : ℕ) (net : Network)
    → (elem x (connect_from n i net).peer_stubs
        ≡ elem x net.peer_stubs || (elem x (count_up n i) && not (x == net.node_id)))
      × ((connect_from n i net).node_id ≡ net.node_id)
      × ((connect_from n i net).is_client ≡ net.is_client)
      × ((connect_from n i net).num_nodes ≡ net.num_nodes)
unfolding connect_from count_up
connect_from_lem zero i x net = (ground arith, refl, refl, refl)
connect_from_lem (suc n) i x net = elim (Bool-cases (i == net.node_id)) [
  | inl own ↦
      let (stubs, home, kind, size) = connect_from_lem n (i + 1) x net in
      rw (own, connect_from) (stubs ∙ ground arith, home, kind, size)
  | inr other ↦
      let net' = record net { peer_stubs = net.peer_stubs ++ i ∷ [] } in
      let (stubs, home, kind, size) = connect_from_lem n (i + 1) x net' in
      rw (other, connect_from)
        (stubs ∙ ground (arith, elem-append x net.peer_stubs (i ∷ [])), home, kind, size)
]

-- Who is among the first nodes.
elem-count_up : (n i x : ℕ) → i ≤ x → x < i + n → elem x (count_up n i) ≡ true
unfolding count_up
elem-count_up zero i x le lt = absurd (omega (arith, le, lt))
elem-count_up (suc n) i x le lt = elim (Bool-cases (i == x)) [
  | inl here ↦ ground arith
  | inr there ↦ ground (arith, elem-count_up n (i + 1) x (ground arith) (ground arith))
]

send_peer :
    (net : Network) (m : NetworkMessage)
    → net.is_client ≡ false
    → (m.receiver_id == 0) ≡ false
    → elem m.receiver_id net.peer_stubs ≡ true
    → send_message net m
      ≡ call_if
          (peer_rpc (convert_to_proto_message m).type)
          m.receiver_id
          (convert_to_proto_message m)
unfolding send_message
send_peer net m server addressed known =
    let goes : (m.receiver_id == 0 && not net.is_client) ≡ false = ground (arith, addressed) in
    rw (goes, send_message) (rw server (rw known refl))

send_client :
    (net : Network) (server : NodeId) (m : NetworkMessage)
    → net.is_client ≡ true
    → net.client_to_server_stub ≡ some server
    → send_message net m
      ≡ call_if (client_rpc (convert_to_proto_message m).type) server (convert_to_proto_message m)
unfolding send_message
send_client net server m client connected =
    let goes : (m.receiver_id == 0 && not net.is_client) ≡ false = ground (arith, client) in
    rw (goes, send_message) (rw client (rw connected refl))

pub delivery :
    (net receiver : Network) (m : NetworkMessage)
    → net.is_client ≡ false
    → between_nodes m.type ≡ true
    → IsUnique m.wfg_data
    → 1 ≤ m.receiver_id
    → m.receiver_id ≤ net.num_nodes
    → m.receiver_id ≢ net.node_id
    → (call : RpcCall) × (send_message (connect_to_peers net) m ≡ call ∷ [])
      × (call.target ≡ m.receiver_id)
      × ((handle_rpc call.message receiver).incoming_queue
          ≡ receiver.incoming_queue ++ carried m.type m ∷ [])
unfolding connect_to_peers call_if handle_rpc convert_to_proto_message
delivery net receiver m server sendable u low high away =
    let (stubs, home, kind, size) = connect_from_lem net.num_nodes 1 m.receiver_id net in
    let listed = elem-count_up net.num_nodes 1 m.receiver_id low (omega (arith, high)) in
    let apart = ==_of_ne m.receiver_id net.node_id away in
    let known : elem m.receiver_id (connect_from net.num_nodes 1 net).peer_stubs ≡ true =
      ground (arith, stubs, listed, apart) in
    let joined : connect_to_peers net ≡ connect_from net.num_nodes 1 net = rw server refl in
    let addressed : (m.receiver_id == 0) ≡ false = ground (arith, low) in
    let has_rpc : peer_rpc (body_of m.type m).0 ≡ true = between_nodes_lem m m.type ∙ sendable in
    (
      record {
        target = m.receiver_id;
        rpc = (body_of m.type m).0;
        message = convert_to_proto_message m;
      },
      rw joined (
          send_peer (connect_from net.num_nodes 1 net) m (kind ∙ server) addressed known
          ∙ rw has_rpc refl),
      refl,
      ap (λ x. receiver.incoming_queue ++ x ∷ []) (round_trip m u),
    )

-- The commands of a connected client to collect and to print make no RPC; the command to abort
-- makes one, to the server, which decodes the victim.
pub client_commands_lost :
    (net : Network) (server n : NodeId) (victim : TransactionId)
    → net.is_client ≡ true
    → net.client_to_server_stub ≡ some server
    → (send_collect_command net n ≡ [])
      × (send_print_command net ≡ [])
      × ((call : RpcCall) × (send_abort_command net victim ≡ call ∷ [])
          × (call.target ≡ server)
          × ((convert_from_proto_message call.message).victim_trans_id ≡ victim))
unfolding send_collect_command send_print_command send_abort_command client_rpc call_if
    convert_to_proto_message convert_from_proto_message body_of read_body
client_commands_lost net server n victim client connected = (
  send_client net server (collect_command n) client connected,
  send_client net server print_command client connected,
  (
    record {
      target = server;
      rpc = client_resolve_deadlock_request;
      message = convert_to_proto_message (abort_command victim);
    },
    send_client net server (abort_command victim) client connected,
    refl,
    refl,
  ),
)
