-- ===== src/Network.antt =====
-- protos/network.proto and the conversions of Network.cpp between the messages of commons.h and
-- those of the protocol. A getter of a payload that is not set gives the payload's default. A loop
-- that copies a vector of numbers into a repeated field is the list itself.
pub mod Codec
pub mod Send
pub mod Tests
use hawk_txn.Common.{ℕ, Bool, true, false, List, [], ◌∷◌, ◌++◌}
use hawk_txn.Common.Int.{ℤ, pos}
use hawk_txn.Map
use hawk_txn.Map.{Map}
use hawk_txn.Types.{NodeId, TransactionId, ResourceId, LockMode, shared, exclusive, WfdEdge}
use hawk_txn.Message.{
  NetworkMessageType, unknown, lock_request, lock_response, release_lock_request,
  release_lock_response, pag_request, pag_response, wfg_report, deadlock_resolution,
  abort_transaction_signal, distributed_detection_init, zone_detection_request, zone_wfg_report,
  central_wfg_report_from_zone, path_pushing_probe, client_collect_wfg_request,
  client_collect_wfg_response, client_print_deadlock_request, client_resolve_deadlock_request,
  deadlock_report_to_client, NetworkMessage, blank,
}

pub data ProtoLockMode : Type 0 where
  proto_shared proto_exclusive : ProtoLockMode

pub record PairTransactionIdList : Type 0 where
  pub key : TransactionId
  pub value : List TransactionId

pub record ProtoWfdEdge : Type 0 where
  pub waiting_trans_id : TransactionId
  pub holding_trans_id : TransactionId
  pub waiting_node_id : NodeId
  pub holding_node_id : NodeId

-- The `oneof`, with the fields of each nested message in order.
pub data Payload : Type 0 where
  no_payload : Payload
  lock_request_data : TransactionId → ResourceId → ProtoLockMode → Payload
  lock_response_data : TransactionId → ResourceId → Bool → Payload
  release_lock_data : TransactionId → ResourceId → Payload
  wfg_data : List PairTransactionIdList → Payload
  abort_transaction_data : List TransactionId → Payload
  pag_data : List ProtoWfdEdge → Payload
  detection_zone_init_data : List (List NodeId) → List NodeId → Payload
  resolve_deadlock_request_data : TransactionId → Payload
  deadlock_report_to_client_data : List (List TransactionId) → ℤ → Payload
  path_pushing_probe_data : List TransactionId → Payload
  zone_detection_request_data : NodeId → List NodeId → Payload
  central_wfg_report_data : List PairTransactionIdList → List (List TransactionId) → ℤ → Payload

-- The enumeration of the protocol has the same names and numbers.
pub record ProtoMessage : Type 0 where
  pub type : NetworkMessageType
  pub sender_id : NodeId
  pub receiver_id : NodeId
  pub payload : Payload

-- toProtoLockMode
unfoldable pub to_proto_lock_mode : LockMode → ProtoLockMode
to_proto_lock_mode shared = proto_shared
to_proto_lock_mode exclusive = proto_exclusive

-- fromProtoLockMode
unfoldable pub from_proto_lock_mode : ProtoLockMode → LockMode
from_proto_lock_mode proto_shared = shared
from_proto_lock_mode proto_exclusive = exclusive

-- convertWFGToProto, and the loops over `wfgDataPairs`.
unfoldable pub convert_wfg_to_proto :
    List (TransactionId × List TransactionId) → List PairTransactionIdList
convert_wfg_to_proto [] = []
convert_wfg_to_proto ((k, vs) ∷ g) = (record { key = k; value = vs }) ∷ convert_wfg_to_proto g

-- convertProtoWFGToInternal, from the entries that are there.
unfoldable pub convert_proto_wfg_to_internal :
    List PairTransactionIdList → Map (List TransactionId) → Map (List TransactionId)
convert_proto_wfg_to_internal [] m = m
convert_proto_wfg_to_internal (p ∷ ps) m =
    convert_proto_wfg_to_internal ps (Map.assign p.key p.value m)

-- The loops that read the pairs into `wfgDataPairs`.
unfoldable pub read_pairs : List PairTransactionIdList → List (TransactionId × List TransactionId)
read_pairs [] = []
read_pairs (p ∷ ps) = (p.key, p.value) ∷ read_pairs ps

-- The two loops over `pagEdges`.
unfoldable pub write_edges : List WfdEdge → List ProtoWfdEdge
write_edges [] = []
write_edges (e ∷ es) =
    (record {
      waiting_trans_id = e.waiting_trans_id;
      holding_trans_id = e.holding_trans_id;
      waiting_node_id = e.waiting_node_id;
      holding_node_id = e.holding_node_id;
    })
    ∷ write_edges es

unfoldable pub read_edges : List ProtoWfdEdge → List WfdEdge
read_edges [] = []
read_edges (e ∷ es) =
    (record {
      waiting_trans_id = e.waiting_trans_id;
      holding_trans_id = e.holding_trans_id;
      waiting_node_id = e.waiting_node_id;
      holding_node_id = e.holding_node_id;
    })
    ∷ read_edges es

-- The type and the payload that convertToProtoMessage sets. The three types that its switch leaves
-- out keep the defaults, as does UNKNOWN.
unfoldable pub body_of : NetworkMessageType → NetworkMessage → NetworkMessageType × Payload
unfolding to_proto_lock_mode convert_wfg_to_proto write_edges
body_of unknown m = (unknown, no_payload)
body_of lock_request m =
    (lock_request, lock_request_data m.trans_id m.res_id (to_proto_lock_mode m.mode))
body_of lock_response m = (lock_response, lock_response_data m.trans_id m.res_id m.granted)
body_of release_lock_request m = (release_lock_request, release_lock_data m.trans_id m.res_id)
body_of release_lock_response m = (release_lock_response, release_lock_data m.trans_id m.res_id)
body_of pag_request m = (unknown, no_payload)
body_of pag_response m = (pag_response, pag_data (write_edges m.pag_edges))
body_of wfg_report m = (wfg_report, wfg_data (convert_wfg_to_proto m.wfg_data))
body_of deadlock_resolution m =
    (deadlock_resolution, abort_transaction_data m.deadlocked_transactions)
body_of abort_transaction_signal m =
    (abort_transaction_signal, abort_transaction_data m.deadlocked_transactions)
body_of distributed_detection_init m = (
  distributed_detection_init,
  detection_zone_init_data m.detection_zones m.detection_zone_leaders,
)
body_of zone_detection_request m =
    (zone_detection_request, zone_detection_request_data m.central_node_id m.zone_members)
body_of zone_wfg_report m = (zone_wfg_report, wfg_data (convert_wfg_to_proto m.wfg_data_pairs))
body_of central_wfg_report_from_zone m = (
  central_wfg_report_from_zone,
  central_wfg_report_data (convert_wfg_to_proto m.wfg_data_pairs) m.detected_cycles
      m.deadlock_count,
)
body_of path_pushing_probe m = (path_pushing_probe, path_pushing_probe_data m.path)
body_of client_collect_wfg_request m = (unknown, no_payload)
body_of client_collect_wfg_response m =
    (client_collect_wfg_response, wfg_data (convert_wfg_to_proto m.wfg_data))
body_of client_print_deadlock_request m = (unknown, no_payload)
body_of client_resolve_deadlock_request m =
    (client_resolve_deadlock_request, resolve_deadlock_request_data m.victim_trans_id)
body_of deadlock_report_to_client m =
    (deadlock_report_to_client, deadlock_report_to_client_data m.detected_cycles m.deadlock_count)

-- convertToProtoMessage, on a new message.
unfoldable pub convert_to_proto_message : NetworkMessage → ProtoMessage
unfolding body_of
convert_to_proto_message m = record {
  type = (body_of m.type m).0;
  sender_id = m.sender_id;
  receiver_id = m.receiver_id;
  payload = (body_of m.type m).1;
}

-- The getters of the `oneof`.
abbrev pub get_lock_request : Payload → TransactionId × ResourceId × ProtoLockMode
get_lock_request (lock_request_data t r mode) = (t, r, mode)
get_lock_request p = (0, 0, proto_shared)

abbrev pub get_lock_response : Payload → TransactionId × ResourceId × Bool
get_lock_response (lock_response_data t r b) = (t, r, b)
get_lock_response p = (0, 0, false)

abbrev pub get_release_lock : Payload → TransactionId × ResourceId
get_release_lock (release_lock_data t r) = (t, r)
get_release_lock p = (0, 0)

abbrev pub get_wfg : Payload → List PairTransactionIdList
get_wfg (wfg_data ps) = ps
get_wfg p = []

abbrev pub get_abort : Payload → List TransactionId
get_abort (abort_transaction_data ts) = ts
get_abort p = []

abbrev pub get_pag : Payload → List ProtoWfdEdge
get_pag (pag_data es) = es
get_pag p = []

abbrev pub get_zones : Payload → List (List NodeId) × List NodeId
get_zones (detection_zone_init_data zones leaders) = (zones, leaders)
get_zones p = ([], [])

abbrev pub get_victim : Payload → TransactionId
get_victim (resolve_deadlock_request_data t) = t
get_victim p = 0

abbrev pub get_report : Payload → List (List TransactionId) × ℤ
get_report (deadlock_report_to_client_data cycles n) = (cycles, n)
get_report p = ([], pos 0)

abbrev pub get_path : Payload → List TransactionId
get_path (path_pushing_probe_data path) = path
get_path p = []

abbrev pub get_zone_request : Payload → NodeId × List NodeId
get_zone_request (zone_detection_request_data n members) = (n, members)
get_zone_request p = (0, [])

abbrev pub get_central_report : Payload → List PairTransactionIdList × List (List TransactionId) × ℤ
get_central_report (central_wfg_report_data ps cycles n) = (ps, cycles, n)
get_central_report p = ([], [], pos 0)

-- The switch of convertFromProtoMessage, on a message with its type and its ends set.
unfoldable pub read_body : NetworkMessageType → Payload → NetworkMessage → NetworkMessage
unfolding from_proto_lock_mode convert_proto_wfg_to_internal read_pairs read_edges
read_body unknown p m = m
read_body lock_request p m = record m {
  trans_id = (get_lock_request p).0;
  res_id = (get_lock_request p).1;
  mode = from_proto_lock_mode (get_lock_request p).2;
}
read_body lock_response p m = record m {
  trans_id = (get_lock_response p).0;
  res_id = (get_lock_response p).1;
  granted = (get_lock_response p).2;
}
read_body release_lock_request p m = record m {
  trans_id = (get_release_lock p).0;
  res_id = (get_release_lock p).1;
}
read_body release_lock_response p m = record m {
  trans_id = (get_release_lock p).0;
  res_id = (get_release_lock p).1;
}
read_body pag_request p m = m
read_body pag_response p m = record m { pag_edges = m.pag_edges ++ read_edges (get_pag p) }
read_body wfg_report p m = record m { wfg_data = convert_proto_wfg_to_internal (get_wfg p) [] }
read_body deadlock_resolution p m = record m {
  deadlocked_transactions = m.deadlocked_transactions ++ get_abort p;
}
read_body abort_transaction_signal p m = record m {
  deadlocked_transactions = m.deadlocked_transactions ++ get_abort p;
}
read_body distributed_detection_init p m = record m {
  detection_zones = (get_zones p).0;
  detection_zone_leaders = (get_zones p).1;
}
read_body zone_detection_request p m = record m {
  central_node_id = (get_zone_request p).0;
  zone_members = m.zone_members ++ (get_zone_request p).1;
}
read_body zone_wfg_report p m = record m { wfg_data_pairs = read_pairs (get_wfg p) }
read_body central_wfg_report_from_zone p m = record m {
  wfg_data_pairs = read_pairs (get_central_report p).0;
  detected_cycles = (get_central_report p).1;
  deadlock_count = (get_central_report p).2;
}
read_body path_pushing_probe p m = record m { path = m.path ++ get_path p }
read_body client_collect_wfg_request p m = m
read_body client_collect_wfg_response p m = record m {
  wfg_data = convert_proto_wfg_to_internal (get_wfg p) [];
}
read_body client_print_deadlock_request p m = m
read_body client_resolve_deadlock_request p m = record m { victim_trans_id = get_victim p }
read_body deadlock_report_to_client p m = record m {
  deadlock_count = (get_report p).1;
  detected_cycles = (get_report p).0;
}

-- convertFromProtoMessage
unfoldable pub convert_from_proto_message : ProtoMessage → NetworkMessage
unfolding read_body
convert_from_proto_message p =
    read_body p.type p.payload
      (record blank { type = p.type; sender_id = p.sender_id; receiver_id = p.receiver_id })
