-- ===== src/Message.antt =====
-- commons.h: the messages between the nodes.
use hawk_txn.Common.{Bool, false, List, []}
use hawk_txn.Common.Int.{ℤ, pos}
use hawk_txn.Map.{Map}
use hawk_txn.Types.{NodeId, TransactionId, ResourceId, LockMode, shared, WfdEdge}

pub data NetworkMessageType : Type 0 where
  unknown lock_request lock_response release_lock_request release_lock_response pag_request
        pag_response wfg_report deadlock_resolution abort_transaction_signal
        distributed_detection_init zone_detection_request zone_wfg_report
        central_wfg_report_from_zone path_pushing_probe client_collect_wfg_request
        client_collect_wfg_response client_print_deadlock_request client_resolve_deadlock_request
        deadlock_report_to_client :
      NetworkMessageType

pub record NetworkMessage : Type 0 where
  pub type : NetworkMessageType
  pub sender_id : NodeId
  -- 0 is a broadcast
  pub receiver_id : NodeId
  pub trans_id : TransactionId
  pub res_id : ResourceId
  pub mode : LockMode
  pub granted : Bool
  pub wfg_data : Map (List TransactionId)
  pub wfg_data_pairs : List (TransactionId × List TransactionId)
  pub deadlocked_transactions : List TransactionId
  pub pag_edges : List WfdEdge
  pub detection_zones : List (List NodeId)
  pub detection_zone_leaders : List NodeId
  pub victim_trans_id : TransactionId
  pub detected_cycles : List (List TransactionId)
  pub deadlock_count : ℤ
  pub path : List TransactionId
  pub central_node_id : NodeId
  pub zone_members : List NodeId

-- A message before its fields are set. The `int`s, `bool` and mode that the code leaves unset hold
-- nothing in particular; here they are 0, false and shared.
abbrev pub blank : NetworkMessage
blank = record {
  type = unknown;
  sender_id = 0;
  receiver_id = 0;
  trans_id = 0;
  res_id = 0;
  mode = shared;
  granted = false;
  wfg_data = [];
  wfg_data_pairs = [];
  deadlocked_transactions = [];
  pag_edges = [];
  detection_zones = [];
  detection_zone_leaders = [];
  victim_trans_id = 0;
  detected_cycles = [];
  deadlock_count = pos 0;
  path = [];
  central_node_id = 0;
  zone_members = [];
}
