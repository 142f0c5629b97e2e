-- ===== src/Node.antt =====
-- DistributedDBNode.cpp: a node with all its parts, the dispatch of messageProcessingLoop and one turn
-- of each of the other loops. What a handler sends is turned into RPCs by sendMessage. A handler
-- that throws std::out_of_range leaves the node as it was, since the loop catches that; the two that can
-- throw change nothing before. What does not end or has no defined behaviour is `none`.
use hawk_txn.Common.{ℕ, Bool, Option, some, none, List, [], ◌∷◌, ◌++◌, ◌==◌, ◌>>=◌}
use hawk_txn.Common.Int.{ℤ}
use hawk_txn.Types.{NodeId, centralized_node_id}
use hawk_txn.Message.{
  NetworkMessageType, unknown, lock_request, lock_response, release_lock_request,
  release_lock_response, pag_request, pag_response, wfg_report, deadlock_resolution,
  abort_transaction_signal, distributed_detection_init, zone_detection_request, zone_wfg_report,
  central_wfg_report_from_zone, path_pushing_probe, client_collect_wfg_request,
  client_collect_wfg_response, client_print_deadlock_request, client_resolve_deadlock_request,
  deadlock_report_to_client, NetworkMessage,
}
use hawk_txn.Resource
use hawk_txn.Transaction
use hawk_txn.Transaction.{TransactionManager, handle_sql_response}
use hawk_txn.Zone
use hawk_txn.Zone.{DetectionZoneManager, update_detection_zones, is_zone_leader}
use hawk_txn.Network.Send.{Network, RpcCall, send_message}
use hawk_txn.Resolve.Probe.{handle_path_pushing_probe}
use hawk_txn.Collect.{
  Collector, handle_wfg_report, handle_zone_wfg_report, handle_zone_detection_request, abort_all,
}
use hawk_txn.Central.{CentralState, no_reports, handle_central_wfg_report_from_zone}
use hawk_txn.Adjust.{PagState, no_samples, handle_pag_request, handle_pag_response}
use hawk_txn.Client.{handle_client_print_deadlock_request, handle_client_resolve_deadlock_request}

pub record Node : Type 0 where
  pub node_id : NodeId
  pub num_nodes : ℕ
  pub transaction_manager : TransactionManager
  pub detection_zone_manager : DetectionZoneManager
  pub network : Network
  pub collector : Collector
  pub pag_state : PagState
  pub central_state : CentralState

-- `isCentralizedNode_`
abbrev pub is_centralized_node : Node → Bool
is_centralized_node s = s.node_id == centralized_node_id

-- The constructor, with the network connected to its peers, at some time.
unfoldable pub init : NodeId → ℕ → Network → ℕ → Node
unfolding Resource.init Transaction.init Zone.init
init n num_nodes network now = record {
  node_id = n;
  num_nodes = num_nodes;
  transaction_manager = Transaction.init n (Resource.init n);
  detection_zone_manager = Zone.init n;
  network = network;
  collector = record { aggregated_wfg = []; wfg_reports_received = 0; wfg_reports_expected = 0 };
  pag_state = no_samples now;
  central_state = no_reports;
}

-- What is set when the program is built, and what is read while it handles a message: the fuels of the
-- searches, whether the mode is MODE_HAWK, the time, and the duration of a transaction that it ends.
pub record Setting : Type 0 where
  pub walk_fuel : ℕ
  pub fuel : ℕ
  pub hawk : Bool
  pub now : ℕ
  pub duration : ℤ

-- `network_.sendMessage` for each message in turn.
unfoldable pub send_all : Network → List NetworkMessage → List RpcCall
unfolding send_message
send_all net [] = []
send_all net (m ∷ ms) = send_message net m ++ send_all net ms

abbrev pub Handled : Type 0
Handled = Option (Node × List RpcCall)

-- The node after a handler that changes one of its parts, and what it sends.
abbrev pub with_collector : Node → Option (Collector × List NetworkMessage) → Handled
with_collector s r = do (c, ms) ← r; some (record s { collector = c }, send_all s.network ms)

abbrev pub with_central : Node → Option (CentralState × List NetworkMessage) → Handled
with_central s r = do (c, ms) ← r; some (record s { central_state = c }, send_all s.network ms)

abbrev pub with_pag : Node → Option (PagState × List RpcCall) → Handled
with_pag s r = do (p, calls) ← r; some (record s { pag_state = p }, calls)

abbrev pub with_manager : Node → TransactionManager → List NetworkMessage → Handled
with_manager s tm ms = some (record s { transaction_manager = tm }, send_all s.network ms)

-- A handler that only sends, and may throw.
abbrev pub sends : Node → Option (List NetworkMessage) → Handled
sends s none = some (s, [])
sends s (some ms) = some (s, send_all s.network ms)

-- The switch of messageProcessingLoop.
unfoldable pub dispatch : Setting → NetworkMessageType → NetworkMessage → Node → Handled
unfolding handle_sql_response handle_wfg_report handle_pag_request handle_pag_response abort_all
    update_detection_zones handle_zone_detection_request handle_zone_wfg_report
    handle_central_wfg_report_from_zone handle_path_pushing_probe
    handle_client_print_deadlock_request handle_client_resolve_deadlock_request
dispatch k lock_request m s = some (s, [])
dispatch k lock_response m s = do
  o ← handle_sql_response k.duration m.trans_id m.granted m.res_id s.transaction_manager
  with_manager s o.manager o.sent
dispatch k release_lock_request m s = some (s, [])
dispatch k release_lock_response m s = some (s, [])
dispatch k wfg_report m s = with_collector s (
    handle_wfg_report k.walk_fuel k.fuel (is_centralized_node s) s.transaction_manager s.collector
      m.wfg_data)
dispatch k pag_request m s =
    sends s
      (do response ← handle_pag_request s.transaction_manager m.sender_id; some (response ∷ []))
dispatch k pag_response m s = with_pag s (
    handle_pag_response k.fuel k.now (is_centralized_node s) s.network s.node_id
      s.central_state.total_deadlocks_from_zones s.central_state.total_deadlocks_from_central
      s.pag_state m.pag_edges)
dispatch k deadlock_resolution m s =
    with_manager s (abort_all k.duration m.deadlocked_transactions s.transaction_manager) []
dispatch k abort_transaction_signal m s =
    with_manager s (abort_all k.duration m.deadlocked_transactions s.transaction_manager) []
dispatch k distributed_detection_init m s = do
  zone ← update_detection_zones m.detection_zones m.detection_zone_leaders s.detection_zone_manager
  some (record s { detection_zone_manager = zone }, [])
dispatch k zone_detection_request m s = some (
  s,
  send_all s.network (handle_zone_detection_request s.transaction_manager m.central_node_id ∷ []),
)
dispatch k zone_wfg_report m s = with_collector s (
    handle_zone_wfg_report k.walk_fuel k.fuel k.hawk (is_zone_leader s.detection_zone_manager)
      s.transaction_manager s.collector m.wfg_data_pairs)
dispatch k central_wfg_report_from_zone m s = with_central s (
    handle_central_wfg_report_from_zone k.walk_fuel k.fuel (is_centralized_node s) s.node_id
      s.num_nodes s.central_state m.wfg_data_pairs m.detected_cycles m.deadlock_count)
dispatch k path_pushing_probe m s =
    sends s (handle_path_pushing_probe (is_centralized_node s) s.transaction_manager m.path)
dispatch k client_collect_wfg_request m s = some (s, [])
dispatch k client_collect_wfg_response m s = some (s, [])
dispatch k client_print_deadlock_request m s = some (
  s,
  send_all s.network (
      handle_client_print_deadlock_request (is_centralized_node s) s.node_id s.central_state
        m.sender_id),
)
dispatch k client_resolve_deadlock_request m s = some (
  s,
  send_all s.network (
      handle_client_resolve_deadlock_request (is_centralized_node s) s.transaction_manager
        m.victim_trans_id m.sender_id),
)
dispatch k deadlock_report_to_client m s = some (s, [])
dispatch k unknown m s = some (s, [])

-- One turn of messageProcessingLoop: the front of the queue, if there is one, is taken and handled.
unfoldable pub process_message : Setting → Node → List NetworkMessage → Handled
unfolding dispatch
process_message k s [] = some (s, [])
process_message k s (m ∷ rest) =
    dispatch k m.type m (record s { network = record s.network { incoming_queue = rest } })
