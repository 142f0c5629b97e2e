-- ===== src/Collect.antt =====
-- DistributedDBNode.cpp: how a node collects the wait-for graphs of a round and what it does with the
-- messages about aborts. The duration that abortTransaction stores is an input, the same for all.
pub mod Round
pub mod Tests
use hawk_txn.Common.{
  ℕ, zero, suc, ◌+◌, Bool, true, false, not, ◌&&◌, Option, some, none, List, [], ◌∷◌, ◌++◌, ◌==◌,
  if◌then◌else◌, ◌>>=◌, leb, is_empty, length,
}
use hawk_txn.Common.Int.{ℤ, pos}
use hawk_txn.Map
use hawk_txn.Map.{Map}
use hawk_txn.Types.{NodeId, TransactionId, centralized_node_id}
use hawk_txn.Message.{
  NetworkMessage, blank, zone_wfg_report, central_wfg_report_from_zone, path_pushing_probe,
}
use hawk_txn.Transaction.{
  Transaction, TransactionManager, get_active_transactions, get_transaction, is_blocked,
  abort_transaction,
}
use hawk_txn.LockTable.{build_and_prune_local_wait_for_graph}
use hawk_txn.Detector.{Wfg, find_cycles}
use hawk_txn.Resolve.{
  merge_wfg, convert_wfg_to_message_format, prune_graph, resolve_cycles,
  check_and_resolve_deadlocks,
}
use hawk_txn.Resolve.Probe.{probe_message}

-- `aggregatedWfg_` and the counters of the round.
pub record Collector : Type 0 where
  pub aggregated_wfg : Wfg
  pub wfg_reports_received : ℕ
  pub wfg_reports_expected : ℕ

-- The part that handleWFGReport and handleZoneWFGReport share: the graph to search, if the round is
-- complete, and then the counters start again.
unfoldable pub count_report :
    Collector → List (TransactionId × List TransactionId) → Collector × Option Wfg
unfolding merge_wfg
count_report c pairs =
    let merged = merge_wfg c.aggregated_wfg pairs in
    if leb c.wfg_reports_expected (c.wfg_reports_received + 1)
    then (record c { aggregated_wfg = []; wfg_reports_received = 0 }, some merged)
    else (
      record c { aggregated_wfg = merged; wfg_reports_received = c.wfg_reports_received + 1 },
      none,
    )

-- The search of a complete round in handleWFGReport.
unfoldable pub search_due :
    ℕ → ℕ → TransactionManager → Collector × Option Wfg → Option (Collector × List NetworkMessage)
unfolding check_and_resolve_deadlocks
search_due w fuel tm (c, none) = some (c, [])
search_due w fuel tm (c, some merged) = do
  ms ← check_and_resolve_deadlocks w fuel true tm merged
  some (c, ms)

-- handleWFGReport
unfoldable pub handle_wfg_report :
    ℕ → ℕ → Bool → TransactionManager → Collector → Wfg → Option (Collector × List NetworkMessage)
unfolding count_report search_due convert_wfg_to_message_format
handle_wfg_report w fuel central tm c g =
    if central
    then search_due w fuel tm (count_report c (convert_wfg_to_message_format g))
    else some (c, [])

-- The report that a zone's leader sends to the central node; an empty one if there is no graph.
abbrev pub zone_report :
    NodeId → List (TransactionId × List TransactionId) → List (List TransactionId) → NetworkMessage
zone_report sender pairs cycles = record blank {
  type = central_wfg_report_from_zone;
  sender_id = sender;
  receiver_id = centralized_node_id;
  wfg_data_pairs = pairs;
  detected_cycles = cycles;
  deadlock_count = pos (length cycles);
}

-- The test before it: `hawk` is whether DEADLOCK_DETECTION_MODE is MODE_HAWK.
abbrev pub report_if : Bool → NodeId → NetworkMessage → List NetworkMessage
report_if hawk leader m = if hawk && not (leader == centralized_node_id) then m ∷ [] else []

-- checkAndResolveDeadlocksForZone
unfoldable pub check_and_resolve_deadlocks_for_zone :
    ℕ → ℕ → Bool → NodeId → TransactionManager → Wfg → Option (List NetworkMessage)
unfolding prune_graph resolve_cycles find_cycles convert_wfg_to_message_format
check_and_resolve_deadlocks_for_zone w fuel hawk leader tm graph =
    let pruned = prune_graph (get_active_transactions tm) graph [] in
    elim (is_empty pruned) [
      | true ↦ some (report_if hawk leader (zone_report tm.node_id [] []))
      | false ↦ do
        (cycles, freq) ← find_cycles w fuel pruned
        aborts ← resolve_cycles tm freq cycles
        some (
            aborts
            ++ report_if hawk leader
                (zone_report tm.node_id (convert_wfg_to_message_format pruned) cycles))
    ]

-- The search of a complete round in handleZoneWFGReport.
unfoldable pub search_zone_due :
    ℕ
    → ℕ
    → Bool
    → TransactionManager
    → Collector × Option Wfg
    → Option (Collector × List NetworkMessage)
unfolding check_and_resolve_deadlocks_for_zone
search_zone_due w fuel hawk tm (c, none) = some (c, [])
search_zone_due w fuel hawk tm (c, some merged) = do
  ms ← check_and_resolve_deadlocks_for_zone w fuel hawk tm.node_id tm merged
  some (c, ms)

-- handleZoneWFGReport; `leads` is isZoneLeader.
unfoldable pub handle_zone_wfg_report :
    ℕ
    → ℕ
    → Bool
    → Bool
    → TransactionManager
    → Collector
    → List (TransactionId × List TransactionId)
    → Option (Collector × List NetworkMessage)
unfolding count_report search_zone_due
handle_zone_wfg_report w fuel hawk leads tm c pairs =
    if leads then search_zone_due w fuel hawk tm (count_report c pairs) else some (c, [])

-- handleZoneDetectionRequest
unfoldable pub handle_zone_detection_request : TransactionManager → NodeId → NetworkMessage
unfolding build_and_prune_local_wait_for_graph convert_wfg_to_message_format
handle_zone_detection_request tm central = record blank {
  type = zone_wfg_report;
  sender_id = tm.node_id;
  receiver_id = central;
  wfg_data_pairs =
      convert_wfg_to_message_format
        (build_and_prune_local_wait_for_graph (get_active_transactions tm) tm);
}

-- handleDeadlockResolution and handleAbortTransactionSignal
unfoldable pub abort_all : ℤ → List TransactionId → TransactionManager → TransactionManager
unfolding abort_transaction
abort_all d [] tm = tm
abort_all d (t ∷ ts) tm = abort_all d ts (abort_transaction d t tm).manager

-- The loop of initiatePathPushingProbes: what is put into the node's own queue.
unfoldable pub probes_for : TransactionManager → List TransactionId → List NetworkMessage
probes_for tm [] = []
probes_for tm (t ∷ ts) = elim (get_transaction tm t) [
  | none ↦ probes_for tm ts
  | some trans ↦
      if is_blocked trans.status
      then probe_message tm.node_id tm.node_id (t ∷ []) ∷ probes_for tm ts
      else probes_for tm ts
]

-- initiatePathPushingProbes
unfoldable pub initiate_path_pushing_probes : TransactionManager → List NetworkMessage
unfolding probes_for
initiate_path_pushing_probes tm = probes_for tm (get_active_transactions tm)
