-- ===== src/Central/Tests.antt =====
-- A round of reports to the central node in DistributedDBNode.cpp.
use hawk_txn.Common.{true, ◌+◌, ◌++◌, ◌||◌, length, ℕ, ◌≡◌, refl, some, List, [], ◌∷◌, arith}
use hawk_txn.Common.Int.{pos, ◌+ℤ◌}
use hawk_txn.Map
use hawk_txn.Map.{Map}
use hawk_txn.Types.{TransactionId}
use hawk_txn.Detector.{find_cycles, dfs, follow, follow_all, report, enter, leave, set_parent}
use hawk_txn.Resolve.{merge_wfg, merge_targets}
use hawk_txn.LockTable.Edges.{has_edge}
use hawk_txn.Message.{NetworkMessage}
use hawk_txn.Central.{CentralState, no_reports, handle_central_wfg_report_from_zone}
use hawk_txn.Central.Round.{
  ZoneReport, handle_zone_reports, merged, reported, zone_cycles, zone_total, IsReport,
  zone_round_lem,
}

-- One zone found a cycle of 1 and 2, the other only an edge.
abbrev first : ZoneReport
first = record { pairs = (1, 2 ∷ []) ∷ (2, 1 ∷ []) ∷ []; cycles = (1 ∷ 2 ∷ []) ∷ []; count = pos 1 }

abbrev second : ZoneReport
second = record { pairs = (3, 1 ∷ []) ∷ []; cycles = []; count = pos 0 }

abbrev reports : List ZoneReport
reports = first ∷ second ∷ []

found : (r : List (List TransactionId) × Map ℕ) × (find_cycles 9 9 (merged [] reports) ≡ some r)
unfolding enter leave set_parent report follow follow_all dfs find_cycles merge_wfg merge_targets
    Map.assign
found = (_, refl)

zone_round_lem_example :
    (open_round : CentralState) × (m : NetworkMessage) × (handle_zone_reports 9 9 1 2 no_reports
        (first ∷ [])
      ≡ some (open_round, []))
    × (handle_central_wfg_report_from_zone 9 9 true 1 2 open_round ((3, 1 ∷ []) ∷ []) [] (pos 0)
        ≡ some (
          record {
            central_aggregated_wfg = [];
            central_wfg_reports_received = 0;
            central_deadlock_count = 0;
            central_detected_cycles = [];
            total_deadlocks_from_zones = zone_total (pos 0) reports;
            total_deadlocks_from_central = pos 0 +ℤ pos (length found.0.0);
          },
          m ∷ [],
        ))
    × IsReport 1 ([] ++ (zone_cycles reports ++ found.0.0)) (0 + length found.0.0) m
    × ((u v : TransactionId)
        → has_edge (merged [] reports) u v ≡ has_edge [] u v || reported u v reports)
zone_round_lem_example =
    zone_round_lem 9 9 1 2 no_reports (first ∷ []) second found.0.0 found.0.1 (omega arith) found.1
