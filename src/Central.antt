-- ===== src/Central.antt =====
-- handleCentralWFGReportFromZone of DistributedDBNode.cpp: the central node collects what the leaders
-- of the zones report, and searches the sum of their graphs when the round is complete.
pub mod Round
pub mod Tests
use hawk_txn.Common.{
  ℕ, ◌+◌, Bool, true, false, Option, some, none, List, [], ◌∷◌, ◌++◌, if◌then◌else◌, ◌>>=◌, leb,
  length,
}
use hawk_txn.Common.Int.{ℤ, pos, ◌+ℤ◌}
use hawk_txn.Types.{NodeId, TransactionId}
use hawk_txn.Message.{NetworkMessage, blank, deadlock_report_to_client}
use hawk_txn.Detector.{Wfg, find_cycles}
use hawk_txn.Resolve.{merge_wfg}

-- The fields of DistributedDBNode whose names start with `central`, and the two totals.
pub record CentralState : Type 0 where
  pub central_aggregated_wfg : Wfg
  pub central_wfg_reports_received : ℕ
  pub central_deadlock_count : ℕ
  pub central_detected_cycles : List (List TransactionId)
  pub total_deadlocks_from_zones : ℤ
  pub total_deadlocks_from_central : ℤ

-- The constructor.
abbrev pub no_reports : CentralState
no_reports = record {
  central_aggregated_wfg = [];
  central_wfg_reports_received = 0;
  central_deadlock_count = 0;
  central_detected_cycles = [];
  total_deadlocks_from_zones = pos 0;
  total_deadlocks_from_central = pos 0;
}

-- The first half: one report is added to the round.
unfoldable pub add_zone_report :
    List (TransactionId × List TransactionId)
    → List (List TransactionId)
    → ℤ
    → CentralState
    → CentralState
unfolding merge_wfg ◌+ℤ◌
add_zone_report pairs cycles count s = record {
  central_aggregated_wfg = merge_wfg s.central_aggregated_wfg pairs;
  central_wfg_reports_received = s.central_wfg_reports_received + 1;
  central_deadlock_count = s.central_deadlock_count;
  central_detected_cycles = s.central_detected_cycles ++ cycles;
  total_deadlocks_from_zones = s.total_deadlocks_from_zones +ℤ count;
  total_deadlocks_from_central = s.total_deadlocks_from_central;
}

abbrev pub central_report : NodeId → NodeId → List (List TransactionId) → ℕ → NetworkMessage
central_report sender client cycles count = record blank {
  type = deadlock_report_to_client;
  sender_id = sender;
  receiver_id = client;
  detected_cycles = cycles;
  deadlock_count = pos count;
}

-- The second half, after the search of a complete round.
unfoldable pub close_round :
    NodeId → List (List TransactionId) → CentralState → CentralState × List NetworkMessage
unfolding ◌+ℤ◌
close_round n found s = (
  record {
    central_aggregated_wfg = [];
    central_wfg_reports_received = 0;
    central_deadlock_count = 0;
    central_detected_cycles = [];
    total_deadlocks_from_zones = s.total_deadlocks_from_zones;
    total_deadlocks_from_central = s.total_deadlocks_from_central +ℤ pos (length found);
  },
  central_report n 0 (s.central_detected_cycles ++ found) (s.central_deadlock_count + length found)
      ∷ [],
)

unfoldable pub close_if_complete :
    ℕ → ℕ → NodeId → ℕ → CentralState → Option (CentralState × List NetworkMessage)
unfolding find_cycles close_round
close_if_complete w fuel n num_nodes s = elim (leb num_nodes s.central_wfg_reports_received) [
  | false ↦ some (s, [])
  | true ↦ do
    (found, freq) ← find_cycles w fuel s.central_aggregated_wfg
    some (close_round n found s)
]

-- handleCentralWFGReportFromZone
unfoldable pub handle_central_wfg_report_from_zone :
    ℕ
    → ℕ
    → Bool
    → NodeId
    → ℕ
    → CentralState
    → List (TransactionId × List TransactionId)
    → List (List TransactionId)
    → ℤ
    → Option (CentralState × List NetworkMessage)
unfolding add_zone_report close_if_complete
handle_central_wfg_report_from_zone w fuel central n num_nodes s pairs cycles count =
    if central
    then close_if_complete w fuel n num_nodes (add_zone_report pairs cycles count s)
    else some (s, [])
