-- ===== src/Collect/Tests.antt =====
-- A round of two reports in DistributedDBNode.cpp.
use hawk_txn.Common.{◌≡◌, refl, true, ◌||◌, some, List, [], ◌∷◌, ◌++◌, ◌>>=◌, arith}
use hawk_txn.Types.{TransactionId}
use hawk_txn.Transaction.{TransactionManager, new_transaction}
use hawk_txn.Detector.{Wfg}
use hawk_txn.LockTable.Edges.{has_edge}
use hawk_txn.Resolve.{check_and_resolve_deadlocks}
use hawk_txn.Collect.{Collector}
use hawk_txn.Collect.Round.{handle_all, reported, round_lem}

abbrev manager : TransactionManager
manager = record {
  node_id = 1;
  resource_manager = record {
    node_id = 1;
    resource_holders = [];
    resource_waiting_queues = [];
    notify = true;
  };
  next_transaction_id = 3;
  active_transactions = (1, new_transaction 1 1 []) ∷ (2, new_transaction 2 1 []) ∷ [];
  completed_transaction_latencies = [];
}

abbrev ready : Collector
ready = record { aggregated_wfg = []; wfg_reports_received = 0; wfg_reports_expected = 2 }

abbrev reports : List Wfg
reports = ((1, 2 ∷ []) ∷ []) ∷ ((2, 1 ∷ []) ∷ []) ∷ []

round_lem_example :
    (merged : Wfg) × (handle_all 9 9 manager ready reports ≡ (
      check_and_resolve_deadlocks 9 9 true manager merged
      >>= (λ ms. some (record ready { aggregated_wfg = []; wfg_reports_received = 0 }, ms ++ []))))
    × ((u v : TransactionId)
        → has_edge merged u v ≡ has_edge ready.aggregated_wfg u v || reported u v reports)
round_lem_example =
    round_lem 9 9 manager ready reports ((refl, tt), ((refl, tt), tt)) (omega arith) (omega arith)
