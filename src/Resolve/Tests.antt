-- ===== src/Resolve/Tests.antt =====
-- Runs of the resolution in DistributedDBNode.cpp on node 1.
use mathlib.Core.List.{Memᴰ}
use mathlib.Core.List.Memᴰ
use hawk_txn.Common.{
  All, ℕ, zero, suc, ◌≤◌, ◌≡◌, refl, true, false, ◌&&◌, some, List, [], ◌∷◌, ◌++◌, elem, arith,
  is_empty, subst,
}
use hawk_txn.Map
use hawk_txn.Types.{TransactionId, exclusive}
use hawk_txn.Message.{NetworkMessage}
use hawk_txn.Transaction.{Transaction, blocked, TransactionManager, new_transaction}
use hawk_txn.Detector.{Wfg, find_cycles, enter, leave, set_parent, report, follow, follow_all, dfs}
use hawk_txn.Detector.Graph.{Edge, IsCycle}
use hawk_txn.LockTable.Edges.{has_edge}
use hawk_txn.Resolve.{select_victim, prune_graph, prune_targets, check_and_resolve_deadlocks}
use hawk_txn.Resolve.Victim.{select_victim_lem}
use hawk_txn.Resolve.Merge.{prune_active_lem}
use hawk_txn.Resolve.Probe.{handle_path_pushing_probe, Probed, probe_lem}
use hawk_txn.Resolve.Abort.{IsBroken, IsReportOf, check_and_resolve_lem}

-- Two transactions that wait for each other, and one that is not active.
abbrev ring : Wfg
ring = (1, 2 ∷ []) ∷ (2, 1 ∷ []) ∷ []

abbrev reported : Wfg
reported = (1, 2 ∷ 3 ∷ []) ∷ (2, 1 ∷ []) ∷ []

abbrev manager : TransactionManager
manager = record {
  node_id = 1;
  resource_manager = record {
    node_id = 1;
    resource_holders = [];
    resource_waiting_queues = [];
    notify = true;
  };
  next_transaction_id = 3;
  active_transactions = (1, new_transaction 1 1 []) ∷ (2, new_transaction 2 1 []) ∷ [];
  completed_transaction_latencies = [];
}

abbrev counts : Map.Map ℕ
counts = (1, 1) ∷ (2, 1) ∷ []

counted : (t : TransactionId) → elem t (1 ∷ 2 ∷ []) ≡ true → Map.contains t counts ≡ true
counted t h = ground (arith, h)

select_victim_lem_example :
    (v : TransactionId) × (n : ℕ) × (select_victim (1 ∷ 2 ∷ []) counts ≡ some v)
    × (elem v (1 ∷ 2 ∷ []) ≡ true)
    × (Map.find? v counts ≡ some n)
    × ((t : TransactionId) (k : ℕ)
        → elem t (1 ∷ 2 ∷ []) ≡ true
        → Map.find? t counts ≡ some k
        → (k ≤ n) × (k ≡ n → v ≤ t))
select_victim_lem_example = select_victim_lem (1 ∷ 2 ∷ []) counts refl counted

prune_active_lem_example :
    has_edge (prune_graph (1 ∷ 2 ∷ []) reported []) 1 3
    ≡ has_edge reported 1 3 && (elem 1 (1 ∷ 2 ∷ []) && elem 3 (1 ∷ 2 ∷ []))
prune_active_lem_example = prune_active_lem (1 ∷ 2 ∷ []) reported 1 3 (refl, (refl, tt))

pruned-ring : prune_graph (1 ∷ 2 ∷ []) reported [] ≡ ring
unfolding prune_graph prune_targets Map.assign
pruned-ring = refl

find_cycles-pruned :
    find_cycles 9 9 (prune_graph (1 ∷ 2 ∷ []) reported []) ≡ some ((1 ∷ 2 ∷ []) ∷ [], counts)
unfolding prune_graph prune_targets enter leave set_parent report follow follow_all dfs find_cycles
    Map.assign
find_cycles-pruned = refl

ring_far : (n : ℕ) → Map.get_or (suc (suc (suc n))) [] ring ≡ []
ring_far n = ground arith

pruned_no_zero : (u : TransactionId) → ¬ Edge (prune_graph (1 ∷ 2 ∷ []) reported []) u 0
unfolding prune_graph prune_targets Map.assign
pruned_no_zero (suc zero) m = absurd (omega (arith, Memᴰ.eq_of_singleton m))
pruned_no_zero (suc (suc zero)) m = absurd (omega (arith, Memᴰ.eq_of_singleton m))
pruned_no_zero zero m = Memᴰ.not-nil m
pruned_no_zero (suc (suc (suc n))) m = Memᴰ.not-nil (subst (λ l. Memᴰ 0 l) (ring_far n) m)

pruned_full : is_empty (prune_graph (1 ∷ 2 ∷ []) reported []) ≡ false
unfolding prune_graph prune_targets Map.assign
pruned_full = refl

check_and_resolve_lem_example :
    (ms : List NetworkMessage) × (r : NetworkMessage) × (check_and_resolve_deadlocks 9 9 true
        manager reported
      ≡ some (ms ++ r ∷ []))
    × IsReportOf manager ((1 ∷ 2 ∷ []) ∷ []) r
    × All (IsBroken manager ms) ((1 ∷ 2 ∷ []) ∷ [])
    × All (IsCycle (prune_graph (1 ∷ 2 ∷ []) reported [])) ((1 ∷ 2 ∷ []) ∷ [])
check_and_resolve_lem_example =
    check_and_resolve_lem 9 9 true manager reported ((1 ∷ 2 ∷ []) ∷ []) counts pruned_full
      pruned_no_zero find_cycles-pruned

abbrev waiting : Transaction
waiting = record (new_transaction 1 1 []) { status = blocked; waiting_for_resource_id = 5 }

abbrev stuck : TransactionManager
stuck = record manager {
  resource_manager = record {
    node_id = 1;
    resource_holders = (5, (2, exclusive) ∷ []) ∷ [];
    resource_waiting_queues = (5, 1 ∷ []) ∷ [];
    notify = true;
  };
  active_transactions = (1, waiting) ∷ [];
}

probe_lem_example : Probed stuck (2 ∷ 1 ∷ []) (handle_path_pushing_probe true stuck (2 ∷ 1 ∷ []))
probe_lem_example = probe_lem true stuck (2 ∷ 1 ∷ [])
