-- ===== src/Resource/Tests.antt =====
-- Runs of ResourceManager.cpp on node 1, which owns resources 1 to 1000.
use hawk_txn.Common.{ℕ, ◌++◌, ◌≡◌, refl, ◌↔◌, true, subst, List, [], ◌∷◌}
use hawk_txn.Map
use hawk_txn.Types.{TransactionId, shared, exclusive, get_owner_node_id}
use hawk_txn.Resource.{ResourceManager, init, acquire_lock, get_resource_waiting_queue}
use hawk_txn.Resource.Grant.{acquire_lock-granted, grantable}
use hawk_txn.Resource.Exclusion.{Inv}
use hawk_txn.Resource.Reach.{Call, acquires, releases, releases_all, run, run-Inv, mutual_exclusion}
use hawk_txn.Resource.Waiting.{queues_only_grow}

-- Transaction 7 has resource 5, and 8 waits for it.
abbrev calls : List Call
calls = acquires 7 5 exclusive ∷ acquires 8 5 shared ∷ []

abbrev contended : ResourceManager
contended = record {
  node_id = 1;
  resource_holders = (5, (7, exclusive) ∷ []) ∷ [];
  resource_waiting_queues = (5, 8 ∷ []) ∷ [];
  notify = true;
}

abbrev ready : ResourceManager
ready = record { node_id = 1; resource_holders = []; resource_waiting_queues = []; notify = true }

contended-run : run ready calls ≡ contended
unfolding run acquire_lock get_owner_node_id Map.assign
contended-run = refl

contended-Inv : Inv contended
contended-Inv = subst Inv contended-run (run-Inv ready calls ready-Inv)
  where
    ready-Inv : Inv ready
    ready-Inv = record {
      unique = tt;
      compat = λ r. refl;
      local_holders = λ r h. refl;
      local_queues = λ r h. refl;
    }

own_5 : get_owner_node_id 5 ≡ 1
unfolding get_owner_node_id
own_5 = refl

acquire_lock-granted_example :
    ((acquire_lock contended 9 6 shared).1 ≡ true)
    ↔ ((get_owner_node_id 6 ≡ 1) × (grantable contended 6 shared ≡ true))
acquire_lock-granted_example = acquire_lock-granted contended 9 6 shared

mutual_exclusion_example : ◌≡◌ {A = ℕ} 7 7
unfolding run acquire_lock get_owner_node_id Map.assign init
mutual_exclusion_example = mutual_exclusion 1 calls 7 7 5 exclusive refl refl

queues_only_grow_example :
    (rest : List TransactionId) × (get_resource_waiting_queue
        (run contended (releases 7 5 ∷ releases_all 8 ∷ []))
        5
      ≡ (8 ∷ []) ++ rest)
queues_only_grow_example =
    queues_only_grow contended (releases 7 5 ∷ releases_all 8 ∷ []) 5 ((λ x. x), ((λ x. x), tt))
