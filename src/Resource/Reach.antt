-- ===== src/Resource/Reach.antt =====
-- ResourceManager.cpp as a transition system: every sequence of calls of its methods.
use hawk_txn.Common.{
  ◌≡◌, inl, inr, true, false, some, List, [], ◌∷◌, ◌==◌, if◌then◌else◌, arith, is_empty, Bool-cases,
  ap, ◌∙◌,
}
use hawk_txn.Map
use hawk_txn.Map.{Map, get_or-assign, get_or-erase, IsUnique, assign-IsUnique, erase-IsUnique}
use hawk_txn.Types.{NodeId, TransactionId, ResourceId, LockMode, exclusive, get_owner_node_id}
use hawk_txn.Resource.{
  ResourceManager, Holders, init, acquire_lock, release_lock, release_all_locks,
  remove_transaction_from_waiting_queue, store_holders, holds, get_resource_holders,
  get_resource_waiting_queue,
}
use hawk_txn.Resource.Grant.{grantable, check_conflict-grantable}
use hawk_txn.Resource.Exclusion.{
  Inv, init-Inv, compatible, compatible-assign, compatible-erase, compatible_exclusive,
}
use hawk_txn.Resource.Release.{
  get_or-store_holders, get_or-release_holders, release_holders-IsUnique,
}

store_holders-IsUnique :
    (r : ResourceId) (hs : Holders) (m : Map Holders) → IsUnique m → IsUnique (store_holders r hs m)
store_holders-IsUnique r [] m u = erase-IsUnique r m u
store_holders-IsUnique r (h ∷ hs) m u = assign-IsUnique r (h ∷ hs) m u

-- A new entry for one resource that the node owns keeps the invariant if it is compatible.
put_holders-Inv :
    (rm : ResourceManager) (r : ResourceId) (hs : Holders) (m : Map Holders)
    → get_owner_node_id r ≡ rm.node_id
    → compatible hs ≡ true
    → IsUnique m
    → ((q : ResourceId)
        → Map.get_or q [] m ≡ (if r == q then hs else Map.get_or q [] rm.resource_holders))
    → Inv rm
    → Inv (record rm { resource_holders = m })
put_holders-Inv rm r hs m own c u law v = record {
  unique = u;
  compat = λ q. ground (arith, law q, v.compat q);
  local_holders = λ q away. elim (Bool-cases (r == q)) [
    | inl e ↦ absurd (away (ground arith))
    | inr e ↦ law q ∙ rw e (v.local_holders q away)
  ];
  local_queues = v.local_queues;
}

put_queue-Inv :
    (rm : ResourceManager) (r : ResourceId) (q : List TransactionId)
    → get_owner_node_id r ≡ rm.node_id
    → Inv rm
    → Inv (record rm { resource_waiting_queues = Map.assign r q rm.resource_waiting_queues })
put_queue-Inv rm r q own v = record {
  unique = v.unique;
  compat = v.compat;
  local_holders = v.local_holders;
  local_queues = λ s away. elim (Bool-cases (r == s)) [
    | inl e ↦ absurd (away (ground arith))
    | inr e ↦ get_or-assign r s [] q rm.resource_waiting_queues ∙ rw e (v.local_queues s away)
  ];
}

pub acquire_lock-Inv :
    (rm : ResourceManager) (t : TransactionId) (r : ResourceId) (mode : LockMode)
    → Inv rm
    → Inv (acquire_lock rm t r mode).0
unfolding acquire_lock
acquire_lock-Inv rm t r mode v = elim (Bool-cases (get_owner_node_id r == rm.node_id)) [
  | inr other ↦ rw other v
  | inl own ↦ elim (Bool-cases (grantable rm r mode)) [
    | inl free ↦
        rw (own, check_conflict-grantable rm r mode, free)
          (put_holders-Inv rm r (Map.assign t mode (get_resource_holders rm r)) _ (ground arith)
            (compatible-assign t mode (get_resource_holders rm r) _ free)
            (assign-IsUnique r _ rm.resource_holders v.unique)
            (λ q. get_or-assign r q [] _ rm.resource_holders) v)
    | inr busy ↦
        rw (own, check_conflict-grantable rm r mode, busy) (put_queue-Inv rm r _ (ground arith) v)
  ]
]

pub release_lock-Inv :
    (rm : ResourceManager) (t : TransactionId) (r : ResourceId)
    → Inv rm
    → Inv (release_lock rm t r).0
unfolding release_lock
release_lock-Inv rm t r v = elim (Bool-cases (get_owner_node_id r == rm.node_id)) [
  | inr other ↦ rw other v
  | inl own ↦ elim (Bool-cases (Map.contains t (get_resource_holders rm r))) [
    | inl held ↦
        let hs : Holders = Map.erase t (get_resource_holders rm r) in
        rw (own, held)
          (put_holders-Inv rm r hs (store_holders r hs rm.resource_holders) (ground arith)
            (compatible-erase t (get_resource_holders rm r) (v.compat r))
            (store_holders-IsUnique r hs rm.resource_holders v.unique)
            (λ q. get_or-store_holders r q hs rm.resource_holders) v)
    | inr free ↦ rw (own, free) v
  ]
]

erase_nil : (t : TransactionId) (hs : Holders) → hs ≡ [] → Map.erase t hs ≡ []
unfolding Map.erase
erase_nil t hs e = rw e

pub release_all_locks-Inv :
    (rm : ResourceManager) (t : TransactionId) → Inv rm → Inv (release_all_locks rm t).0
unfolding release_all_locks
release_all_locks-Inv rm t v =
    let law = λ (q : ResourceId). get_or-release_holders t q rm.resource_holders v.unique in
    record {
      unique = release_holders-IsUnique t rm.resource_holders v.unique;
      compat = λ q. rw (law q) (compatible-erase t (get_resource_holders rm q) (v.compat q));
      local_holders = λ q away. law q ∙ erase_nil t _ (v.local_holders q away);
      local_queues = v.local_queues;
    }

-- A queue that is not empty belongs to a resource of the node.
own_of_waiting :
    (rm : ResourceManager) (r : ResourceId)
    → Inv rm
    → is_empty (get_resource_waiting_queue rm r) ≡ false
    → get_owner_node_id r ≡ rm.node_id
own_of_waiting rm r v busy = elim (Bool-cases (get_owner_node_id r == rm.node_id)) [
  | inl own ↦ ground arith
  | inr other ↦ let e = v.local_queues r (ground arith) in absurd (cc (ap is_empty e, busy))
]

pub remove_transaction_from_waiting_queue-Inv :
    (rm : ResourceManager) (t : TransactionId) (r : ResourceId)
    → Inv rm
    → Inv (remove_transaction_from_waiting_queue rm t r).0
unfolding remove_transaction_from_waiting_queue
remove_transaction_from_waiting_queue-Inv rm t r v =
    elim (Bool-cases (is_empty (get_resource_waiting_queue rm r))) [
      | inl quiet ↦ rw quiet v
      | inr busy ↦ rw busy (put_queue-Inv rm r _ (own_of_waiting rm r v busy) v)
    ]

pub data Call : Type 0 where
  acquires : TransactionId → ResourceId → LockMode → Call
  releases : TransactionId → ResourceId → Call
  releases_all : TransactionId → Call
  removes : TransactionId → ResourceId → Call

unfoldable pub step : ResourceManager → Call → ResourceManager
step rm (acquires t r mode) = (acquire_lock rm t r mode).0
step rm (releases t r) = (release_lock rm t r).0
step rm (releases_all t) = (release_all_locks rm t).0
step rm (removes t r) = (remove_transaction_from_waiting_queue rm t r).0

unfoldable pub run : ResourceManager → List Call → ResourceManager
unfolding step
run rm [] = rm
run rm (c ∷ cs) = run (step rm c) cs

pub step-Inv : (rm : ResourceManager) (c : Call) → Inv rm → Inv (step rm c)
unfolding step
step-Inv rm (acquires t r mode) v = acquire_lock-Inv rm t r mode v
step-Inv rm (releases t r) v = release_lock-Inv rm t r v
step-Inv rm (releases_all t) v = release_all_locks-Inv rm t v
step-Inv rm (removes t r) v = remove_transaction_from_waiting_queue-Inv rm t r v

pub run-Inv : (rm : ResourceManager) (cs : List Call) → Inv rm → Inv (run rm cs)
unfolding run
run-Inv rm [] v = v
run-Inv rm (c ∷ cs) v = run-Inv (step rm c) cs (step-Inv rm c v)

-- However the methods are called on a new manager, a transaction with an exclusive lock is the only
-- holder of its resource.
pub mutual_exclusion :
    (n : NodeId) (cs : List Call) (t u : TransactionId) (r : ResourceId) (mode : LockMode)
    → holds (run (init n) cs) t r ≡ some exclusive
    → holds (run (init n) cs) u r ≡ some mode
    → t ≡ u
mutual_exclusion n cs t u r mode ht hu =
    compatible_exclusive _ t u mode ((run-Inv (init n) cs (init-Inv n)).compat r) ht hu
