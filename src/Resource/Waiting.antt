-- ===== src/Resource/Waiting.antt =====
-- The waiting queues of ResourceManager.cpp: who leaves them, and who does not.
use mathlib.Core.List.{append-nil, append_assoc}
use hawk_txn.Common.{
  ℕ, zero, suc, ◌+◌, ◌-◌, ◌*◌, ◌/◌, ◌≤◌, ◌<◌, ◌≡◌, refl, ◌↔◌, inl, inr, Bool, true, false, ◌&&◌,
  some, List, [], ◌∷◌, ◌++◌, ◌==◌, if◌then◌else◌, arith, is_empty, elem, leb, ltb, Bool-cases, sym,
  ap, ◌∙◌, All,
}
use hawk_txn.Map
use hawk_txn.Map.{Map, get_or-assign}
use hawk_txn.Types.{TransactionId, ResourceId, LockMode, shared, exclusive, get_owner_node_id}
use hawk_txn.Resource.{
  ResourceManager, Holders, acquire_lock, release_lock, release_all_locks,
  remove_transaction_from_waiting_queue, remove_from_queue, holds, get_resource_holders,
  get_resource_waiting_queue, get_local_resources, count_up,
}
use hawk_txn.Resource.Grant.{
  AcquireEffect, foreign, granted, queued, acquire_lock_effect, acquire_free,
}
use hawk_txn.Resource.Exclusion.{Inv, compatible, all_shared_not_exclusive}
use hawk_txn.Resource.Release.{get_or-release_holders}
use hawk_txn.Resource.Reach.{Call, acquires, releases, releases_all, removes, step, run}

found_lem : (t : TransactionId) (q : List TransactionId) → (remove_from_queue t q).1 ≡ elem t q
unfolding remove_from_queue
found_lem t [] = refl
found_lem t (x ∷ q) = ground (arith, found_lem t q)

kept_lem :
    (t u : TransactionId) (q : List TransactionId)
    → elem u (remove_from_queue t q).0 ≡ (if t == u then false else elem u q)
unfolding remove_from_queue
kept_lem t u [] = ground arith
kept_lem t u (x ∷ q) = ground (arith, kept_lem t u q)

-- removeTransactionFromWaitingQueue says whether the transaction waited there; afterwards it does
-- not, whoever else waited in a queue still does, and no lock has changed hands.
pub remove_transaction_lem :
    (rm : ResourceManager) (t u : TransactionId) (r q : ResourceId)
    → ((remove_transaction_from_waiting_queue rm t r).1 ≡ elem t (get_resource_waiting_queue rm r))
      × (elem u (get_resource_waiting_queue (remove_transaction_from_waiting_queue rm t r).0 q)
          ≡ (if r == q && t == u then false else elem u (get_resource_waiting_queue rm q)))
      × ((remove_transaction_from_waiting_queue rm t r).0.resource_holders ≡ rm.resource_holders)
unfolding remove_transaction_from_waiting_queue
remove_transaction_lem rm t u r q = elim (Bool-cases (is_empty (get_resource_waiting_queue rm r))) [
  | inl quiet ↦
      let none_waits : get_resource_waiting_queue rm r ≡ [] = empty_eq _ quiet in
      (rw (quiet, none_waits), rw quiet (absent none_waits), rw quiet)
  | inr busy ↦
      let kept : List TransactionId = (remove_from_queue t (get_resource_waiting_queue rm r)).0 in
      (
        rw busy (found_lem t (get_resource_waiting_queue rm r)),
        rw busy (
            ap (elem u) (get_or-assign r q [] kept rm.resource_waiting_queues)
            ∙ ground (arith, kept_lem t u (get_resource_waiting_queue rm r))),
        rw busy,
      )
]
  where
    empty_eq : (xs : List TransactionId) → is_empty xs ≡ true → xs ≡ []
    empty_eq [] e = refl
    empty_eq (x ∷ xs) e = cc

    absent :
        get_resource_waiting_queue rm r ≡ []
        → elem u (get_resource_waiting_queue rm q)
          ≡ (if r == q && t == u then false else elem u (get_resource_waiting_queue rm q))
    absent e = ground (arith, ap (elem u) e)

-- The calls that the other files of the program make.
abbrev pub IsRemoval : Call → Type 0
IsRemoval (removes t r) = Unit {0}
IsRemoval (acquires t r mode) = ⊥
IsRemoval (releases t r) = ⊥
IsRemoval (releases_all t) = ⊥

abbrev Grows : List TransactionId → List TransactionId → Type 0
Grows q q' = (rest : List TransactionId) × (q' ≡ q ++ rest)

Grows-refl : (q q' : List TransactionId) → q' ≡ q → Grows q q'
Grows-refl q q' e = ([], e ∙ sym (append-nil q))

effect-Grows :
    {rm : ResourceManager} {t : TransactionId} {q : ResourceId} {mode : LockMode}
    {rm' : ResourceManager} {b : Bool} (r : ResourceId)
    → AcquireEffect rm t q mode rm' b
    → Grows (get_resource_waiting_queue rm r) (get_resource_waiting_queue rm' r)
effect-Grows r (foreign _ e) = Grows-refl _ _ (ap (λ s. get_resource_waiting_queue s r) e)
effect-Grows r (granted _ _ _ e) = Grows-refl _ _ (ap (Map.get_or r []) e)
effect-Grows {rm} {t} {q} r (queued _ _ _ law) = elim (Bool-cases (q == r)) [
  | inl same ↦
      let e : q ≡ r = ground arith in
      (t ∷ [], law r ∙ rw same (ap (λ s. get_resource_waiting_queue rm s ++ t ∷ []) e))
  | inr other ↦ Grows-refl _ _ (law r ∙ rw other refl)
]

release_lock-queues :
    (rm : ResourceManager) (t : TransactionId) (r : ResourceId)
    → (release_lock rm t r).0.resource_waiting_queues ≡ rm.resource_waiting_queues
unfolding release_lock
release_lock-queues rm t r = ground arith

step-Grows :
    (rm : ResourceManager) (c : Call) (r : ResourceId)
    → ¬ IsRemoval c
    → Grows (get_resource_waiting_queue rm r) (get_resource_waiting_queue (step rm c) r)
unfolding step release_all_locks
step-Grows rm (acquires t q mode) r h = effect-Grows r (acquire_lock_effect rm t q mode)
step-Grows rm (releases t q) r h =
    Grows-refl _ _ (ap (Map.get_or r []) (release_lock-queues rm t q))
step-Grows rm (releases_all t) r h = Grows-refl _ _ refl
step-Grows rm (removes t q) r h = absurd (h tt)

-- Nothing but removeTransactionFromWaitingQueue takes anybody out of a queue: over any calls of the
-- other methods each queue only gets longer at its end, whatever is released meanwhile.
pub queues_only_grow :
    (rm : ResourceManager) (cs : List Call) (r : ResourceId)
    → All (λ c. ¬ IsRemoval c) cs
    → (rest : List TransactionId) × (get_resource_waiting_queue (run rm cs) r
        ≡ get_resource_waiting_queue rm r ++ rest)
unfolding run
queues_only_grow rm [] r h = Grows-refl _ _ refl
queues_only_grow rm (c ∷ cs) r h =
    let (one, e) = step-Grows rm c r h.0 in
    let (more, f) = queues_only_grow (step rm c) cs r h.1 in
    (one ++ more, f ∙ ap (λ q. q ++ more) e ∙ append_assoc _ one more)

-- The holders after the holder of an exclusive lock is gone.
erase_only :
    (t : TransactionId) (hs : Holders)
    → compatible hs ≡ true
    → Map.find? t hs ≡ some exclusive
    → Map.erase t hs ≡ []
unfolding Map.erase
erase_only t [] c e = cc
erase_only t ((x, exclusive) ∷ []) c e = ground arith
erase_only t ((x, exclusive) ∷ y ∷ hs) c e = cc
erase_only t ((x, shared) ∷ hs) c e = absurd (ground (arith, all_shared_not_exclusive t hs c))

-- On a manager with the invariant, when the holder of an exclusive lock on a resource of the node
-- releases everything, the next transaction to ask gets the lock, in either mode, also past a
-- queue of others, and the queue stays as it was.
pub barging :
    (rm : ResourceManager) (t x : TransactionId) (r : ResourceId) (mode : LockMode)
    → Inv rm
    → get_owner_node_id r ≡ rm.node_id
    → holds rm t r ≡ some exclusive
    → ((acquire_lock (release_all_locks rm t).0 x r mode).1 ≡ true)
      × (get_resource_waiting_queue (acquire_lock (release_all_locks rm t).0 x r mode).0 r
          ≡ get_resource_waiting_queue rm r)
unfolding release_all_locks
barging rm t x r mode v own h =
    let free =
      get_or-release_holders t r rm.resource_holders v.unique
      ∙ erase_only t (get_resource_holders rm r) (v.compat r) h in
    let (got, same) = acquire_free (release_all_locks rm t).0 x r mode own free in
    (got, ap (Map.get_or r []) same)

elem-count_up : (n i r : ℕ) → elem r (count_up n i) ≡ leb i r && ltb r (i + n)
unfolding count_up
elem-count_up zero i r = ground arith
elem-count_up (suc n) i r = ground (arith, elem-count_up n (i + 1) r)

within_iff : (a b r : ℕ) → ((leb a r && ltb r b) ≡ true) ↔ ((a ≤ r) × (r < b))
within_iff a b r = ground arith

placed_iff :
    (n r : ℕ)
    → 0 < n
    → (((n - 1) * 1000 + 1 ≤ r) × (r < (n - 1) * 1000 + 1 + 1000))
      ↔ ((0 < r) × ((r - 1) / 1000 + 1 ≡ n))
placed_iff n r h = (λ p. omega arith, λ p. omega arith)

-- On a node with an id above 0, getLocalResources lists exactly the resources above 0 that
-- getOwnerNodeId places on the node.
pub get_local_resources_lem :
    (rm : ResourceManager) (r : ResourceId)
    → 0 < rm.node_id
    → (elem r (get_local_resources rm) ≡ true) ↔ ((0 < r) × (get_owner_node_id r ≡ rm.node_id))
unfolding get_local_resources get_owner_node_id
get_local_resources_lem rm r h =
    let start = (rm.node_id - 1) * 1000 + 1 in
    let listed = elem-count_up 1000 start r in
    let within = within_iff start (start + 1000) r in
    let placed = placed_iff rm.node_id r h in
    (λ m. placed.0 (within.0 (sym listed ∙ m)), λ p. listed ∙ within.1 (placed.1 p))
