-- ===== src/Resource/Grant.antt =====
-- acquireLock in ResourceManager.cpp: when a lock is granted, and what each outcome changes.
use hawk_txn.Common.{
  ◌≡◌, refl, ◌↔◌, inl, inr, ◌≢◌, Bool, true, false, not, some, List, [], ◌∷◌, ◌++◌, ◌==◌,
  if◌then◌else◌, arith, is_empty, Bool-cases, ap, ◌∙◌,
}
use hawk_txn.Map
use hawk_txn.Map.{find?-assign, get_or-assign}
use hawk_txn.Types.{TransactionId, ResourceId, LockMode, shared, exclusive, get_owner_node_id}
use hawk_txn.Resource.{
  ResourceManager, Holders, acquire_lock, check_conflict, conflicts_with, holds,
  get_resource_holders, get_resource_waiting_queue,
}

-- Every holder has a shared lock.
abbrev pub all_shared : Holders → Bool
all_shared [] = true
all_shared ((t, shared) ∷ hs) = all_shared hs
all_shared ((t, exclusive) ∷ hs) = false

pub conflicts_with_shared : (hs : Holders) → conflicts_with shared hs ≡ not (all_shared hs)
conflicts_with_shared [] = refl
conflicts_with_shared ((t, shared) ∷ hs) = conflicts_with_shared hs
conflicts_with_shared ((t, exclusive) ∷ hs) = refl

pub conflicts_with_exclusive : (hs : Holders) → conflicts_with exclusive hs ≡ not (is_empty hs)
conflicts_with_exclusive [] = refl
conflicts_with_exclusive (h ∷ hs) = refl

-- A request passes when nobody holds the resource, or when it is shared, nobody waits and every
-- holder has a shared lock.
abbrev pub grantable_to : LockMode → Holders → List TransactionId → Bool
grantable_to exclusive hs q = is_empty hs
grantable_to shared hs q = if is_empty hs then true else if is_empty q then all_shared hs else false

abbrev pub grantable : ResourceManager → ResourceId → LockMode → Bool
grantable rm r mode =
    grantable_to mode (get_resource_holders rm r) (get_resource_waiting_queue rm r)

pub check_conflict-grantable :
    (rm : ResourceManager) (r : ResourceId) (mode : LockMode)
    → check_conflict rm r mode ≡ not (grantable rm r mode)
unfolding check_conflict
check_conflict-grantable rm r shared =
    ground (arith, conflicts_with_shared (get_resource_holders rm r))
check_conflict-grantable rm r exclusive =
    ground (arith, conflicts_with_exclusive (get_resource_holders rm r))

-- A lock is granted exactly when the node owns the resource and the request is grantable: the
-- resource is free, or nobody waits and all locks, the one asked for included, are shared.
pub acquire_lock-granted :
    (rm : ResourceManager) (t : TransactionId) (r : ResourceId) (mode : LockMode)
    → ((acquire_lock rm t r mode).1 ≡ true)
      ↔ ((get_owner_node_id r ≡ rm.node_id) × (grantable rm r mode ≡ true))
unfolding acquire_lock
acquire_lock-granted rm t r mode = ground (arith, check_conflict-grantable rm r mode)

-- What a request leaves behind: the manager as it was at a foreign resource; the transaction as a
-- holder in the mode it asked for; or the transaction at the end of the resource's queue.
pub data AcquireEffect (rm : ResourceManager) (t : TransactionId) (r : ResourceId) (mode : LockMode)
    (rm' : ResourceManager) : Bool → Type 0 where
  foreign : get_owner_node_id r ≢ rm.node_id → rm' ≡ rm → AcquireEffect rm t r mode rm' false
  granted :
      get_owner_node_id r ≡ rm.node_id
      → grantable rm r mode ≡ true
      → ((u : TransactionId) (q : ResourceId)
          → holds rm' u q
            ≡ (if r == q then (if t == u then some mode else holds rm u q) else holds rm u q))
      → rm'.resource_waiting_queues ≡ rm.resource_waiting_queues
      → AcquireEffect rm t r mode rm' true
  queued :
      get_owner_node_id r ≡ rm.node_id
      → grantable rm r mode ≡ false
      → rm'.resource_holders ≡ rm.resource_holders
      → ((q : ResourceId)
          → get_resource_waiting_queue rm' q ≡ (
              if r == q
              then get_resource_waiting_queue rm r ++ t ∷ []
              else get_resource_waiting_queue rm q))
      → AcquireEffect rm t r mode rm' false

-- A request has one of the three effects, for the answer that it gives: the manager is as it was,
-- the transaction has become a holder and no other holder or queue has changed, or it is at the end
-- of the queue and no holder has changed.
pub acquire_lock_effect :
    (rm : ResourceManager) (t : TransactionId) (r : ResourceId) (mode : LockMode)
    → AcquireEffect rm t r mode (acquire_lock rm t r mode).0 (acquire_lock rm t r mode).1
unfolding acquire_lock
acquire_lock_effect rm t r mode = elim (Bool-cases (get_owner_node_id r == rm.node_id)) [
  | inr other ↦ rw other (foreign (ground arith) refl)
  | inl own ↦ elim (Bool-cases (grantable rm r mode)) [
    | inl free ↦
        let quiet : check_conflict rm r mode ≡ false =
          check_conflict-grantable rm r mode ∙ ap not free in
        rw (own, quiet)
          (granted (ground arith) free
            (λ u q. ground (
              arith,
              get_or-assign r q [] (Map.assign t mode (get_resource_holders rm r))
                  rm.resource_holders,
              find?-assign t u mode (get_resource_holders rm r),
            ))
            refl)
    | inr busy ↦
        let clash : check_conflict rm r mode ≡ true =
          check_conflict-grantable rm r mode ∙ ap not busy in
        rw (own, clash)
          (queued (ground arith) busy refl (λ q. get_or-assign r q [] _ rm.resource_waiting_queues))
  ]
]

-- A transaction that holds a resource of the node, in whatever mode, and asks for the exclusive
-- lock on it is refused and put into the queue behind its own lock, which it keeps.
pub upgrade_refused :
    (rm : ResourceManager) (t : TransactionId) (r : ResourceId) (held : LockMode)
    → get_owner_node_id r ≡ rm.node_id
    → holds rm t r ≡ some held
    → ((acquire_lock rm t r exclusive).1 ≡ false)
      × (get_resource_waiting_queue (acquire_lock rm t r exclusive).0 r
          ≡ get_resource_waiting_queue rm r ++ t ∷ [])
      × (holds (acquire_lock rm t r exclusive).0 t r ≡ some held)
unfolding acquire_lock
upgrade_refused rm t r held own h =
    let busy : is_empty (get_resource_holders rm r) ≡ false =
      held_busy (get_resource_holders rm r) h in
    ground (
      arith,
      check_conflict-grantable rm r exclusive,
      get_or-assign r r [] (get_resource_waiting_queue rm r ++ t ∷ []) rm.resource_waiting_queues,
    )
  where
    held_busy : (hs : Holders) → Map.find? t hs ≡ some held → is_empty hs ≡ false
    held_busy [] e = cc
    held_busy (x ∷ hs) e = refl

-- Where nobody holds the resource, anybody gets it, and the queue stays as it is.
pub acquire_free :
    (rm : ResourceManager) (t : TransactionId) (r : ResourceId) (mode : LockMode)
    → get_owner_node_id r ≡ rm.node_id
    → get_resource_holders rm r ≡ []
    → ((acquire_lock rm t r mode).1 ≡ true)
      × ((acquire_lock rm t r mode).0.resource_waiting_queues ≡ rm.resource_waiting_queues)
unfolding acquire_lock check_conflict
acquire_free rm t r mode own free = ground arith
