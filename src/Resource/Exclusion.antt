-- ===== src/Resource/Exclusion.antt =====
-- The mutual exclusion that ResourceManager.cpp keeps, over every sequence of its methods.
use hawk_txn.Common.{◌≡◌, refl, ◌≢◌, Bool, true, some, List, [], ◌∷◌, arith, is_empty}
use hawk_txn.Map
use hawk_txn.Map.{Map, find?-assign, get_or-assign, IsUnique, find?-contains}
use hawk_txn.Types.{
  NodeId, TransactionId, ResourceId, LockMode, shared, exclusive, get_owner_node_id,
}
use hawk_txn.Resource.{
  ResourceManager, Holders, init, get_resource_holders, get_resource_waiting_queue,
}
use hawk_txn.Resource.Grant.{all_shared, grantable_to}

-- Shared locks only, or a single exclusive one.
abbrev pub compatible : Holders → Bool
compatible [] = true
compatible ((t, shared) ∷ hs) = all_shared hs
compatible ((t, exclusive) ∷ hs) = is_empty hs

compatible_of_all_shared : (hs : Holders) → all_shared hs ≡ true → compatible hs ≡ true
compatible_of_all_shared [] h = refl
compatible_of_all_shared ((t, shared) ∷ hs) h = h
compatible_of_all_shared ((t, exclusive) ∷ hs) h = cc

all_shared-assign :
    (t : TransactionId) (hs : Holders)
    → all_shared hs ≡ true
    → all_shared (Map.assign t shared hs) ≡ true
unfolding Map.assign
all_shared-assign t [] h = refl
all_shared-assign t ((u, shared) ∷ hs) h = ground (arith, all_shared-assign t hs h)
all_shared-assign t ((u, exclusive) ∷ hs) h = cc

all_shared-erase :
    (t : TransactionId) (hs : Holders) → all_shared hs ≡ true → all_shared (Map.erase t hs) ≡ true
unfolding Map.erase
all_shared-erase t [] h = refl
all_shared-erase t ((u, shared) ∷ hs) h = ground (arith, all_shared-erase t hs h)
all_shared-erase t ((u, exclusive) ∷ hs) h = cc

pub compatible-erase :
    (t : TransactionId) (hs : Holders) → compatible hs ≡ true → compatible (Map.erase t hs) ≡ true
unfolding Map.erase
compatible-erase t [] h = refl
compatible-erase t ((u, shared) ∷ hs) h =
    ground (arith, all_shared-erase t hs h, compatible_of_all_shared (Map.erase t hs))
compatible-erase t ((u, exclusive) ∷ []) h = ground arith
compatible-erase t ((u, exclusive) ∷ x ∷ hs) h = cc

pub compatible-assign :
    (t : TransactionId) (mode : LockMode) (hs : Holders) (q : List TransactionId)
    → grantable_to mode hs q ≡ true
    → compatible (Map.assign t mode hs) ≡ true
unfolding Map.assign
compatible-assign t shared [] q g = refl
compatible-assign t exclusive [] q g = refl
compatible-assign t shared (h ∷ hs) q g =
    compatible_of_all_shared (Map.assign t shared (h ∷ hs))
      (all_shared-assign t (h ∷ hs) (ground arith))
compatible-assign t exclusive (h ∷ hs) q g = cc

pub all_shared_not_exclusive :
    (t : TransactionId) (hs : Holders) → all_shared hs ≡ true → Map.find? t hs ≢ some exclusive
all_shared_not_exclusive t [] a p = cc
all_shared_not_exclusive t ((y, shared) ∷ hs) a p = ground (arith, all_shared_not_exclusive t hs a)
all_shared_not_exclusive t ((y, exclusive) ∷ hs) a p = cc

-- The only holder of an exclusive lock is the only holder.
pub compatible_exclusive :
    (hs : Holders) (t u : TransactionId) (m : LockMode)
    → compatible hs ≡ true
    → Map.find? t hs ≡ some exclusive
    → Map.find? u hs ≡ some m
    → t ≡ u
compatible_exclusive [] t u m c e f = cc
compatible_exclusive ((x, exclusive) ∷ []) t u m c e f = ground arith
compatible_exclusive ((x, exclusive) ∷ y ∷ hs) t u m c e f = cc
compatible_exclusive ((x, shared) ∷ hs) t u m c e f =
    absurd (ground (arith, all_shared_not_exclusive t hs c))

-- What every sequence of calls keeps.
pub record Inv (rm : ResourceManager) : Type 0 where
  pub unique : IsUnique rm.resource_holders
  pub compat : (r : ResourceId) → compatible (get_resource_holders rm r) ≡ true
  pub local_holders :
      (r : ResourceId) → get_owner_node_id r ≢ rm.node_id → get_resource_holders rm r ≡ []
  pub local_queues :
      (r : ResourceId) → get_owner_node_id r ≢ rm.node_id → get_resource_waiting_queue rm r ≡ []

pub init-Inv : (n : NodeId) → Inv (init n)
unfolding init
init-Inv n = record {
  unique = tt;
  compat = λ r. refl;
  local_holders = λ r h. refl;
  local_queues = λ r h. refl;
}
