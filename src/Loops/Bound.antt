-- ===== src/Loops/Bound.antt =====
-- How many transactions transactionPollingLoop of DistributedDBNode.cpp keeps active.
use hawk_txn.Common.{
  ℕ, zero, suc, ◌+◌, ◌-◌, ◌≤◌, ◌≡◌, refl, Bool, false, List, [], ◌∷◌, ltb, if◌then◌else◌, length,
  arith, Bool-cases, inl, inr, ap, ◌∙◌,
}
use hawk_txn.Map
use hawk_txn.Map.{Map}
use hawk_txn.Types.{TransactionId, ResourceId}
use hawk_txn.Transaction.{
  TransactionManager, begin_transaction, get_active_transactions, get_next_transaction_id,
}
use hawk_txn.Loops.{max_concurrent_transactions_per_node, begin_each, take, top_up}

-- A new key makes the map longer by one.
length-assign {ℓ} :
    {V : Type ℓ} (k : ℕ) (v : V) (m : Map V)
    → Map.contains k m ≡ false
    → length (Map.keys (Map.assign k v m)) ≡ length (Map.keys m) + 1
unfolding Map.assign
length-assign k v [] h = refl
length-assign k v ((j, w) ∷ m) h = ground (arith, length-assign k v m)

-- No id that has not been given out is in use.
abbrev pub IsFresh : TransactionManager → Type 0
IsFresh tm =
    (t : TransactionId) → tm.next_transaction_id ≤ t → Map.contains t tm.active_transactions ≡ false

begin-IsFresh :
    (draws : List (ResourceId × Bool)) (tm : TransactionManager)
    → IsFresh tm
    → IsFresh (begin_transaction draws tm).0
unfolding begin_transaction get_next_transaction_id
begin-IsFresh draws tm fresh t le =
    Map.contains-assign tm.next_transaction_id t _ tm.active_transactions ∙ ground (arith, fresh t)

begin-length :
    (draws : List (ResourceId × Bool)) (tm : TransactionManager)
    → IsFresh tm
    → length (get_active_transactions (begin_transaction draws tm).0)
      ≡ length (get_active_transactions tm) + 1
unfolding begin_transaction get_next_transaction_id
begin-length draws tm fresh =
    length-assign tm.next_transaction_id _ tm.active_transactions
      (fresh tm.next_transaction_id (omega arith))

begin_each-length :
    (ds : List (List (ResourceId × Bool))) (tm : TransactionManager)
    → IsFresh tm
    → length (get_active_transactions (begin_each ds tm))
      ≡ length (get_active_transactions tm) + length ds
unfolding begin_each
begin_each-length [] tm fresh = omega arith
begin_each-length (d ∷ ds) tm fresh = omega (
  arith,
  begin_each-length ds (begin_transaction d tm).0 (begin-IsFresh d tm fresh),
  begin-length d tm fresh,
)

length-take :
    (n : ℕ) (ds : List (List (ResourceId × Bool))) → n ≤ length ds → length (take n ds) ≡ n
length-take zero ds le = refl
length-take (suc n) [] le = absurd (omega (arith, le))
length-take (suc n) (d ∷ ds) le = ap suc (length-take n ds (omega (arith, le)))

-- If no id that has not been given out is in use, the polling loop without TPC-C brings the number of
-- active transactions up to 8 where it is below, and otherwise begins none.
pub top_up_lem :
    (draws : List (List (ResourceId × Bool))) (tm : TransactionManager)
    → IsFresh tm
    → max_concurrent_transactions_per_node ≤ length draws
    → length (get_active_transactions (top_up false draws tm)) ≡ (
        if ltb (length (get_active_transactions tm)) max_concurrent_transactions_per_node
        then max_concurrent_transactions_per_node
        else length (get_active_transactions tm))
unfolding top_up
top_up_lem draws tm fresh enough =
    let active = length (get_active_transactions tm) in
    elim (Bool-cases (ltb active max_concurrent_transactions_per_node)) [
      | inr full ↦ rw full refl
      | inl few ↦ rw few (
          begin_each-length (take (8 - active) draws) tm fresh
          ∙ ground (arith, length-take (8 - active) draws))
    ]
