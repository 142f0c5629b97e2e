-- ===== src/Transaction/Ids.antt =====
-- The ids that TransactionManager.cpp gives out.
use hawk_txn.Common.{
  ℕ, suc, ◌+◌, ◌≡◌, refl, Bool, true, false, Option, some, List, [], ◌∷◌, arith, Option-cases, ap,
  sym, ◌∙◌, inl, inr, >>=-eq-some, some_inj,
}
use hawk_txn.Common.Int.{ℤ}
use hawk_txn.Types.{TransactionId, ResourceId}
use hawk_txn.Transaction.{
  Transaction, TransactionStatus, TransactionManager, Outcome, store, get_transaction,
  get_next_transaction_id, begin_transaction, begin_controlled_transaction, add_tpcc_transaction,
  finish, abort_transaction, commit_transaction, request_local, request_remote, respond,
  try_execute_next_sql_statement, take_grant, handle_sql_response,
}
use hawk_txn.Transaction.Tried.{Tried, absent, stuck, over, bare, local, remote, tried}
use hawk_txn.Transaction.Reach.{
  Call, begins, begins_controlled, begins_tpcc, tries, responds, aborts, commits, step, run,
}

-- The calls that give out an id.
abbrev pub count_begins : List Call → ℕ
count_begins [] = 0
count_begins (begins draws ∷ cs) = suc (count_begins cs)
count_begins (begins_controlled statements ∷ cs) = suc (count_begins cs)
count_begins (begins_tpcc ∷ cs) = suc (count_begins cs)
count_begins (tries d t ∷ cs) = count_begins cs
count_begins (responds d t b r ∷ cs) = count_begins cs
count_begins (aborts d t ∷ cs) = count_begins cs
count_begins (commits d t ∷ cs) = count_begins cs

finish-next :
    (status : TransactionStatus) (d : ℤ) (t : TransactionId) (tm : TransactionManager)
    → (finish status d t tm).manager.next_transaction_id ≡ tm.next_transaction_id
unfolding finish
finish-next status d t tm = elim (Option-cases (get_transaction tm t)) [
  | inl gone ↦ rw (gone, finish) refl
  | inr (trans, there) ↦ rw (there, finish) refl
]

try-next :
    (d : ℤ) (t : TransactionId) (tm : TransactionManager) (o : Outcome)
    → try_execute_next_sql_statement d t tm ≡ some o
    → o.manager.next_transaction_id ≡ tm.next_transaction_id
unfolding commit_transaction request_local request_remote
try-next d t tm o h = of_tried (try_execute_next_sql_statement d t tm) (tried d t tm) h
  where
    of_tried :
        (r : Option Outcome)
        → Tried d t tm r
        → r ≡ some o
        → o.manager.next_transaction_id ≡ tm.next_transaction_id
    of_tried r (absent e) h = ap (λ x. x.manager.next_transaction_id) (sym (some_inj h))
    of_tried r (stuck trans there e) h = ap (λ x. x.manager.next_transaction_id) (sym (some_inj h))
    of_tried r (over trans there ready e) h =
        ap (λ x. x.manager.next_transaction_id) (sym (some_inj h)) ∙ finish-next _ d t tm
    of_tried r (bare trans sql n e) h = absurd (cc h)
    of_tried r (local trans sql q n e own) h =
        ap (λ x. x.manager.next_transaction_id) (sym (some_inj h))
    of_tried r (remote trans sql q n e other) h =
        ap (λ x. x.manager.next_transaction_id) (sym (some_inj h))

respond-next :
    (d : ℤ) (t : TransactionId) (b : Bool) (r : ResourceId) (trans : Transaction)
    (tm : TransactionManager) (o : Outcome)
    → respond d t b r trans tm ≡ some o
    → o.manager.next_transaction_id ≡ tm.next_transaction_id
unfolding respond
respond-next d t true r trans tm o h =
    let (new, took, ran) = >>=-eq-some (take_grant r trans) _ h in
    try-next d t (store t new tm) o ran
respond-next d t false r trans tm o h = ap (λ x. x.manager.next_transaction_id) (sym (some_inj h))

handle_sql_response-next :
    (d : ℤ) (t : TransactionId) (b : Bool) (r : ResourceId) (tm : TransactionManager) (o : Outcome)
    → handle_sql_response d t b r tm ≡ some o
    → o.manager.next_transaction_id ≡ tm.next_transaction_id
unfolding handle_sql_response
handle_sql_response-next d t b r tm o h = elim (Option-cases (get_transaction tm t)) [
  | inl gone ↦
      ap (λ x. x.manager.next_transaction_id) (sym (some_inj (rw (gone, handle_sql_response) at h)))
  | inr (trans, there) ↦ respond-next d t b r _ tm o (rw (there, handle_sql_response) at h)
]

-- The ids on a node count up, one for each transaction begun, and do not depend on the node: two
-- managers that start with the same next id and begin as many transactions have the same next id.
pub ids_count_up :
    (tm tm' : TransactionManager) (cs : List Call)
    → run tm cs ≡ some tm'
    → tm'.next_transaction_id ≡ tm.next_transaction_id + count_begins cs
unfolding run step begin_transaction begin_controlled_transaction get_next_transaction_id
    add_tpcc_transaction abort_transaction commit_transaction
ids_count_up tm tm' [] h = omega (arith, ap (λ x. x.next_transaction_id) (some_inj h))
ids_count_up tm tm' (begins draws ∷ cs) h = omega (arith, ids_count_up _ tm' cs h)
ids_count_up tm tm' (begins_controlled statements ∷ cs) h = omega (arith, ids_count_up _ tm' cs h)
ids_count_up tm tm' (begins_tpcc ∷ cs) h = omega (arith, ids_count_up _ tm' cs h)
ids_count_up tm tm' (tries d t ∷ cs) h =
    let (tm1, ran, rest) = >>=-eq-some (step tm (tries d t)) _ h in
    let (o, tried_it, e) = >>=-eq-some (try_execute_next_sql_statement d t tm) _ ran in
    omega (
      arith,
      ids_count_up tm1 tm' cs rest,
      ap (λ x. x.next_transaction_id) (some_inj e),
      try-next d t tm o tried_it,
    )
ids_count_up tm tm' (responds d t b r ∷ cs) h =
    let (tm1, ran, rest) = >>=-eq-some (step tm (responds d t b r)) _ h in
    let (o, answered_it, e) = >>=-eq-some (handle_sql_response d t b r tm) _ ran in
    omega (
      arith,
      ids_count_up tm1 tm' cs rest,
      ap (λ x. x.next_transaction_id) (some_inj e),
      handle_sql_response-next d t b r tm o answered_it,
    )
ids_count_up tm tm' (aborts d t ∷ cs) h =
    omega (arith, ids_count_up _ tm' cs h, finish-next _ d t tm)
ids_count_up tm tm' (commits d t ∷ cs) h =
    omega (arith, ids_count_up _ tm' cs h, finish-next _ d t tm)
