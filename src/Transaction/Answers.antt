-- ===== src/Transaction/Answers.antt =====
-- The invariant of Locks under tryExecuteNextSQLStatement, handleSQLResponse and the methods that begin
-- a transaction (TransactionManager.cpp).
use hawk_txn.Common.{
  ◌+◌, ◌≡◌, refl, Bool, true, false, Option, some, none, List, ◌==◌, arith, ==_refl, Bool-cases,
  Option-cases, ap, sym, ◌∙◌, inl, inr, >>=-eq-some, some_inj, subst, get_elem?,
}
use hawk_txn.Common.Int.{ℤ}
use hawk_txn.Map
use hawk_txn.Map.{
  Map, find?-assign, find?-erase, contains-assign, contains-erase, contains-find?, find?-contains,
}
use hawk_txn.Types.{TransactionId, ResourceId, SqlStatement, get_owner_node_id}
use hawk_txn.Transaction.{
  Transaction, TransactionManager, Outcome, store, get_transaction, get_transaction_locks,
  new_transaction, try_execute_next_sql_statement, take_grant, answered, respond,
  handle_sql_response,
}
use hawk_txn.Transaction.Tried.{Tried, absent, stuck, over, bare, local, remote, tried}
use hawk_txn.Transaction.Locks.{
  Agreement, locks_of, store-Agreement, request_local-Agreement, request_remote-Agreement,
  commit-Agreement, own_record,
}

pub try-Agreement :
    (d : ℤ) (t : TransactionId) (tm : TransactionManager) (o : Outcome)
    → Agreement tm
    → try_execute_next_sql_statement d t tm ≡ some o
    → Agreement o.manager
try-Agreement d t tm o a h = of_tried (try_execute_next_sql_statement d t tm) (tried d t tm) h
  where
    of_tried : (r : Option Outcome) → Tried d t tm r → r ≡ some o → Agreement o.manager
    of_tried r (absent e) h = subst (λ x. Agreement x.manager) (some_inj h) a
    of_tried r (stuck trans there e) h = subst (λ x. Agreement x.manager) (some_inj h) a
    of_tried r (over trans there ready e) h =
        subst (λ x. Agreement x.manager) (some_inj h) (commit-Agreement d t tm a)
    of_tried r (bare trans sql n e) h = absurd (cc h)
    of_tried r (local trans sql q n e own) h =
        subst (λ x. Agreement x.manager) (some_inj h)
          (request_local-Agreement t trans q sql.lock_mode tm a n.there)
    of_tried r (remote trans sql q n e other) h =
        subst (λ x. Agreement x.manager) (some_inj h)
          (request_remote-Agreement t trans q sql.lock_mode tm a n.there)

-- A response about a resource of another node.
module _ (d : ℤ) (t : TransactionId) (r : ResourceId) (tm : TransactionManager)
    (trans : Transaction) (a : Agreement tm) (there : get_transaction tm t ≡ some trans)
    (away : (get_owner_node_id r == tm.node_id) ≡ false) where
  elsewhere : (q : ResourceId) → get_owner_node_id q ≡ tm.node_id → (r == q) ≡ false
  elsewhere q own = elim (Bool-cases (r == q)) [
    | inl same ↦
        let e : r ≡ q = ground arith in
        absurd (
          cc (
            subst (λ x. (get_owner_node_id x == tm.node_id) ≡ false) e away,
            ap (λ n. n == tm.node_id) own,
            ==_refl tm.node_id,
          ))
    | inr other ↦ other
  ]

  take_grant-Agreement :
      (b : Bool) (new : Transaction)
      → take_grant r (answered b trans) ≡ some new
      → Agreement (store t new tm)
  unfolding take_grant
  take_grant-Agreement b new h =
      let (sql, next, taken) =
        >>=-eq-some (get_elem? trans.statements trans.current_sql_index) _ h in
      store-Agreement tm t trans new tm.resource_manager a there a.manager a.node
        (λ q own.
          ap (λ x. Map.find? q x.acquired_locks) (sym (some_inj taken))
          ∙ find?-assign r q sql.lock_mode trans.acquired_locks
          ∙ rw (elsewhere q own) (own_record tm t trans q a there own))
        (λ u q other. refl)

  respond-Agreement :
      (b : Bool) (o : Outcome)
      → respond d t b r (answered b trans) tm ≡ some o
      → Agreement o.manager
  unfolding respond
  respond-Agreement true o h =
      let (new, took, ran) = >>=-eq-some (take_grant r (answered true trans)) _ h in
      try-Agreement d t (store t new tm) o (take_grant-Agreement true new took) ran
  respond-Agreement false o h =
      subst (λ x. Agreement x.manager) (some_inj h)
        (store-Agreement tm t trans _ tm.resource_manager a there a.manager a.node
          (λ q own. own_record tm t trans q a there own) (λ u q other. refl))

pub handle_sql_response-Agreement :
    (d : ℤ) (t : TransactionId) (b : Bool) (r : ResourceId) (tm : TransactionManager) (o : Outcome)
    → (get_owner_node_id r == tm.node_id) ≡ false
    → Agreement tm
    → handle_sql_response d t b r tm ≡ some o
    → Agreement o.manager
unfolding handle_sql_response
handle_sql_response-Agreement d t b r tm o away a h = elim (Option-cases (get_transaction tm t)) [
  | inl none_there ↦
      subst (λ x. Agreement x.manager) (some_inj (rw (none_there, handle_sql_response) at h)) a
  | inr (trans, there) ↦
      respond-Agreement d t r tm trans a there away b o (rw (there, handle_sql_response) at h)
]

pub begin-Agreement :
    (statements : List SqlStatement) (tm : TransactionManager)
    → Agreement tm
    → Agreement (
        store tm.next_transaction_id
          (new_transaction tm.next_transaction_id tm.node_id statements)
          (record tm { next_transaction_id = tm.next_transaction_id + 1 }))
unfolding get_transaction_locks
begin-Agreement statements tm a =
    let t = tm.next_transaction_id in
    let trans = new_transaction t tm.node_id statements in
    record {
      manager = a.manager;
      node = a.node;
      agree = λ u r own.
          ap (λ o. Map.find? r (locks_of o)) (find?-assign t u trans tm.active_transactions)
          ∙ elim (Bool-cases (t == u)) [
            | inr other ↦ rw other (a.agree u r own)
            | inl same ↦
                let gone : Map.find? u tm.active_transactions ≡ none =
                  find?-contains u tm.active_transactions (a.fresh u (ground arith)) in
                rw same (ap (λ o. Map.find? r (locks_of o)) (sym gone) ∙ a.agree u r own)
          ];
      fresh = λ u le. contains-assign t u trans tm.active_transactions ∙ ground (arith, a.fresh u);
    }
