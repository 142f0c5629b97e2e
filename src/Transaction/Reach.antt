-- ===== src/Transaction/Reach.antt =====
-- The methods of TransactionManager.cpp called in any order.
use hawk_txn.Common.{
  All, ◌≡◌, refl, Bool, true, false, Option, some, List, [], ◌∷◌, ◌==◌, Option-cases, ap, sym, ◌∙◌,
  inl, inr, ◌>>=◌, >>=-eq-some, some_inj, subst,
}
use hawk_txn.Common.Int.{ℤ}
use hawk_txn.Map
use hawk_txn.Map.{
  Map, find?-assign, find?-erase, contains-assign, contains-erase, contains-find?, find?-contains,
}
use hawk_txn.Types.{
  NodeId, TransactionId, ResourceId, LockMode, exclusive, SqlStatement, get_owner_node_id,
}
use hawk_txn.Resource
use hawk_txn.Resource.{
  ResourceManager, acquire_lock, release_all_locks, holds, get_resource_waiting_queue,
}
use hawk_txn.Resource.Exclusion.{Inv, init-Inv, compatible_exclusive}
use hawk_txn.Transaction.{
  Transaction, TransactionStatus, TransactionManager, Outcome, init, store, get_transaction,
  get_transaction_locks, get_next_transaction_id, new_transaction, begin_transaction,
  begin_controlled_transaction, add_tpcc_transaction, finish, abort_transaction, commit_transaction,
  request_local, request_remote, try_execute_next_sql_statement, take_grant, respond,
  handle_sql_response,
}
use hawk_txn.Transaction.Tried.{Tried, absent, stuck, over, bare, local, remote, tried}
use hawk_txn.Transaction.Locks.{Agreement, commit-Agreement, abort-Agreement}
use hawk_txn.Transaction.Answers.{try-Agreement, handle_sql_response-Agreement, begin-Agreement}

pub data Call : Type 0 where
  begins : List (ResourceId × Bool) → Call
  begins_controlled : List SqlStatement → Call
  -- a transaction without statements, under the next id
  begins_tpcc : Call
  tries : ℤ → TransactionId → Call
  responds : ℤ → TransactionId → Bool → ResourceId → Call
  aborts : ℤ → TransactionId → Call
  commits : ℤ → TransactionId → Call

unfoldable pub step : TransactionManager → Call → Option TransactionManager
step tm (begins draws) = some (begin_transaction draws tm).0
step tm (begins_controlled statements) = some (begin_controlled_transaction statements tm).0
step tm begins_tpcc =
    let (tm', t) = get_next_transaction_id tm in
    some (add_tpcc_transaction (new_transaction t tm.node_id []) tm')
step tm (tries d t) = do o ← try_execute_next_sql_statement d t tm; some o.manager
step tm (responds d t b r) = do o ← handle_sql_response d t b r tm; some o.manager
step tm (aborts d t) = some (abort_transaction d t tm).manager
step tm (commits d t) = some (commit_transaction d t tm).manager

unfoldable pub run : TransactionManager → List Call → Option TransactionManager
unfolding step
run tm [] = some tm
run tm (c ∷ cs) = do tm' ← step tm c; run tm' cs

-- A response is about a resource of another node.
abbrev pub IsAbroad : NodeId → Call → Type 0
IsAbroad n (responds d t b r) = (get_owner_node_id r == n) ≡ false
IsAbroad n c = Unit

step-Agreement :
    (tm tm' : TransactionManager) (c : Call)
    → Agreement tm
    → IsAbroad tm.node_id c
    → step tm c ≡ some tm'
    → Agreement tm'
unfolding step begin_transaction begin_controlled_transaction get_next_transaction_id
    add_tpcc_transaction
step-Agreement tm tm' (begins draws) a abroad h =
    subst Agreement (some_inj h) (begin-Agreement _ tm a)
step-Agreement tm tm' (begins_controlled statements) a abroad h =
    subst Agreement (some_inj h) (begin-Agreement statements tm a)
step-Agreement tm tm' begins_tpcc a abroad h =
    subst Agreement (some_inj h) (begin-Agreement [] tm a)
step-Agreement tm tm' (tries d t) a abroad h =
    let (o, ran, e) = >>=-eq-some (try_execute_next_sql_statement d t tm) _ h in
    subst Agreement (some_inj e) (try-Agreement d t tm o a ran)
step-Agreement tm tm' (responds d t b r) a abroad h =
    let (o, ran, e) = >>=-eq-some (handle_sql_response d t b r tm) _ h in
    subst Agreement (some_inj e) (handle_sql_response-Agreement d t b r tm o abroad a ran)
step-Agreement tm tm' (aborts d t) a abroad h =
    subst Agreement (some_inj h) (abort-Agreement d t tm a)
step-Agreement tm tm' (commits d t) a abroad h =
    subst Agreement (some_inj h) (commit-Agreement d t tm a)

finish-node :
    (status : TransactionStatus) (d : ℤ) (t : TransactionId) (tm : TransactionManager)
    → (finish status d t tm).manager.node_id ≡ tm.node_id
unfolding finish
finish-node status d t tm = elim (Option-cases (get_transaction tm t)) [
  | inl gone ↦ rw (gone, finish) refl
  | inr (trans, there) ↦ rw (there, finish) refl
]

pub try-node :
    (d : ℤ) (t : TransactionId) (tm : TransactionManager) (o : Outcome)
    → try_execute_next_sql_statement d t tm ≡ some o
    → o.manager.node_id ≡ tm.node_id
unfolding commit_transaction request_local request_remote
try-node d t tm o h = of_tried (try_execute_next_sql_statement d t tm) (tried d t tm) h
  where
    of_tried : (r : Option Outcome) → Tried d t tm r → r ≡ some o → o.manager.node_id ≡ tm.node_id
    of_tried r (absent e) h = ap (λ x. x.manager.node_id) (sym (some_inj h))
    of_tried r (stuck trans there e) h = ap (λ x. x.manager.node_id) (sym (some_inj h))
    of_tried r (over trans there ready e) h =
        ap (λ x. x.manager.node_id) (sym (some_inj h)) ∙ finish-node _ d t tm
    of_tried r (bare trans sql n e) h = absurd (cc h)
    of_tried r (local trans sql q n e own) h = ap (λ x. x.manager.node_id) (sym (some_inj h))
    of_tried r (remote trans sql q n e other) h = ap (λ x. x.manager.node_id) (sym (some_inj h))

respond-node :
    (d : ℤ) (t : TransactionId) (b : Bool) (r : ResourceId) (trans : Transaction)
    (tm : TransactionManager) (o : Outcome)
    → respond d t b r trans tm ≡ some o
    → o.manager.node_id ≡ tm.node_id
unfolding respond
respond-node d t true r trans tm o h =
    let (new, took, ran) = >>=-eq-some (take_grant r trans) _ h in
    try-node d t (store t new tm) o ran
respond-node d t false r trans tm o h = ap (λ x. x.manager.node_id) (sym (some_inj h))

handle_sql_response-node :
    (d : ℤ) (t : TransactionId) (b : Bool) (r : ResourceId) (tm : TransactionManager) (o : Outcome)
    → handle_sql_response d t b r tm ≡ some o
    → o.manager.node_id ≡ tm.node_id
unfolding handle_sql_response
handle_sql_response-node d t b r tm o h = elim (Option-cases (get_transaction tm t)) [
  | inl gone ↦ ap (λ x. x.manager.node_id) (sym (some_inj (rw (gone, handle_sql_response) at h)))
  | inr (trans, there) ↦ respond-node d t b r _ tm o (rw (there, handle_sql_response) at h)
]

step-node :
    (tm tm' : TransactionManager) (c : Call) → step tm c ≡ some tm' → tm'.node_id ≡ tm.node_id
unfolding step begin_transaction begin_controlled_transaction get_next_transaction_id
    add_tpcc_transaction abort_transaction commit_transaction
step-node tm tm' (begins draws) h = ap (λ x. x.node_id) (sym (some_inj h))
step-node tm tm' (begins_controlled statements) h = ap (λ x. x.node_id) (sym (some_inj h))
step-node tm tm' begins_tpcc h = ap (λ x. x.node_id) (sym (some_inj h))
step-node tm tm' (tries d t) h =
    let (o, ran, e) = >>=-eq-some (try_execute_next_sql_statement d t tm) _ h in
    ap (λ x. x.node_id) (sym (some_inj e)) ∙ try-node d t tm o ran
step-node tm tm' (responds d t b r) h =
    let (o, ran, e) = >>=-eq-some (handle_sql_response d t b r tm) _ h in
    ap (λ x. x.node_id) (sym (some_inj e)) ∙ handle_sql_response-node d t b r tm o ran
step-node tm tm' (aborts d t) h = ap (λ x. x.node_id) (sym (some_inj h)) ∙ finish-node _ d t tm
step-node tm tm' (commits d t) h = ap (λ x. x.node_id) (sym (some_inj h)) ∙ finish-node _ d t tm

run-Agreement :
    (n : NodeId) (tm tm' : TransactionManager) (cs : List Call)
    → Agreement tm
    → tm.node_id ≡ n
    → All (IsAbroad n) cs
    → run tm cs ≡ some tm'
    → Agreement tm' × (tm'.node_id ≡ n)
unfolding run
run-Agreement n tm tm' [] a home abroad h =
    (subst Agreement (some_inj h) a, ap (λ x. x.node_id) (sym (some_inj h)) ∙ home)
run-Agreement n tm tm' (c ∷ cs) a home abroad h =
    let (tm1, ran, rest) = >>=-eq-some (step tm c) _ h in
    run-Agreement n tm1 tm' cs
      (step-Agreement tm tm1 c a (subst (λ x. IsAbroad x c) (sym home) abroad.0) ran)
      (step-node tm tm1 c ran ∙ home) abroad.1 rest

pub init-Agreement : (n : NodeId) → Agreement (init n (Resource.init n))
unfolding init get_transaction_locks Resource.init
init-Agreement n = record {
  manager = ready-Inv (Resource.init n) (init-Inv n);
  node = refl;
  agree = λ t r own. refl;
  fresh = λ t le. refl;
}
  where
    ready-Inv : (rm : ResourceManager) → Inv rm → Inv (record rm { notify = true })
    ready-Inv rm v = record {
      unique = v.unique;
      compat = v.compat;
      local_holders = v.local_holders;
      local_queues = v.local_queues;
    }

-- However the methods are called on a new manager, if every response is about a resource of another
-- node, a transaction's own record of a lock on a resource of the node is the lock manager's, and a
-- transaction that is not active has no such lock.
pub locks_agree :
    (n : NodeId) (cs : List Call) (tm : TransactionManager) (t : TransactionId) (r : ResourceId)
    → All (IsAbroad n) cs
    → run (init n (Resource.init n)) cs ≡ some tm
    → get_owner_node_id r ≡ n
    → Map.find? r (get_transaction_locks tm t) ≡ holds tm.resource_manager t r
unfolding init
locks_agree n cs tm t r abroad h own =
    let (a, home) = run-Agreement n _ tm cs (init-Agreement n) refl abroad h in
    a.agree t r (own ∙ sym home)

-- The holder of an exclusive lock, by the transactions' own records, is alone.
pub exclusive_alone :
    (tm : TransactionManager) (t u : TransactionId) (r : ResourceId) (mode : LockMode)
    → Agreement tm
    → get_owner_node_id r ≡ tm.node_id
    → Map.find? r (get_transaction_locks tm t) ≡ some exclusive
    → Map.find? r (get_transaction_locks tm u) ≡ some mode
    → t ≡ u
exclusive_alone tm t u r mode a own ht hu =
    compatible_exclusive _ t u mode (a.manager.compat r) (sym (a.agree t r own) ∙ ht)
      (sym (a.agree u r own) ∙ hu)

-- However the methods are called on a new manager, if every response is about a resource of
-- another node, no two transactions have a lock on the same resource of the node by their own
-- records, if one of the locks is exclusive.
pub no_conflicting_locks :
    (n : NodeId) (cs : List Call) (tm : TransactionManager) (t u : TransactionId) (r : ResourceId)
    (mode : LockMode)
    → All (IsAbroad n) cs
    → run (init n (Resource.init n)) cs ≡ some tm
    → get_owner_node_id r ≡ n
    → Map.find? r (get_transaction_locks tm t) ≡ some exclusive
    → Map.find? r (get_transaction_locks tm u) ≡ some mode
    → t ≡ u
unfolding init
no_conflicting_locks n cs tm t u r mode abroad h own ht hu =
    let (a, home) = run-Agreement n _ tm cs (init-Agreement n) refl abroad h in
    exclusive_alone tm t u r mode a (own ∙ sym home) ht hu
