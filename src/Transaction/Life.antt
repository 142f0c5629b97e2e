-- ===== src/Transaction/Life.antt =====
-- The end of a transaction, and those that never come to it, under TransactionManager.cpp.
use hawk_txn.Common.{
  All, ◌+◌, ◌<◌, ◌≡◌, refl, Bool, true, false, Option, some, none, List, [], ◌∷◌, ◌==◌,
  if◌then◌else◌, arith, ==_refl, ==_of_ne, Bool-cases, Option-cases, ap, sym, ◌∙◌, inl, inr,
  >>=-eq-some, some_inj, subst,
}
use hawk_txn.Common.Int.{ℤ}
use hawk_txn.Map.{find?-assign, find?-erase, IsUnique}
use hawk_txn.Types.{TransactionId, ResourceId}
use hawk_txn.Resource.{holds, get_resource_waiting_queue}
use hawk_txn.Resource.Release.{release_all_locks_lem}
use hawk_txn.Transaction.{
  Transaction, TransactionStatus, aborted, committed, TransactionManager, Outcome, store,
  get_transaction, get_next_transaction_id, begin_transaction, begin_controlled_transaction,
  add_tpcc_transaction, finish, abort_transaction, commit_transaction, request_local,
  request_remote, is_blocked, respond, try_execute_next_sql_statement, take_grant,
  handle_sql_response,
}
use hawk_txn.Transaction.Tried.{Tried, absent, stuck, over, bare, local, remote, tried}
use hawk_txn.Transaction.Reach.{
  Call, begins, begins_controlled, begins_tpcc, tries, responds, aborts, commits, step, run,
}

-- Of a transaction that has been ended: it is not active and has no locks, and its object says how
-- it ended; all other transactions and their locks are as they were, and so are the queues.
abbrev pub Ended :
    TransactionStatus → TransactionId → Transaction → TransactionManager → Outcome → Type 0
Ended status t trans tm o =
    (get_transaction o.manager t ≡ none)
    × (o.ended ≡ record trans { status = status } ∷ [])
    × ((u : TransactionId) → (t == u) ≡ false → get_transaction o.manager u ≡ get_transaction tm u)
    × ((u : TransactionId) (r : ResourceId)
        → holds o.manager.resource_manager u r
          ≡ (if t == u then none else holds tm.resource_manager u r))
    × ((r : ResourceId)
        → get_resource_waiting_queue o.manager.resource_manager r
          ≡ get_resource_waiting_queue tm.resource_manager r)

finish-Ended :
    (status : TransactionStatus) (d : ℤ) (t : TransactionId) (trans : Transaction)
    (tm : TransactionManager)
    → IsUnique tm.resource_manager.resource_holders
    → get_transaction tm t ≡ some trans
    → Ended status t trans tm (finish status d t tm)
unfolding finish
finish-Ended status d t trans tm q there =
    rw (there, finish)
      (
        find?-erase t t tm.active_transactions ∙ rw (==_refl t),
        refl,
        λ u other. find?-erase t u tm.active_transactions ∙ rw other,
        λ u r. (release_all_locks_lem tm.resource_manager t u r q).0,
        λ r. (release_all_locks_lem tm.resource_manager t t r q).1,
      )

-- If no resource stands twice in the map of holders, to abort or to commit an active transaction
-- takes it out of the map of transactions with all its locks on the node, leaves its status on
-- the object, and changes neither the other transactions and their locks nor any queue.
pub abort_commit_lem :
    (d : ℤ) (t : TransactionId) (trans : Transaction) (tm : TransactionManager)
    → IsUnique tm.resource_manager.resource_holders
    → get_transaction tm t ≡ some trans
    → Ended aborted t trans tm (abort_transaction d t tm)
      × Ended committed t trans tm (commit_transaction d t tm)
unfolding abort_transaction commit_transaction
abort_commit_lem d t trans tm q there =
    (finish-Ended aborted d t trans tm q there, finish-Ended committed d t trans tm q there)

-- An id that was given out is not used again.
abbrev pub Stays : TransactionId → Transaction → TransactionManager → Type 0
Stays t trans tm = (get_transaction tm t ≡ some trans) × (t < tm.next_transaction_id)

-- The calls that answer or end the transaction.
abbrev pub Touches : TransactionId → Call → Type 0
Touches t (responds d u b r) = u ≡ t
Touches t (aborts d u) = u ≡ t
Touches t (commits d u) = u ≡ t
Touches t c = ⊥

store-Stays :
    (t u : TransactionId) (trans new : Transaction) (tm : TransactionManager)
    → (u == t) ≡ false
    → Stays t trans tm
    → Stays t trans (store u new tm)
store-Stays t u trans new tm other s =
    (find?-assign u t new tm.active_transactions ∙ rw other s.0, s.1)

finish-Stays :
    (status : TransactionStatus) (d : ℤ) (t u : TransactionId) (trans : Transaction)
    (tm : TransactionManager)
    → (u == t) ≡ false
    → Stays t trans tm
    → Stays t trans (finish status d u tm).manager
unfolding finish
finish-Stays status d t u trans tm other s = elim (Option-cases (get_transaction tm u)) [
  | inl gone ↦ rw (gone, finish) s
  | inr (x, there) ↦ rw (there, finish) (find?-erase u t tm.active_transactions ∙ rw other s.0, s.1)
]

pub try-Stays :
    (d : ℤ) (t u : TransactionId) (trans : Transaction) (tm : TransactionManager) (o : Outcome)
    → is_blocked trans.status ≡ true
    → Stays t trans tm
    → try_execute_next_sql_statement d u tm ≡ some o
    → Stays t trans o.manager
unfolding commit_transaction request_local request_remote
try-Stays d t u trans tm o b s h = of_tried (try_execute_next_sql_statement d u tm) (tried d u tm) h
  where
    apart :
        (x : Transaction)
        → get_transaction tm u ≡ some x
        → is_blocked x.status ≡ false
        → (u == t) ≡ false
    apart x there ready = elim (Bool-cases (u == t)) [
      | inr other ↦ other
      | inl same ↦
          let e : u ≡ t = ground arith in
          let one : x ≡ trans = some_inj (sym there ∙ ap (λ i. get_transaction tm i) e ∙ s.0) in
          absurd (cc (ap (λ y. is_blocked y.status) one, ready, b))
    ]

    of_tried : (r : Option Outcome) → Tried d u tm r → r ≡ some o → Stays t trans o.manager
    of_tried r (absent e) h = subst (λ x. Stays t trans x.manager) (some_inj h) s
    of_tried r (stuck x there e) h = subst (λ x. Stays t trans x.manager) (some_inj h) s
    of_tried r (over x there ready e) h =
        subst (λ x. Stays t trans x.manager) (some_inj h)
          (finish-Stays _ d t u trans tm (apart x there ready) s)
    of_tried r (bare x sql n e) h = absurd (cc h)
    of_tried r (local x sql q n e own) h =
        subst (λ x. Stays t trans x.manager) (some_inj h)
          (find?-assign u t _ tm.active_transactions ∙ rw (apart x n.there n.ready) s.0, s.1)
    of_tried r (remote x sql q n e other) h =
        subst (λ x. Stays t trans x.manager) (some_inj h)
          (find?-assign u t _ tm.active_transactions ∙ rw (apart x n.there n.ready) s.0, s.1)

respond-Stays :
    (d : ℤ) (t u : TransactionId) (b : Bool) (r : ResourceId) (trans x : Transaction)
    (tm : TransactionManager) (o : Outcome)
    → is_blocked trans.status ≡ true
    → (u == t) ≡ false
    → Stays t trans tm
    → respond d u b r x tm ≡ some o
    → Stays t trans o.manager
unfolding respond
respond-Stays d t u true r trans x tm o b other s h =
    let (new, took, ran) = >>=-eq-some (take_grant r x) _ h in
    try-Stays d t u trans (store u new tm) o b (store-Stays t u trans new tm other s) ran
respond-Stays d t u false r trans x tm o b other s h =
    subst (λ y. Stays t trans y.manager) (some_inj h) (store-Stays t u trans _ tm other s)

handle_sql_response-Stays :
    (d : ℤ) (t u : TransactionId) (b : Bool) (r : ResourceId) (trans : Transaction)
    (tm : TransactionManager) (o : Outcome)
    → is_blocked trans.status ≡ true
    → (u == t) ≡ false
    → Stays t trans tm
    → handle_sql_response d u b r tm ≡ some o
    → Stays t trans o.manager
unfolding handle_sql_response
handle_sql_response-Stays d t u b r trans tm o k other s h =
    elim (Option-cases (get_transaction tm u)) [
      | inl gone ↦
          subst (λ y. Stays t trans y.manager) (some_inj (rw (gone, handle_sql_response) at h)) s
      | inr (x, there) ↦
          respond-Stays d t u b r trans _ tm o k other s (rw (there, handle_sql_response) at h)
    ]

pub begin-Stays :
    (t : TransactionId) (trans new : Transaction) (tm : TransactionManager)
    → Stays t trans tm
    → Stays t trans (
        store tm.next_transaction_id new
          (record tm { next_transaction_id = tm.next_transaction_id + 1 }))
begin-Stays t trans new tm s =
    let other : (tm.next_transaction_id == t) ≡ false = ground (arith, s.1) in
    (
      find?-assign tm.next_transaction_id t new tm.active_transactions ∙ rw other s.0,
      omega (arith, s.1),
    )

step-Stays :
    (t : TransactionId) (trans : Transaction) (tm tm' : TransactionManager) (c : Call)
    → is_blocked trans.status ≡ true
    → ¬ Touches t c
    → Stays t trans tm
    → step tm c ≡ some tm'
    → Stays t trans tm'
unfolding step begin_transaction begin_controlled_transaction get_next_transaction_id
    add_tpcc_transaction abort_transaction commit_transaction
step-Stays t trans tm tm' (begins draws) k apart s h =
    subst (Stays t trans) (some_inj h) (begin-Stays t trans _ tm s)
step-Stays t trans tm tm' (begins_controlled statements) k apart s h =
    subst (Stays t trans) (some_inj h) (begin-Stays t trans _ tm s)
step-Stays t trans tm tm' begins_tpcc k apart s h =
    subst (Stays t trans) (some_inj h) (begin-Stays t trans _ tm s)
step-Stays t trans tm tm' (tries d u) k apart s h =
    let (o, ran, e) = >>=-eq-some (try_execute_next_sql_statement d u tm) _ h in
    subst (Stays t trans) (some_inj e) (try-Stays d t u trans tm o k s ran)
step-Stays t trans tm tm' (responds d u b r) k apart s h =
    let (o, ran, e) = >>=-eq-some (handle_sql_response d u b r tm) _ h in
    subst (Stays t trans) (some_inj e)
      (handle_sql_response-Stays d t u b r trans tm o k (==_of_ne u t apart) s ran)
step-Stays t trans tm tm' (aborts d u) k apart s h =
    subst (Stays t trans) (some_inj h) (finish-Stays _ d t u trans tm (==_of_ne u t apart) s)
step-Stays t trans tm tm' (commits d u) k apart s h =
    subst (Stays t trans) (some_inj h) (finish-Stays _ d t u trans tm (==_of_ne u t apart) s)

-- A blocked transaction, whose id was given out, stays as it is, whatever is called for others, what
-- is released meanwhile, and however often it is tried, until it gets a response or is ended.
pub blocked_stays :
    (t : TransactionId) (trans : Transaction) (tm tm' : TransactionManager) (cs : List Call)
    → get_transaction tm t ≡ some trans
    → t < tm.next_transaction_id
    → is_blocked trans.status ≡ true
    → All (λ c. ¬ Touches t c) cs
    → run tm cs ≡ some tm'
    → get_transaction tm' t ≡ some trans
unfolding run
blocked_stays t trans tm tm' [] there given k apart h =
    ap (λ x. get_transaction x t) (sym (some_inj h)) ∙ there
blocked_stays t trans tm tm' (c ∷ cs) there given k apart h =
    let (tm1, ran, rest) = >>=-eq-some (step tm c) _ h in
    let s = step-Stays t trans tm tm1 c k apart.0 (there, given) ran in
    blocked_stays t trans tm1 tm' cs s.0 s.1 k apart.1 rest
