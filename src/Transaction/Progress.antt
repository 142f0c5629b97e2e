-- ===== src/Transaction/Progress.antt =====
-- A transaction that meets no conflict, polled by transactionPollingLoop (TransactionManager.cpp).
use hawk_txn.Common.{
  ℕ, zero, suc, ◌+◌, ◌≡◌, refl, ◌∙◌, ap, subst, true, false, not, some, none, List, [], ◌∷◌, ◌==◌,
  if◌then◌else◌, arith, ==_refl, All, get_elem?, head?, length,
}
use hawk_txn.Common.Int.{ℤ}
use hawk_txn.Map
use hawk_txn.Map.{find?-assign, find?-erase, get_or-assign}
use hawk_txn.Types.{TransactionId, ResourceId, LockMode, SqlStatement, get_owner_node_id}
use hawk_txn.Resource.{
  ResourceManager, acquire_lock, check_conflict, holds, get_resource_holders,
  get_resource_waiting_queue,
}
use hawk_txn.Resource.Grant.{grantable, grantable_to, check_conflict-grantable}
use hawk_txn.Transaction.{
  Transaction, TransactionManager, Outcome, committed, store, get_transaction, after_request,
  commit_transaction, finish, request_local, is_blocked, try_execute_next_sql_statement,
}
use hawk_txn.Transaction.Tried.{Next}
use hawk_txn.Transaction.Reach.{Call, tries, step, run}

-- The statements from an index on.
abbrev pub drop {ℓ} : {A : Type ℓ} → ℕ → List A → List A
drop zero xs = xs
drop (suc i) [] = []
drop (suc i) (x ∷ xs) = drop i xs

drop-cons {ℓ} :
    {A : Type ℓ} (i : ℕ) (xs : List A) (x : A) (rest : List A)
    → drop i xs ≡ x ∷ rest
    → (get_elem? xs i ≡ some x) × (drop (suc i) xs ≡ rest)
drop-cons zero [] x rest h = absurd (cc h)
drop-cons zero (y ∷ xs) x rest h = (cc h, cc h)
drop-cons (suc i) [] x rest h = absurd (cc h)
drop-cons (suc i) (y ∷ xs) x rest h = drop-cons i xs x rest h

drop-nil {ℓ} : {A : Type ℓ} (i : ℕ) (xs : List A) → drop i xs ≡ [] → get_elem? xs i ≡ none
drop-nil zero [] h = refl
drop-nil zero (y ∷ xs) h = absurd (cc h)
drop-nil (suc i) [] h = refl
drop-nil (suc i) (y ∷ xs) h = drop-nil i xs h

-- The manager after a request that is granted.
abbrev with_lock : ResourceManager → TransactionId → ResourceId → LockMode → ResourceManager
with_lock rm t r mode = record rm {
  resource_holders =
      Map.assign r (Map.assign t mode (get_resource_holders rm r)) rm.resource_holders;
}

acquire_lock-free :
    (rm : ResourceManager) (t : TransactionId) (r : ResourceId) (mode : LockMode)
    → get_owner_node_id r ≡ rm.node_id
    → grantable rm r mode ≡ true
    → acquire_lock rm t r mode ≡ (with_lock rm t r mode, true)
unfolding acquire_lock
acquire_lock-free rm t r mode own free =
    let here : (get_owner_node_id r == rm.node_id) ≡ true = ground (arith, own) in
    let quiet : check_conflict rm r mode ≡ false =
      check_conflict-grantable rm r mode ∙ ap not free in
    rw (here, quiet) refl

with_lock-grantable :
    (rm : ResourceManager) (t : TransactionId) (r q : ResourceId) (mode m : LockMode)
    → (r == q) ≡ false
    → grantable (with_lock rm t r mode) q m ≡ grantable rm q m
with_lock-grantable rm t r q mode m apart =
    ap (λ hs. grantable_to m hs (get_resource_waiting_queue rm q))
      (get_or-assign r q [] (Map.assign t mode (get_resource_holders rm r)) rm.resource_holders
        ∙ rw apart refl)

with_lock-holds :
    (rm : ResourceManager) (t u : TransactionId) (r q : ResourceId) (mode : LockMode)
    → holds (with_lock rm t r mode) u q
      ≡ (if r == q then (if t == u then some mode else holds rm u q) else holds rm u q)
with_lock-holds rm t u r q mode = ground (
  arith,
  get_or-assign r q [] (Map.assign t mode (get_resource_holders rm r)) rm.resource_holders,
  find?-assign t u mode (get_resource_holders rm r),
)

-- The resource of a statement is another one than `r`.
abbrev pub IsApart : ResourceId → SqlStatement → Type 0
IsApart r sql = (q : ResourceId) → head? sql.resources ≡ some q → (r == q) ≡ false

-- Statements that can be carried out one after the other: each is on a resource of the node, on
-- which its lock can be granted, and no two on the same.
abbrev pub IsClear : ResourceManager → List SqlStatement → Type 0
IsClear rm [] = Unit
IsClear rm (sql ∷ rest) =
    ((r : ResourceId) × (head? sql.resources ≡ some r)
      × (get_owner_node_id r ≡ rm.node_id)
      × (grantable rm r sql.lock_mode ≡ true)
      × All (IsApart r) rest)
    × IsClear rm rest

-- The transaction has the lock of a statement.
abbrev pub Has : ResourceManager → TransactionId → SqlStatement → Type 0
Has rm t sql =
    (r : ResourceId) × (head? sql.resources ≡ some r) × (holds rm t r ≡ some sql.lock_mode)

with_lock-IsClear :
    (rm : ResourceManager) (t : TransactionId) (r : ResourceId) (mode : LockMode)
    (rest : List SqlStatement)
    → All (IsApart r) rest
    → IsClear rm rest
    → IsClear (with_lock rm t r mode) rest
with_lock-IsClear rm t r mode [] apart clear = tt
with_lock-IsClear rm t r mode (sql ∷ rest) apart ((q, head, own, free, others), clear) = (
  (q, head, own, with_lock-grantable rm t r q mode sql.lock_mode (apart.0 q head) ∙ free, others),
  with_lock-IsClear rm t r mode rest apart.1 clear,
)

abbrev moved :
    TransactionManager → TransactionId → Transaction → ResourceId → LockMode → TransactionManager
moved tm t trans r mode =
    store t (after_request trans r mode true)
      (record tm { resource_manager = with_lock tm.resource_manager t r mode })

try_free :
    (d : ℤ) (t : TransactionId) (tm : TransactionManager) (trans : Transaction) (sql : SqlStatement)
    (r : ResourceId)
    → Next tm t trans sql
    → head? sql.resources ≡ some r
    → get_owner_node_id r ≡ tm.resource_manager.node_id
    → tm.resource_manager.node_id ≡ tm.node_id
    → grantable tm.resource_manager r sql.lock_mode ≡ true
    → step tm (tries d t) ≡ some (moved tm t trans r sql.lock_mode)
unfolding step try_execute_next_sql_statement request_local
try_free d t tm trans sql r n head own home free =
    let here : (get_owner_node_id r == tm.node_id) ≡ true = ground (arith, own, home) in
    rw (n.there, try_execute_next_sql_statement)
      (rw n.ready (
        rw n.next (
          rw head (
            rw here (rw (acquire_lock-free tm.resource_manager t r sql.lock_mode own free) refl)))))

abbrev pub polls : ℕ → ℤ → TransactionId → List Call
polls zero d t = []
polls (suc n) d t = tries d t ∷ polls n d t

-- The transaction at the end of its statements, with their locks.
record Through (d : ℤ) (t : TransactionId) (rest : List SqlStatement) (tm : TransactionManager)
    : Type 0 where
  manager : TransactionManager
  trans : Transaction
  ran : run tm (polls (length rest) d t) ≡ some manager
  there : get_transaction manager t ≡ some trans
  ready : is_blocked trans.status ≡ false
  over : get_elem? trans.statements trans.current_sql_index ≡ none
  has : All (Has manager.resource_manager t) rest
  kept :
      (q : ResourceId) (m : LockMode)
      → holds tm.resource_manager t q ≡ some m
      → All (IsApart q) rest
      → holds manager.resource_manager t q ≡ some m
  others :
      (u : TransactionId) (q : ResourceId)
      → (t == u) ≡ false
      → holds manager.resource_manager u q ≡ holds tm.resource_manager u q

through :
    (d : ℤ) (t : TransactionId) (rest : List SqlStatement) (trans : Transaction)
    (tm : TransactionManager)
    → get_transaction tm t ≡ some trans
    → is_blocked trans.status ≡ false
    → drop trans.current_sql_index trans.statements ≡ rest
    → tm.resource_manager.node_id ≡ tm.node_id
    → IsClear tm.resource_manager rest
    → Through d t rest tm
unfolding run
through d t [] trans tm there ready left home clear = record {
  manager = tm;
  trans = trans;
  ran = refl;
  there = there;
  ready = ready;
  over = drop-nil trans.current_sql_index trans.statements left;
  has = tt;
  kept = λ q m h apart. h;
  others = λ u q other. refl;
}
through d t (sql ∷ rest) trans tm there ready left home ((r, head, own, free, apart), clear) =
    let (next, more) = drop-cons trans.current_sql_index trans.statements sql rest left in
    let n : Next tm t trans sql = record { there = there; ready = ready; next = next } in
    let rm = tm.resource_manager in
    let one_on : suc trans.current_sql_index ≡ trans.current_sql_index + 1 = omega arith in
    let after =
      through d t rest (after_request trans r sql.lock_mode true) (moved tm t trans r sql.lock_mode)
        (find?-assign t t _ tm.active_transactions ∙ rw (==_refl t) refl) ready
        (subst (λ i. drop i trans.statements ≡ rest) one_on more) home
        (with_lock-IsClear rm t r sql.lock_mode rest apart clear) in
    let mine : holds (with_lock rm t r sql.lock_mode) t r ≡ some sql.lock_mode =
      with_lock-holds rm t t r r sql.lock_mode ∙ rw (==_refl r, ==_refl t) refl in
    record {
      manager = after.manager;
      trans = after.trans;
      ran = rw (try_free d t tm trans sql r n head own home free) after.ran;
      there = after.there;
      ready = after.ready;
      over = after.over;
      has = ((r, head, after.kept r sql.lock_mode mine apart), after.has);
      kept = λ q m h away.
          after.kept q m
            (with_lock-holds rm t t r q sql.lock_mode ∙ ground (arith, away.0 r head, h)) away.1;
      others = λ u q other.
          after.others u q other ∙ with_lock-holds rm t u r q sql.lock_mode ∙ ground (arith, other);
    }

-- Let the statements that an active transaction has left, which is not blocked, be each on a
-- resource of the node, no two on the same, and each lock grantable. Then as many tries as there are
-- statements give it all their locks and change no lock of another transaction; one more try
-- commits it, with no message sent, and it is no longer active.
pub commits_alone :
    (d : ℤ) (t : TransactionId) (rest : List SqlStatement) (trans : Transaction)
    (tm : TransactionManager)
    → get_transaction tm t ≡ some trans
    → is_blocked trans.status ≡ false
    → drop trans.current_sql_index trans.statements ≡ rest
    → tm.resource_manager.node_id ≡ tm.node_id
    → IsClear tm.resource_manager rest
    → (tm' : TransactionManager) × (o : Outcome) × (trans' : Transaction) × (run tm
          (polls (length rest) d t)
        ≡ some tm')
      × All (Has tm'.resource_manager t) rest
      × ((u : TransactionId) (q : ResourceId)
          → (t == u) ≡ false
          → holds tm'.resource_manager u q ≡ holds tm.resource_manager u q)
      × (try_execute_next_sql_statement d t tm' ≡ some o)
      × (o.answer ≡ true)
      × (o.sent ≡ [])
      × (o.ended ≡ record trans' { status = committed } ∷ [])
      × (get_transaction o.manager t ≡ none)
unfolding try_execute_next_sql_statement commit_transaction finish
commits_alone d t rest trans tm there ready left home clear =
    let h = through d t rest trans tm there ready left home clear in
    (
      h.manager,
      record (commit_transaction d t h.manager) { answer = true },
      h.trans,
      h.ran,
      h.has,
      h.others,
      rw (h.there, try_execute_next_sql_statement) (rw h.ready (rw h.over refl)),
      refl,
      rw (h.there, finish) refl,
      rw (h.there, finish) refl,
      rw (h.there, finish) (find?-erase t t h.manager.active_transactions ∙ rw (==_refl t) refl),
    )
