-- ===== src/LockTable/Home.antt =====
-- What is fixed when a transaction begins, its home and its statements, and what the polling of
-- TransactionManager.cpp leaves of it. All that the polling sends are requests for locks.
use hawk_txn.Common.{
  ℕ, zero, suc, ◌≡◌, refl, Bool, true, false, Option, some, List, [], ◌∷◌, ◌==◌, get_elem?, All,
  Bool-cases, Option-cases, sym, ◌∙◌, ◌⊎◌, inl, inr, some_inj, subst, head?,
}
use hawk_txn.Common.Int.{ℤ}
use hawk_txn.Map.{find?-assign, find?-erase}
use hawk_txn.Types.{NodeId, TransactionId, ResourceId, LockMode, SqlStatement}
use hawk_txn.Message.{lock_request}
use hawk_txn.Resource.{acquire_lock}
use hawk_txn.Transaction.{
  Transaction, TransactionStatus, committed, TransactionManager, Outcome, store, get_transaction,
  get_transaction_home_node, after_request, await_response, finish, commit_transaction,
  request_local, request_remote, try_execute_next_sql_statement,
}
use hawk_txn.Transaction.Tried.{Tried, absent, stuck, over, bare, local, remote, tried}
use hawk_txn.LockTable.Cross.{IsHome}

-- Every active transaction has a home and statements of this kind.
abbrev pub Every : (NodeId → List SqlStatement → Type 0) → TransactionManager → Type 0
Every P tm =
    (t : TransactionId) (trans : Transaction)
    → get_transaction tm t ≡ some trans
    → P trans.home_node_id trans.statements

module _ (P : NodeId → List SqlStatement → Type 0) where
  pub store-Every :
      (t : TransactionId) (new : Transaction) (tm : TransactionManager)
      → Every P tm
      → P new.home_node_id new.statements
      → Every P (store t new tm)
  store-Every t new tm every here u trans h = elim (Bool-cases (t == u)) [
    | inl same ↦
        subst (λ x. P x.home_node_id x.statements)
          (some_inj (rw same at (sym (find?-assign t u new tm.active_transactions) ∙ h))) here
    | inr other ↦
        every u trans (rw other at (sym (find?-assign t u new tm.active_transactions) ∙ h))
  ]

  finish-Every :
      (status : TransactionStatus) (d : ℤ) (t : TransactionId) (tm : TransactionManager)
      → Every P tm
      → Every P (finish status d t tm).manager
  unfolding finish
  finish-Every status d t tm every = elim (Option-cases (get_transaction tm t)) [
    | inl gone ↦ rw (gone, finish) every
    | inr (x, there) ↦
        rw (there, finish)
          (λ u trans h. elim (Bool-cases (t == u)) [
            | inl same ↦ absurd (cc (rw same at (sym (find?-erase t u tm.active_transactions) ∙ h)))
            | inr other ↦
                every u trans (rw other at (sym (find?-erase t u tm.active_transactions) ∙ h))
          ])
  ]

  after_request-same :
      (b : Bool) (trans : Transaction) (r : ResourceId) (mode : LockMode)
      → P trans.home_node_id trans.statements
      → (let new = after_request trans r mode b in P new.home_node_id new.statements)
  after_request-same true trans r mode p = p
  after_request-same false trans r mode p = p

  local-Every :
      (t : TransactionId) (trans : Transaction) (r : ResourceId) (mode : LockMode)
      (tm : TransactionManager)
      → Every P tm
      → P trans.home_node_id trans.statements
      → Every P (request_local t trans r mode tm).manager
  unfolding request_local
  local-Every t trans r mode tm every here =
      let (rm, granted) = acquire_lock tm.resource_manager t r mode in
      store-Every t (after_request trans r mode granted) (record tm { resource_manager = rm }) every
        (after_request-same granted trans r mode here)

ending_sends_nothing :
    (status : TransactionStatus) (d : ℤ) (t : TransactionId) (tm : TransactionManager)
    → All (λ m. m.type ≡ lock_request) (finish status d t tm).sent
unfolding finish
ending_sends_nothing status d t tm = elim (Option-cases (get_transaction tm t)) [
  | inl gone ↦ rw (gone, finish) tt
  | inr (x, there) ↦ rw (there, finish) tt
]

-- What a try leaves and sends.
abbrev pub Polled : (NodeId → List SqlStatement → Type 0) → Outcome → Type 0
Polled P o = Every P o.manager × All (λ m. m.type ≡ lock_request) o.sent

pub try-Every :
    (P : NodeId → List SqlStatement → Type 0) (d : ℤ) (t : TransactionId) (tm : TransactionManager)
    (o : Outcome)
    → Every P tm
    → try_execute_next_sql_statement d t tm ≡ some o
    → Polled P o
unfolding commit_transaction request_local request_remote
try-Every P d t tm o every h = of_tried (try_execute_next_sql_statement d t tm) (tried d t tm) h
  where
    of_tried : (r : Option Outcome) → Tried d t tm r → r ≡ some o → Polled P o
    of_tried r (absent e) h = subst (Polled P) (some_inj h) (every, tt)
    of_tried r (stuck trans there e) h = subst (Polled P) (some_inj h) (every, tt)
    of_tried r (over trans there ready e) h =
        subst (Polled P) (some_inj h)
          (finish-Every P committed d t tm every, ending_sends_nothing committed d t tm)
    of_tried r (bare trans sql q e) h = absurd (cc h)
    of_tried r (local trans sql q s e own) h =
        subst (Polled P) (some_inj h)
          (local-Every P t trans q sql.lock_mode tm every (every t trans s.there), tt)
    of_tried r (remote trans sql q s e other) h =
        subst (Polled P) (some_inj h)
          (store-Every P t (await_response trans q) tm every (every t trans s.there), (refl, tt))

-- The home of any transaction is the node itself, or none.
pub home_here :
    (n : NodeId) (tm : TransactionManager) (t : TransactionId)
    → IsHome n tm
    → (get_transaction_home_node tm t ≡ 0) ⊎ (get_transaction_home_node tm t ≡ n)
unfolding get_transaction_home_node
home_here n tm t home = elim (Option-cases (get_transaction tm t)) [
  | inl gone ↦ inl (rw (gone, get_transaction_home_node) refl)
  | inr (trans, there) ↦ inr (rw (there, get_transaction_home_node) (home t trans there))
]

-- Every statement names a resource.
abbrev pub Names : List SqlStatement → Type 0
Names qs = All (λ (q : SqlStatement). (r : ResourceId) × (head? q.resources ≡ some r)) qs

named_next :
    (qs : List SqlStatement) (i : ℕ) (q : SqlStatement)
    → Names qs
    → get_elem? qs i ≡ some q
    → (r : ResourceId) × (head? q.resources ≡ some r)
named_next [] i q names h = absurd (cc h)
named_next (x ∷ qs) zero q names h =
    subst (λ y. (r : ResourceId) × (head? y.resources ≡ some r)) (some_inj h) names.0
named_next (x ∷ qs) (suc i) q names h = named_next qs i q names.1 h

-- If all statements of the active transactions name a resource, every try returns.
pub try_returns :
    (d : ℤ) (t : TransactionId) (tm : TransactionManager)
    → ((u : TransactionId) (trans : Transaction)
        → get_transaction tm u ≡ some trans
        → Names trans.statements)
    → (o : Outcome) × (try_execute_next_sql_statement d t tm ≡ some o)
try_returns d t tm names = of_tried (try_execute_next_sql_statement d t tm) (tried d t tm)
  where
    of_tried : (r : Option Outcome) → Tried d t tm r → (o : Outcome) × (r ≡ some o)
    of_tried r (absent e) = (_, refl)
    of_tried r (stuck trans there e) = (_, refl)
    of_tried r (over trans there ready e) = (_, refl)
    of_tried r (bare trans sql n e) =
        let (q, named) =
          named_next trans.statements trans.current_sql_index sql (names t trans n.there) n.next in
        absurd (cc (named, e))
    of_tried r (local trans sql q n e own) = (_, refl)
    of_tried r (remote trans sql q n e other) = (_, refl)
