-- ===== src/Transaction/Serve.antt =====
-- What one call of tryExecuteNextSQLStatement does (TransactionManager.cpp).
use hawk_txn.Common.{
  ◌≡◌, ◌≢◌, refl, true, false, some, none, [], ◌∷◌, ◌==◌, arith, ==_refl, ==_of_ne, Bool-cases, ap,
  sym, ◌∙◌, inl, inr, get_elem?, head?,
}
use hawk_txn.Common.Int.{ℤ}
use hawk_txn.Map.{find?-assign, find?-erase}
use hawk_txn.Types.{TransactionId, ResourceId, LockMode, SqlStatement, get_owner_node_id}
use hawk_txn.Message.{NetworkMessage, lock_request}
use hawk_txn.Resource.{ResourceManager, acquire_lock, release_all_locks}
use hawk_txn.Resource.Grant.{grantable, acquire_lock-granted}
use hawk_txn.Transaction.{
  Transaction, committed, TransactionManager, Outcome, store, get_transaction, after_request,
  await_response, request_message, add_tpcc_transaction, finish, commit_transaction, request_local,
  request_remote, is_blocked, try_execute_next_sql_statement,
}
use hawk_txn.Transaction.Tried.{Next}

-- An answer as a test on the request.
acquire_lock-answer :
    (rm : ResourceManager) (t : TransactionId) (r : ResourceId) (mode : LockMode)
    → get_owner_node_id r ≡ rm.node_id
    → (acquire_lock rm t r mode).1 ≡ grantable rm r mode
acquire_lock-answer rm t r mode own =
    let (to, from) = acquire_lock-granted rm t r mode in
    elim (Bool-cases (grantable rm r mode)) [
      | inl free ↦ from (own, free) ∙ sym free
      | inr busy ↦ elim (Bool-cases (acquire_lock rm t r mode).1) [
        | inl given ↦ absurd (cc ((to given).1, busy))
        | inr refused ↦ refused ∙ sym busy
      ]
    ]

-- Let the next statement of a transaction that is not blocked be on a resource of the node, whose
-- lock manager it is. The lock is granted exactly if the request is grantable, and the
-- transaction moves on with it, or else is blocked and waits for the resource; nothing is sent.
pub try_local :
    (d : ℤ) (t : TransactionId) (tm : TransactionManager) (trans : Transaction) (sql : SqlStatement)
    (r : ResourceId)
    → Next tm t trans sql
    → head? sql.resources ≡ some r
    → get_owner_node_id r ≡ tm.node_id
    → tm.resource_manager.node_id ≡ tm.node_id
    → (o : Outcome) × (try_execute_next_sql_statement d t tm ≡ some o)
      × (o.answer ≡ grantable tm.resource_manager r sql.lock_mode)
      × (get_transaction o.manager t
          ≡ some
              (after_request trans r sql.lock_mode (grantable tm.resource_manager r sql.lock_mode)))
      × (o.manager.resource_manager ≡ (acquire_lock tm.resource_manager t r sql.lock_mode).0)
      × (o.sent ≡ [])
unfolding try_execute_next_sql_statement request_local
try_local d t tm trans sql r n first own home =
    let answer = acquire_lock-answer tm.resource_manager t r sql.lock_mode (own ∙ sym home) in
    let here : (get_owner_node_id r == tm.node_id) ≡ true = ground (arith, own) in
    (
      request_local t trans r sql.lock_mode tm,
      rw (n.there, try_execute_next_sql_statement)
          (rw n.ready (rw n.next (rw first (rw here refl)))),
      answer,
      find?-assign t t _ tm.active_transactions
          ∙ rw (==_refl t) (ap (λ b. some (after_request trans r sql.lock_mode b)) answer),
      refl,
      refl,
    )

-- Let the next statement of a transaction that is not blocked be on a resource of another node.
-- The transaction is blocked and waits for the resource, no lock changes hands, and the owner of
-- the resource is sent one request, for this transaction, resource and mode.
pub try_remote :
    (d : ℤ) (t : TransactionId) (tm : TransactionManager) (trans : Transaction) (sql : SqlStatement)
    (r : ResourceId)
    → Next tm t trans sql
    → head? sql.resources ≡ some r
    → get_owner_node_id r ≢ tm.node_id
    → (o : Outcome) × (m : NetworkMessage) × (trans' : Transaction)
      × (try_execute_next_sql_statement d t tm ≡ some o)
      × (get_transaction o.manager t ≡ some trans')
      × (is_blocked trans'.status ≡ true)
      × (trans'.waiting_for_resource_id ≡ r)
      × (trans'.current_sql_index ≡ trans.current_sql_index)
      × (o.manager.resource_manager ≡ tm.resource_manager)
      × (o.sent ≡ m ∷ [])
      × (m.type ≡ lock_request)
      × (m.receiver_id ≡ get_owner_node_id r)
      × ((m.trans_id ≡ t) × (m.res_id ≡ r) × (m.mode ≡ sql.lock_mode))
unfolding try_execute_next_sql_statement request_remote
try_remote d t tm trans sql r n first away =
    let there : (get_owner_node_id r == tm.node_id) ≡ false =
      ==_of_ne (get_owner_node_id r) tm.node_id away in
    (
      request_remote t trans r sql.lock_mode tm,
      request_message tm.node_id t r sql.lock_mode,
      await_response trans r,
      rw (n.there, try_execute_next_sql_statement)
          (rw n.ready (rw n.next (rw first (rw there refl)))),
      find?-assign t t _ tm.active_transactions ∙ rw (==_refl t),
      refl,
      refl,
      refl,
      refl,
      refl,
      refl,
      refl,
      (refl, refl, refl),
    )

-- A transaction without statements that is not blocked, such as addTPCCTransaction gets, is
-- committed by the first try, which takes no lock and sends nothing.
pub tpcc_commits_at_once :
    (d : ℤ) (trans : Transaction) (tm : TransactionManager)
    → trans.statements ≡ []
    → is_blocked trans.status ≡ false
    → (o : Outcome) × (try_execute_next_sql_statement d trans.id (add_tpcc_transaction trans tm)
        ≡ some o)
      × (o.answer ≡ true)
      × (o.sent ≡ [])
      × (o.ended ≡ record trans { status = committed } ∷ [])
      × (get_transaction o.manager trans.id ≡ none)
      × (o.manager.resource_manager ≡ (release_all_locks tm.resource_manager trans.id).0)
unfolding add_tpcc_transaction commit_transaction finish try_execute_next_sql_statement
tpcc_commits_at_once d trans tm bare_of ready =
    let tm' = store trans.id trans tm in
    let there : get_transaction tm' trans.id ≡ some trans =
      find?-assign trans.id trans.id trans tm.active_transactions ∙ rw (==_refl trans.id) in
    let over : get_elem? trans.statements trans.current_sql_index ≡ none = rw bare_of in
    (
      record (commit_transaction d trans.id tm') { answer = true },
      rw (there, try_execute_next_sql_statement) (rw ready (rw over)),
      refl,
      rw (there, finish),
      rw (there, finish),
      rw (there, finish)
          (find?-erase trans.id trans.id tm'.active_transactions ∙ rw (==_refl trans.id)),
      rw (there, finish),
    )
