-- ===== src/Transaction/Tried.antt =====
-- The ways through tryExecuteNextSQLStatement of TransactionManager.cpp.
use hawk_txn.Common.{
  ◌≡◌, true, false, Option, some, none, ◌==◌, arith, Bool-cases, Option-cases, inl, inr, get_elem?,
  head?,
}
use hawk_txn.Common.Int.{ℤ}
use hawk_txn.Types.{TransactionId, ResourceId, SqlStatement, get_owner_node_id}
use hawk_txn.Transaction.{
  Transaction, TransactionManager, Outcome, get_transaction, quiet, commit_transaction,
  request_local, request_remote, is_blocked, try_execute_next_sql_statement,
}

-- The transaction is there, is not blocked, and this is its next statement.
pub record Next (tm : TransactionManager) (t : TransactionId) (trans : Transaction)
    (sql : SqlStatement) : Type 0 where
  pub there : get_transaction tm t ≡ some trans
  pub ready : is_blocked trans.status ≡ false
  pub next : get_elem? trans.statements trans.current_sql_index ≡ some sql

pub data Tried (d : ℤ) (t : TransactionId) (tm : TransactionManager) : Option Outcome → Type 0 where
  absent : get_transaction tm t ≡ none → Tried d t tm (some (quiet tm false))
  stuck :
      (trans : Transaction)
      → get_transaction tm t ≡ some trans
      → is_blocked trans.status ≡ true
      → Tried d t tm (some (quiet tm false))
  over :
      (trans : Transaction)
      → get_transaction tm t ≡ some trans
      → is_blocked trans.status ≡ false
      → get_elem? trans.statements trans.current_sql_index ≡ none
      → Tried d t tm (some (record (commit_transaction d t tm) { answer = true }))
  bare :
      (trans : Transaction) (sql : SqlStatement)
      → Next tm t trans sql
      → head? sql.resources ≡ none
      → Tried d t tm none
  local :
      (trans : Transaction) (sql : SqlStatement) (r : ResourceId)
      → Next tm t trans sql
      → head? sql.resources ≡ some r
      → get_owner_node_id r ≡ tm.node_id
      → Tried d t tm (some (request_local t trans r sql.lock_mode tm))
  remote :
      (trans : Transaction) (sql : SqlStatement) (r : ResourceId)
      → Next tm t trans sql
      → head? sql.resources ≡ some r
      → (get_owner_node_id r == tm.node_id) ≡ false
      → Tried d t tm (some (request_remote t trans r sql.lock_mode tm))

pub tried :
    (d : ℤ) (t : TransactionId) (tm : TransactionManager)
    → Tried d t tm (try_execute_next_sql_statement d t tm)
unfolding try_execute_next_sql_statement
tried d t tm = elim (Option-cases (get_transaction tm t)) [
  | inl e ↦ rw (e, try_execute_next_sql_statement) (absent e)
  | inr (trans, there) ↦
      rw (there, try_execute_next_sql_statement)
        (elim (Bool-cases (is_blocked trans.status)) [
          | inl e ↦ rw e (stuck trans there e)
          | inr ready ↦
              rw ready (elim (Option-cases (get_elem? trans.statements trans.current_sql_index)) [
                | inl e ↦ rw e (over trans there ready e)
                | inr (sql, next) ↦ rw next (
                    with_statement trans sql (record { there = there; ready = ready; next = next }))
              ])
        ])
]
  where
    with_statement :
        (trans : Transaction) (sql : SqlStatement)
        → Next tm t trans sql
        → Tried d t tm (elim (head? sql.resources) [
          | none ↦ none
          | some r ↦ elim (get_owner_node_id r == tm.node_id) [
            | true ↦ some (request_local t trans r sql.lock_mode tm)
            | false ↦ some (request_remote t trans r sql.lock_mode tm)
          ]
        ])
    with_statement trans sql n = elim (Option-cases (head? sql.resources)) [
      | inl e ↦ rw e (bare trans sql n e)
      | inr (r, e) ↦ rw e (elim (Bool-cases (get_owner_node_id r == tm.node_id)) [
        | inl own ↦ rw own (local trans sql r n e (ground arith))
        | inr other ↦ rw other (remote trans sql r n e other)
      ])
    ]
