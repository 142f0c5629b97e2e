-- ===== src/Transaction/Tests.antt =====
-- Runs of TransactionManager.cpp on node 1.
use hawk_txn.Common.{
  ◌+◌, ltb, length, ℕ, ◌≡◌, refl, true, false, none, some, List, [], ◌∷◌, ◌==◌, arith, subst,
  some_inj, All,
}
use hawk_txn.Common.Int.{pos}
use hawk_txn.Map
use hawk_txn.Types.{TransactionId, ResourceId, exclusive, SqlStatement, get_owner_node_id}
use hawk_txn.Resource
use hawk_txn.Resource.{acquire_lock, release_all_locks, holds, get_resource_waiting_queue}
use hawk_txn.Transaction.{
  Outcome, Transaction, TransactionManager, aborted, committed, blocked, init, get_transaction,
  get_transaction_locks, new_transaction, begin_controlled_transaction, get_next_transaction_id,
  request_local, abort_transaction, commit_transaction, finish, try_execute_next_sql_statement,
}
use hawk_txn.Random.{Engine}
use hawk_txn.Random.Outcomes.{Within}
use hawk_txn.Transaction.Begun.{
  min_sqls_per_transaction, max_sqls_per_transaction, begin_random, IsOwned, begin_random_lem,
}
use hawk_txn.Transaction.Progress.{IsApart, Has, polls, commits_alone}
use hawk_txn.Transaction.Reach.{
  Call, begins_controlled, tries, step, run, locks_agree, no_conflicting_locks,
}
use hawk_txn.Transaction.Life.{Ended, abort_commit_lem, blocked_stays}

abbrev write : TransactionId → ResourceId → SqlStatement
write t r = record { trans_id = t; home_node_id = 1; resources = r ∷ []; lock_mode = exclusive }

-- Transactions 1 and 2 want resource 5; the first gets it.
abbrev calls : List Call
calls =
    begins_controlled (write 1 5 ∷ [])
    ∷ begins_controlled (write 2 5 ∷ [])
    ∷ tries (pos 0) 1
    ∷ tries (pos 0) 2
    ∷ []

abbrev first : Transaction
first = record (new_transaction 1 1 (write 1 5 ∷ [])) {
  current_sql_index = 1;
  acquired_locks = (5, exclusive) ∷ [];
}

abbrev second : Transaction
second = record (new_transaction 2 1 (write 2 5 ∷ [])) {
  status = blocked;
  waiting_for_resource_id = 5;
}

abbrev contended : TransactionManager
contended = record {
  node_id = 1;
  resource_manager = record {
    node_id = 1;
    resource_holders = (5, (1, exclusive) ∷ []) ∷ [];
    resource_waiting_queues = (5, 2 ∷ []) ∷ [];
    notify = true;
  };
  next_transaction_id = 3;
  active_transactions = (1, first) ∷ (2, second) ∷ [];
  completed_transaction_latencies = [];
}

run-calls : run (init 1 (Resource.init 1)) calls ≡ some contended
unfolding run step init Resource.init begin_controlled_transaction get_next_transaction_id
    try_execute_next_sql_statement request_local acquire_lock get_owner_node_id Map.assign
run-calls = refl

own_5 : get_owner_node_id 5 ≡ 1
unfolding get_owner_node_id
own_5 = refl

locks_agree_example :
    Map.find? 5 (get_transaction_locks contended 1) ≡ holds contended.resource_manager 1 5
locks_agree_example = locks_agree 1 calls contended 1 5 (tt, (tt, (tt, (tt, tt)))) run-calls own_5

no_conflicting_locks_example : ◌≡◌ {A = ℕ} 1 1
unfolding get_transaction_locks
no_conflicting_locks_example =
    no_conflicting_locks 1 calls contended 1 1 5 exclusive (tt, (tt, (tt, (tt, tt)))) run-calls
      own_5 refl refl

abort_commit_lem_example :
    Ended aborted 1 first contended (abort_transaction (pos 7) 1 contended)
    × Ended committed 1 first contended (commit_transaction (pos 7) 1 contended)
abort_commit_lem_example = abort_commit_lem (pos 7) 1 first contended (refl, tt) refl

-- The holder commits, and the one who waits is tried again.
after_commit :
    (tm : TransactionManager) × (run contended (tries (pos 0) 1 ∷ tries (pos 0) 2 ∷ []) ≡ some tm)
unfolding run step try_execute_next_sql_statement commit_transaction finish Map.erase
after_commit = (_, refl)

blocked_stays_example : get_transaction after_commit.0 2 ≡ some second
blocked_stays_example =
    blocked_stays 2 second contended after_commit.0 (tries (pos 0) 1 ∷ tries (pos 0) 2 ∷ []) refl
      (omega arith) refl ((λ x. x), ((λ x. x), tt)) after_commit.1

-- Transaction 3, with two statements on free resources, beside the two that contend.
abbrev third : Transaction
third = new_transaction 3 1 (write 3 6 ∷ write 3 7 ∷ [])

abbrev joined : TransactionManager
joined = record contended { active_transactions = (3, third) ∷ contended.active_transactions }

own_6_7 : (get_owner_node_id 6 ≡ 1) × (get_owner_node_id 7 ≡ 1)
unfolding get_owner_node_id
own_6_7 = (refl, refl)

write_7-IsApart : IsApart 6 (write 3 7)
write_7-IsApart q h = subst (λ q. (6 == q) ≡ false) (some_inj h) refl

commits_alone_example :
    (tm' : TransactionManager) × (o : Outcome) × (trans' : Transaction) × (run joined
        (polls 2 (pos 9) 3)
      ≡ some tm')
    × All (Has tm'.resource_manager 3) (write 3 6 ∷ write 3 7 ∷ [])
    × ((u : TransactionId) (q : ResourceId)
        → (3 == u) ≡ false
        → holds tm'.resource_manager u q ≡ holds joined.resource_manager u q)
    × (try_execute_next_sql_statement (pos 9) 3 tm' ≡ some o)
    × (o.answer ≡ true)
    × (o.sent ≡ [])
    × (o.ended ≡ record trans' { status = committed } ∷ [])
    × (get_transaction o.manager 3 ≡ none)
commits_alone_example =
    commits_alone (pos 9) 3 (write 3 6 ∷ write 3 7 ∷ []) third joined refl refl refl refl
      ((6, refl, own_6_7.0, refl, (write_7-IsApart, tt)), ((7, refl, own_6_7.1, refl, tt), tt))

-- An engine that counts up from 60.
abbrev counting : Engine
counting = record { stream = λ i. i + 60; taken = 0 }

begin_random_lem_example :
    (tm' : TransactionManager) × (trans : Transaction) × (g' : Engine) × (begin_random
        (λ n. ltb 80 n)
        contended
        counting
      ≡ some ((tm', trans), g'))
    × (get_transaction tm' 3 ≡ some trans)
    × (tm'.next_transaction_id ≡ 3 + 1)
    × Within min_sqls_per_transaction max_sqls_per_transaction (length trans.statements)
    × All IsOwned trans.statements
begin_random_lem_example = begin_random_lem (λ n. ltb 80 n) contended counting
