-- ===== src/Transaction.antt =====
-- Transaction.h, TransactionManager.h and TransactionManager.cpp: the transactions of one node and
-- their locks. The manager's reference to the ResourceManager is a field; what a method sends and
-- whom it notifies is part of its result. The clock and the random draws are inputs. A read past
-- the end of a vector is `none`.
pub mod Tried
pub mod Locks
pub mod Answers
pub mod Reach
pub mod Life
pub mod Serve
pub mod Progress
pub mod Begun
pub mod Ids
pub mod Tests
use hawk_txn.Common.{
  ℕ, zero, suc, ◌+◌, ◌-◌, Bool, true, false, Option, some, none, List, [], ◌∷◌, ◌++◌, ◌==◌,
  if◌then◌else◌, ◌>>=◌, get_elem?, head?, length, ltb, leb, elem,
}
use hawk_txn.Common.Int.{ℤ}
use hawk_txn.Map
use hawk_txn.Map.{Map}
use hawk_txn.Types.{
  NodeId, TransactionId, ResourceId, LockMode, shared, exclusive, SqlStatement, get_owner_node_id,
}
use hawk_txn.Message.{NetworkMessage, blank, lock_request}
use hawk_txn.Resource.{ResourceManager, Notification, acquire_lock, release_all_locks}

pub data TransactionStatus : Type 0 where
  running blocked committed aborted : TransactionStatus

pub record Transaction : Type 0 where
  pub id : TransactionId
  pub home_node_id : NodeId
  pub statements : List SqlStatement
  pub status : TransactionStatus
  pub acquired_locks : Map LockMode
  pub current_sql_index : ℕ
  pub remote_request_pending : Bool
  pub remote_request_success : Bool
  pub waiting_for_resource_id : ResourceId

pub record TransactionManager : Type 0 where
  pub node_id : NodeId
  pub resource_manager : ResourceManager
  pub next_transaction_id : TransactionId
  pub active_transactions : Map Transaction
  pub completed_transaction_latencies : List ℤ

-- What a method leaves, answers, sends and notifies, and the transactions that it takes out of the
-- map, as their other owners see them. The answer of a `void` method means nothing.
pub record Outcome : Type 0 where
  pub manager : TransactionManager
  pub answer : Bool
  pub sent : List NetworkMessage
  pub notices : List Notification
  pub ended : List Transaction

abbrev pub quiet : TransactionManager → Bool → Outcome
quiet tm b = record { manager = tm; answer = b; sent = []; notices = []; ended = [] }

-- The constructor sets the manager's callback.
unfoldable pub init : NodeId → ResourceManager → TransactionManager
init n rm = record {
  node_id = n;
  resource_manager = record rm { notify = true };
  next_transaction_id = 1;
  active_transactions = [];
  completed_transaction_latencies = [];
}

-- getTransaction
abbrev pub get_transaction : TransactionManager → TransactionId → Option Transaction
get_transaction tm t = Map.find? t tm.active_transactions

-- `trans` written through the pointer in the map.
abbrev pub store : TransactionId → Transaction → TransactionManager → TransactionManager
store t trans tm = record tm { active_transactions = Map.assign t trans tm.active_transactions }

-- getNextTransactionId
unfoldable pub get_next_transaction_id : TransactionManager → TransactionManager × TransactionId
get_next_transaction_id tm =
    (record tm { next_transaction_id = tm.next_transaction_id + 1 }, tm.next_transaction_id)

-- A Transaction as its constructor and the assignments of the `begin` methods leave it.
abbrev pub new_transaction : TransactionId → NodeId → List SqlStatement → Transaction
new_transaction t n statements = record {
  id = t;
  home_node_id = n;
  statements = statements;
  status = running;
  acquired_locks = [];
  current_sql_index = 0;
  remote_request_pending = false;
  remote_request_success = false;
  waiting_for_resource_id = 0;
}

-- generateControlledSQLStatement
abbrev pub generate_controlled_sql_statement :
    TransactionId → NodeId → List ResourceId → LockMode → SqlStatement
generate_controlled_sql_statement t n resources mode = record {
  trans_id = t;
  home_node_id = n;
  resources = resources;
  lock_mode = mode;
}

-- generateRandomSQLStatements. A draw is the resource and whether the lock is to be exclusive.
unfoldable pub generate_random_sql_statements :
    TransactionId → NodeId → List (ResourceId × Bool) → List SqlStatement
generate_random_sql_statements t n [] = []
generate_random_sql_statements t n ((r, x) ∷ draws) =
    (record {
      trans_id = t;
      home_node_id = n;
      resources = r ∷ [];
      lock_mode = if x then exclusive else shared;
    })
    ∷ generate_random_sql_statements t n draws

-- beginControlledTransaction
unfoldable pub begin_controlled_transaction :
    List SqlStatement → TransactionManager → TransactionManager × Transaction
unfolding get_next_transaction_id
begin_controlled_transaction statements tm =
    let (tm', t) = get_next_transaction_id tm in
    let trans = new_transaction t tm.node_id statements in (store t trans tm', trans)

-- beginTransaction, which draws the number of statements twice and uses the second draw.
unfoldable pub begin_transaction :
    List (ResourceId × Bool) → TransactionManager → TransactionManager × Transaction
unfolding get_next_transaction_id generate_random_sql_statements
begin_transaction draws tm =
    let (tm', t) = get_next_transaction_id tm in
    let trans = new_transaction t tm.node_id (generate_random_sql_statements t tm.node_id draws) in
    (store t trans tm', trans)

-- addTPCCTransaction
unfoldable pub add_tpcc_transaction : Transaction → TransactionManager → TransactionManager
add_tpcc_transaction trans tm = store trans.id trans tm

-- abortTransaction and commitTransaction differ in the status that they leave on the object, which they
-- take out of the map. `duration` is the time since its start.
unfoldable pub finish : TransactionStatus → ℤ → TransactionId → TransactionManager → Outcome
finish status duration t tm = elim (get_transaction tm t) [
  | none ↦ quiet tm false
  | some trans ↦
      let (rm, notices) = release_all_locks tm.resource_manager t in
      record {
        manager = record {
          node_id = tm.node_id;
          resource_manager = rm;
          next_transaction_id = tm.next_transaction_id;
          active_transactions = Map.erase t tm.active_transactions;
          completed_transaction_latencies = tm.completed_transaction_latencies ++ duration ∷ [];
        };
        answer = true;
        sent = [];
        notices = notices;
        ended = record trans { status = status } ∷ [];
      }
]

-- abortTransaction
unfoldable pub abort_transaction : ℤ → TransactionId → TransactionManager → Outcome
unfolding finish
abort_transaction duration t tm = finish aborted duration t tm

-- commitTransaction
unfoldable pub commit_transaction : ℤ → TransactionId → TransactionManager → Outcome
unfolding finish
commit_transaction duration t tm = finish committed duration t tm

-- What the answer of acquireLock does to the transaction.
abbrev pub after_request : Transaction → ResourceId → LockMode → Bool → Transaction
after_request trans r mode true = record trans {
  current_sql_index = trans.current_sql_index + 1;
  acquired_locks = Map.assign r mode trans.acquired_locks;
}
after_request trans r mode false = record trans { status = blocked; waiting_for_resource_id = r }

-- The branch of tryExecuteNextSQLStatement on a resource of the node itself.
unfoldable pub request_local :
    TransactionId → Transaction → ResourceId → LockMode → TransactionManager → Outcome
request_local t trans r mode tm =
    let (rm, granted) = acquire_lock tm.resource_manager t r mode in
    quiet (store t (after_request trans r mode granted) (record tm { resource_manager = rm }))
      granted

-- Its branch on a resource of another node: the transaction as it waits, and the request.
abbrev pub await_response : Transaction → ResourceId → Transaction
await_response trans r = record trans {
  status = blocked;
  remote_request_pending = true;
  waiting_for_resource_id = r;
}

abbrev pub request_message : NodeId → TransactionId → ResourceId → LockMode → NetworkMessage
request_message n t r mode = record blank {
  type = lock_request;
  sender_id = n;
  receiver_id = get_owner_node_id r;
  trans_id = t;
  res_id = r;
  mode = mode;
}

unfoldable pub request_remote :
    TransactionId → Transaction → ResourceId → LockMode → TransactionManager → Outcome
request_remote t trans r mode tm = record {
  manager = store t (await_response trans r) tm;
  answer = false;
  sent = request_message tm.node_id t r mode ∷ [];
  notices = [];
  ended = [];
}

abbrev pub is_blocked : TransactionStatus → Bool
is_blocked running = false
is_blocked blocked = true
is_blocked committed = false
is_blocked aborted = false

-- tryExecuteNextSQLStatement
unfoldable pub try_execute_next_sql_statement :
    ℤ → TransactionId → TransactionManager → Option Outcome
unfolding commit_transaction request_local request_remote
try_execute_next_sql_statement duration t tm = elim (get_transaction tm t) [
  | none ↦ some (quiet tm false)
  | some trans ↦ elim (is_blocked trans.status) [
    | true ↦ some (quiet tm false)
    | false ↦ elim (get_elem? trans.statements trans.current_sql_index) [
      | none ↦ some (record (commit_transaction duration t tm) { answer = true })
      | some sql ↦ elim (head? sql.resources) [
        | none ↦ none
        | some r ↦ elim (get_owner_node_id r == tm.node_id) [
          | true ↦ some (request_local t trans r sql.lock_mode tm)
          | false ↦ some (request_remote t trans r sql.lock_mode tm)
        ]
      ]
    ]
  ]
]

-- The granted branch of handleSQLResponse, up to the next statement.
unfoldable pub take_grant : ResourceId → Transaction → Option Transaction
take_grant r trans = do
  sql ← get_elem? trans.statements trans.current_sql_index
  some (record trans {
    current_sql_index = trans.current_sql_index + 1;
    acquired_locks = Map.assign r sql.lock_mode trans.acquired_locks;
    status = running;
  })

-- The fields that every response sets.
abbrev pub answered : Bool → Transaction → Transaction
answered granted trans = record trans {
  remote_request_pending = false;
  remote_request_success = granted;
  waiting_for_resource_id = 0;
}

-- The test on `granted` at the end of handleSQLResponse.
unfoldable pub respond :
    ℤ → TransactionId → Bool → ResourceId → Transaction → TransactionManager → Option Outcome
unfolding take_grant try_execute_next_sql_statement
respond d t true r trans tm = do
  trans' ← take_grant r trans
  try_execute_next_sql_statement d t (store t trans' tm)
respond d t false r trans tm = some (quiet (store t (record trans { status = blocked }) tm) false)

-- handleSQLResponse
unfoldable pub handle_sql_response :
    ℤ → TransactionId → Bool → ResourceId → TransactionManager → Option Outcome
unfolding respond
handle_sql_response duration t granted r tm = elim (get_transaction tm t) [
  | none ↦ some (quiet tm false)
  | some trans ↦ respond duration t granted r (answered granted trans) tm
]

-- getActiveTransactions
abbrev pub get_active_transactions : TransactionManager → List TransactionId
get_active_transactions tm = Map.keys tm.active_transactions

-- getTransactionLocks
unfoldable pub get_transaction_locks : TransactionManager → TransactionId → Map LockMode
get_transaction_locks tm t = elim (get_transaction tm t) [
  | none ↦ []
  | some trans ↦ trans.acquired_locks
]

-- getTransactionWaitingFor
unfoldable pub get_transaction_waiting_for : TransactionManager → TransactionId → ResourceId
get_transaction_waiting_for tm t = elim (get_transaction tm t) [
  | none ↦ 0
  | some trans ↦ trans.waiting_for_resource_id
]

-- getTransactionHomeNode
unfoldable pub get_transaction_home_node : TransactionManager → TransactionId → NodeId
get_transaction_home_node tm t = elim (get_transaction tm t) [
  | none ↦ 0
  | some trans ↦ trans.home_node_id
]

-- getCompletedTransactionLatencies
unfoldable pub get_completed_transaction_latencies :
    TransactionManager → TransactionManager × List ℤ
get_completed_transaction_latencies tm =
    (record tm { completed_transaction_latencies = [] }, tm.completed_transaction_latencies)
