-- ===== src/Resource.antt =====
-- ResourceManager.h and ResourceManager.cpp: the locks of one node, who holds them and who
-- waits. The two mutexes make each method one step. A call of `notifyTransactionToRetryAcquire`,
-- whose body no file defines, is a notification in the result, in the order of the calls.
pub mod Grant
pub mod Exclusion
pub mod Release
pub mod Reach
pub mod Waiting
pub mod Tests
use hawk_txn.Common.{
  ℕ, zero, suc, ◌+◌, ◌-◌, ◌*◌, Bool, true, false, not, ◌&&◌, ◌||◌, Option, none, some, List, [],
  ◌∷◌, ◌++◌, ◌==◌, if◌then◌else◌, is_empty,
}
use hawk_txn.Map
use hawk_txn.Map.{Map}
use hawk_txn.Types.{
  NodeId, TransactionId, ResourceId, LockMode, shared, exclusive, resources_per_node,
  get_owner_node_id,
}

abbrev pub Holders : Type 0
Holders = Map LockMode

pub record ResourceManager : Type 0 where
  pub node_id : NodeId
  pub resource_holders : Map Holders
  pub resource_waiting_queues : Map (List TransactionId)
  -- whether `notifyTransactionToRetryAcquire` is set
  pub notify : Bool

pub record Notification : Type 0 where
  pub trans_id : TransactionId
  pub res_id : ResourceId

unfoldable pub init : NodeId → ResourceManager
init n = record { node_id = n; resource_holders = []; resource_waiting_queues = []; notify = false }

-- getResourceHolders
abbrev pub get_resource_holders : ResourceManager → ResourceId → Holders
get_resource_holders rm r = Map.get_or r [] rm.resource_holders

-- getResourceWaitingQueue; the head of the list is the front of the queue
abbrev pub get_resource_waiting_queue : ResourceManager → ResourceId → List TransactionId
get_resource_waiting_queue rm r = Map.get_or r [] rm.resource_waiting_queues

-- The loop of checkConflict over the holders.
abbrev pub conflicts_with : LockMode → Holders → Bool
conflicts_with mode [] = false
conflicts_with shared ((t, exclusive) ∷ hs) = true
conflicts_with shared ((t, shared) ∷ hs) = conflicts_with shared hs
conflicts_with exclusive ((t, m) ∷ hs) = true

-- Where the map has no entry for the resource, its holders read as the empty map, and so for queues.
unfoldable pub check_conflict : ResourceManager → ResourceId → LockMode → Bool
check_conflict rm r mode =
    if is_empty (get_resource_holders rm r)
    then false
    else if not (is_empty (get_resource_waiting_queue rm r))
    then true
    else conflicts_with mode (get_resource_holders rm r)

-- acquireLock
unfoldable pub acquire_lock :
    ResourceManager → TransactionId → ResourceId → LockMode → ResourceManager × Bool
unfolding check_conflict
acquire_lock rm t r mode =
    if not (get_owner_node_id r == rm.node_id)
    then (rm, false)
    else if check_conflict rm r mode
    then (
      record rm {
        resource_waiting_queues =
            Map.assign r (get_resource_waiting_queue rm r ++ t ∷ []) rm.resource_waiting_queues;
      },
      false,
    )
    else (
      record rm {
        resource_holders =
            Map.assign r (Map.assign t mode (get_resource_holders rm r)) rm.resource_holders;
      },
      true,
    )

-- The call of the callback, if it is set, with the front of a queue.
abbrev pub front_notice : Bool → ResourceId → List TransactionId → List Notification
front_notice b r [] = []
front_notice true r (w ∷ ws) = record { trans_id = w; res_id = r } ∷ []
front_notice false r (w ∷ ws) = []

abbrev pub notify_front : ResourceManager → ResourceId → List Notification
notify_front rm r = front_notice rm.notify r (get_resource_waiting_queue rm r)

-- The holders of a resource after one of them left: an empty entry is erased.
abbrev pub store_holders : ResourceId → Holders → Map Holders → Map Holders
store_holders r hs m = if is_empty hs then Map.erase r m else Map.assign r hs m

-- releaseLock
unfoldable pub release_lock :
    ResourceManager → TransactionId → ResourceId → ResourceManager × List Notification
release_lock rm t r =
    if not (get_owner_node_id r == rm.node_id)
    then (rm, [])
    else if Map.contains t (get_resource_holders rm r)
    then (
      record rm {
        resource_holders =
            store_holders r (Map.erase t (get_resource_holders rm r)) rm.resource_holders;
      },
      notify_front rm r,
    )
    else (rm, [])

-- The first loop of releaseAllLocks: what stays of the holders, and the resources released.
unfoldable pub release_holders : TransactionId → Map Holders → Map Holders × List ResourceId
release_holders t [] = ([], [])
release_holders t ((r, hs) ∷ m) =
    let (m', released) = release_holders t m in
    if Map.contains t hs
    then (if is_empty (Map.erase t hs) then m' else (r, Map.erase t hs) ∷ m', r ∷ released)
    else ((r, hs) ∷ m', released)

-- Its second loop.
abbrev pub notify_all : ResourceManager → List ResourceId → List Notification
notify_all rm [] = []
notify_all rm (r ∷ rs) = notify_front rm r ++ notify_all rm rs

-- releaseAllLocks
unfoldable pub release_all_locks :
    ResourceManager → TransactionId → ResourceManager × List Notification
unfolding release_holders
release_all_locks rm t =
    let (m, released) = release_holders t rm.resource_holders in
    (record rm { resource_holders = m }, notify_all rm released)

-- The ids from `i` on, `n` of them.
unfoldable pub count_up : ℕ → ℕ → List ℕ
count_up zero i = []
count_up (suc n) i = i ∷ count_up n (i + 1)

-- getLocalResources
unfoldable pub get_local_resources : ResourceManager → List ResourceId
unfolding count_up
get_local_resources rm = count_up resources_per_node ((rm.node_id - 1) * resources_per_node + 1)

-- The loop of removeTransactionFromWaitingQueue: the queue that is kept, and whether one was found.
unfoldable pub remove_from_queue : TransactionId → List TransactionId → List TransactionId × Bool
remove_from_queue t [] = ([], false)
remove_from_queue t (x ∷ q) =
    let (kept, found) = remove_from_queue t q in if x == t then (kept, true) else (x ∷ kept, found)

-- removeTransactionFromWaitingQueue
unfoldable pub remove_transaction_from_waiting_queue :
    ResourceManager → TransactionId → ResourceId → ResourceManager × Bool
unfolding remove_from_queue
remove_transaction_from_waiting_queue rm t r =
    if is_empty (get_resource_waiting_queue rm r)
    then (rm, false)
    else (let (kept, found) = remove_from_queue t (get_resource_waiting_queue rm r) in
        (
          record rm { resource_waiting_queues = Map.assign r kept rm.resource_waiting_queues },
          found,
        ))

-- The mode in which a transaction holds a resource.
abbrev pub holds : ResourceManager → TransactionId → ResourceId → Option LockMode
holds rm t r = Map.find? t (get_resource_holders rm r)
