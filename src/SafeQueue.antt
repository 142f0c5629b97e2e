-- ===== src/SafeQueue.antt =====
-- SafeQueue.h: a queue behind a mutex. A call is one step of a run, since each holds the mutex from
-- its start to its end, but for the wait of `pop`, which is a call that has to be made again.
-- `running` is `systemRunning`.
pub mod Fifo
pub mod Tests
use hawk_txn.Common.{Bool, true, false, Option, none, some, List, [], ◌∷◌, ◌++◌, is_empty}

module _ {ℓ} {T : Type ℓ} where
  -- push
  unfoldable pub push : T → List T → List T
  push value queue = queue ++ value ∷ []

-- What `pop` comes to: a value, an exception, or it waits.
pub data Popped {ℓ} (T : Type ℓ) : Type ℓ where
  value : T → List T → Popped T
  terminated : Popped T
  waits : Popped T

module _ {ℓ} {T : Type ℓ} where
  -- pop
  unfoldable pub pop : Bool → List T → Popped T
  pop running (x ∷ queue) = value x queue
  pop true [] = waits
  pop false [] = terminated

  -- try_pop
  unfoldable pub try_pop : List T → Option T × List T
  try_pop [] = (none, [])
  try_pop (x ∷ queue) = (some x, queue)

  -- empty
  abbrev pub empty : List T → Bool
  empty queue = is_empty queue

  -- The loop of drain, with the elements taken so far.
  unfoldable pub drain_into : List T → List T → List T
  drain_into elements [] = elements
  drain_into elements (x ∷ queue) = drain_into (elements ++ x ∷ []) queue

  -- drain
  unfoldable pub drain : List T → List T × List T
  unfolding drain_into
  drain queue = (drain_into [] queue, [])
