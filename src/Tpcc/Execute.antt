-- ===== src/Tpcc/Execute.antt =====
-- tpcc_transaction.h and tpcc_transaction.cpp: what a TPC-C transaction does to the locks of a node and to
-- its database. The time and the draws are inputs. The fields of an order and of an order line that
-- the source leaves unset are 0. A position out of range in a table, which has no defined
-- behaviour, is `fault`; nothing that a body calls throws, so that its handler is not reached.
use hawk_txn.Common.{
  ℕ, zero, suc, ◌+◌, ◌-◌, ◌*◌, Bool, true, false, Option, some, none, List, [], ◌∷◌, ◌++◌, ◌==◌,
  if◌then◌else◌,
}
use hawk_txn.Map
use hawk_txn.Types.{ResourceId, LockMode}
use hawk_txn.Resource.{ResourceManager, Notification, acquire_lock, release_all_locks}
use hawk_txn.Transaction.{Transaction, blocked, committed, aborted}
use hawk_txn.Tpcc.Rows.{Warehouse, District, Customer, Stock, TpccDatabase}

-- All that the code does with a `double`.
pub record Amounts : Type 1 where
  pub Amount : Type 0
  pub nought : Amount
  pub ten : Amount
  pub plus : Amount → Amount → Amount
  pub minus : Amount → Amount → Amount

-- What the body of a transaction reads and writes.
pub record Work (A : Type 0) : Type 0 where
  pub database : TpccDatabase A
  pub manager : ResourceManager
  pub trans : Transaction
  pub notices : List Notification

-- How a part of a body ends: it goes on, or the transaction has been aborted and `execute` is false.
pub data Ran (A X : Type 0) : Type 0 where
  done : X → Work A → Ran A X
  stopped : Work A → Ran A X
  fault : Ran A X

abbrev pub M : Type 0 → Type 0 → Type 0
M A X = Work A → Ran A X

module _ {A : Type 0} where
  abbrev pub after : {X Y : Type 0} → Ran A X → (X → M A Y) → Ran A Y
  after (done x k) f = f x k
  after (stopped k) f = stopped k
  after fault f = fault

  infixl 5 ◌>>=◌ ◌>>◌
  abbrev pub ◌>>=◌ : {X Y : Type 0} → M A X → (X → M A Y) → M A Y
  ◌>>=◌ m f k = after (m k) f

  abbrev pub ◌>>◌ : {Y : Type 0} → M A (Unit {0}) → M A Y → M A Y
  m >> f = m >>= λ _. f

  abbrev pub ret : {X : Type 0} → X → M A X
  ret x k = done x k

  abbrev pub need : {X : Type 0} → Option X → M A X
  need o k = elim o [ none ↦ fault | some x ↦ done x k ]

  abbrev pub read : M A (TpccDatabase A)
  read k = done k.database k

  abbrev pub write : TpccDatabase A → M A (Unit {0})
  write db k = done tt (record k { database = db })

  -- releaseAllLocks of a TPC-C transaction
  unfoldable pub release_locks : Work A → Work A
  release_locks k =
      let (rm, notices) = release_all_locks k.manager k.trans.id in
      record k {
        manager = rm;
        trans = record k.trans { acquired_locks = []; status = committed };
        notices = k.notices ++ notices;
      }

  -- abort of a TPC-C transaction
  unfoldable pub abort : Work A → Work A
  unfolding release_locks
  abort k =
      let released = release_locks k in
      record released { trans = record released.trans { status = aborted } }

  -- What acquireLock of a TPC-C transaction does with the answer, and `abort(); return false;`
  unfoldable pub on_answer :
      ResourceId → LockMode → Work A → ResourceManager × Bool → Ran A (Unit {0})
  unfolding abort
  on_answer r mode k (rm, true) = done tt (record k {
    manager = rm;
    trans = record k.trans { acquired_locks = Map.assign r mode k.trans.acquired_locks };
  })
  on_answer r mode k (rm, false) = stopped (
      abort (record k {
        manager = rm;
        trans = record k.trans { status = blocked; waiting_for_resource_id = r };
      }))

  -- `if (!acquireLock(...)) { abort(); return false; }`
  unfoldable pub lock : ResourceId → LockMode → M A (Unit {0})
  unfolding on_answer
  lock r mode k = on_answer r mode k (acquire_lock k.manager k.trans.id r mode)

  -- `releaseAllLocks(); return true;`
  unfoldable pub commit_locks : M A (Unit {0})
  unfolding release_locks
  commit_locks k = done tt (release_locks k)

  -- What `execute` answers, and what it leaves.
  abbrev pub answer : Ran A (Unit {0}) → Option (Bool × Work A)
  answer (done x k) = some (true, k)
  answer (stopped k) = some (false, k)
  answer fault = none

-- A row changed in place.
abbrev pub edit : {R : Type 0} → List R → ℕ → (R → R) → Option (List R)
edit [] i f = none
edit (r ∷ rs) zero f = some (f r ∷ rs)
edit (r ∷ rs) (suc i) f = elim (edit rs i f) [ none ↦ none | some rs' ↦ some (r ∷ rs') ]

-- The row of `v[before + id - 1]`.
abbrev pub edit_at : {R : Type 0} → List R → ℕ → ℕ → (R → R) → Option (List R)
edit_at rows before id f = if before + id == 0 then none else edit rows (before + id - 1) f

module _ (amounts : Amounts) where
  open amounts use {Amount, nought, ten, plus, minus}

  abbrev pub edit_warehouse : ℕ → (Warehouse Amount → Warehouse Amount) → M Amount (Unit {0})
  edit_warehouse w f = do
    db ← read
    rows ← need (edit_at db.warehouses 0 w f)
    write (record db { warehouses = rows })

  abbrev pub edit_district : ℕ → ℕ → (District Amount → District Amount) → M Amount (Unit {0})
  edit_district d w f = do
    db ← read
    rows ← need (edit_at db.districts ((w - 1) * 10) d f)
    write (record db { districts = rows })

  abbrev pub edit_customer : ℕ → ℕ → ℕ → (Customer Amount → Customer Amount) → M Amount (Unit {0})
  edit_customer c d w f = do
    db ← read
    rows ← need (edit_at db.customers ((w - 1) * 10 * 3000 + (d - 1) * 3000) c f)
    write (record db { customers = rows })

  abbrev pub edit_stock : ℕ → ℕ → (Stock → Stock) → M Amount (Unit {0})
  edit_stock i w f = do
    db ← read
    rows ← need (edit_at db.stocks ((w - 1) * 100000) i f)
    write (record db { stocks = rows })
