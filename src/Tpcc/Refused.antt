-- ===== src/Tpcc/Refused.antt =====
-- What the transactions of tpcc_transaction.cpp come to on the nodes of the system.
use hawk_txn.Common.{
  ℕ, ◌≤◌, ◌<◌, ◌≡◌, refl, true, false, Option, some, none, List, [], ◌∷◌, ◌++◌, ◌==◌, arith,
  Option-cases, inl, inr, ap, ◌∙◌,
}
use hawk_txn.Common.Int.{ℤ}
use hawk_txn.Types.{TransactionId, ResourceId, LockMode, exclusive, num_nodes, get_owner_node_id}
use hawk_txn.Resource.{ResourceManager, acquire_lock, release_all_locks, count_up}
use hawk_txn.Transaction.{aborted}
use hawk_txn.Tpcc.Placement.{get_tpcc_resource_id}
use hawk_txn.Tpcc.Rows.{NewOrder}
use hawk_txn.Tpcc.Ranges.{rows_beyond_nodes}
use hawk_txn.Tpcc.Execute.{
  Amounts, Work, done, stopped, M, after, ◌>>◌, answer, on_answer, lock, abort, release_locks,
  commit_locks,
}
use hawk_txn.Tpcc.Updates.{NewOrderInput, PaymentInput, new_order, payment}
use hawk_txn.Tpcc.Reads.{
  oldest_new_order, order_status, deliver_order, deliver_districts, deliver, stock_level,
}

-- The transaction has been aborted at its request for a resource: its locks are released, and the
-- database is as it was.
abbrev pub aborted_at : {A : Type 0} → ResourceId → Work A → Work A
aborted_at r k =
    let (rm, notices) = release_all_locks k.manager k.trans.id in
    record {
      database = k.database;
      manager = rm;
      trans = record k.trans { status = aborted; acquired_locks = []; waiting_for_resource_id = r };
      notices = k.notices ++ notices;
    }

foreign_refused :
    (rm : ResourceManager) (t : TransactionId) (r : ResourceId) (mode : LockMode)
    → rm.node_id ≤ num_nodes
    → num_nodes < get_owner_node_id r
    → acquire_lock rm t r mode ≡ (rm, false)
unfolding acquire_lock
foreign_refused rm t r mode node beyond =
    let foreign : (get_owner_node_id r == rm.node_id) ≡ false = ground (arith, node, beyond) in
    rw foreign refl

lock_refused :
    {A : Type 0} (r : ResourceId) (mode : LockMode) (k : Work A)
    → k.manager.node_id ≤ num_nodes
    → num_nodes < get_owner_node_id r
    → lock r mode k ≡ stopped (aborted_at r k)
unfolding lock on_answer abort release_locks
lock_refused r mode k node beyond =
    ap (on_answer r mode k) (foreign_refused k.manager k.trans.id r mode node beyond)

-- The first new order that Delivery looks at.
abbrev pub first_new_order : ℕ → List NewOrder → List ℕ → Option NewOrder
first_new_order w ns [] = none
first_new_order w ns (d ∷ ds) = elim (oldest_new_order w d ns none) [
  | none ↦ first_new_order w ns ds
  | some n ↦ some n
]

abbrev pub new_order_resource : NewOrder → ResourceId
new_order_resource n = get_tpcc_resource_id "NEW_ORDER" n.no_w_id n.no_d_id 0 0 n.no_o_id 0

module _ (amounts : Amounts) (k : Work amounts.Amount) (node : k.manager.node_id ≤ num_nodes) where
  refused_first :
      {X : Type 0} (r : ResourceId) (mode : LockMode) (body : M amounts.Amount X)
      → num_nodes < get_owner_node_id r
      → (lock r mode >> body) k ≡ stopped (aborted_at r k)
  refused_first r mode body beyond =
      ap (λ x. after x (λ _. body)) (lock_refused r mode k node beyond)

  order_refused :
      (carrier now : ℕ) (n : NewOrder)
      → deliver_order amounts carrier now n k ≡ stopped (aborted_at (new_order_resource n) k)
  unfolding deliver_order
  order_refused carrier now n =
      refused_first (new_order_resource n) exclusive _
        (rows_beyond_nodes n.no_w_id n.no_d_id 0 0 n.no_o_id 0).1.1.1.1.1.1.0

  districts_refused :
      (w carrier now : ℕ) (ds : List ℕ)
      → deliver_districts amounts w carrier now ds k
        ≡ (elim (first_new_order w k.database.new_orders ds) [
          | none ↦ done tt k
          | some n ↦ stopped (aborted_at (new_order_resource n) k)
        ])
  unfolding deliver_districts deliver_order
  districts_refused w carrier now [] = refl
  districts_refused w carrier now (d ∷ ds) =
      elim (Option-cases (oldest_new_order w d k.database.new_orders none)) [
        | inl none_left ↦ rw (none_left, deliver_districts) (districts_refused w carrier now ds)
        | inr (n, found) ↦
            rw (found, deliver_districts)
              (ap (λ x. after x (λ _. deliver_districts amounts w carrier now ds))
                (order_refused carrier now n))
      ]

  delivery_refused :
      (w carrier now : ℕ)
      → answer (deliver amounts w carrier now k)
        ≡ (elim (first_new_order w k.database.new_orders (count_up 10 1)) [
          | none ↦ some (true, release_locks k)
          | some n ↦ some (false, aborted_at (new_order_resource n) k)
        ])
  unfolding deliver commit_locks
  delivery_refused w carrier now =
      ap (λ x. answer (after x (λ _. commit_locks)))
        (districts_refused w carrier now (count_up 10 1))
      ∙ (elim (Option-cases (first_new_order w k.database.new_orders (count_up 10 1))) [
        | inl none_left ↦ rw none_left refl
        | inr (n, found) ↦ rw found refl
      ])

-- On every node of the system and whatever the locks, a TPC-C transaction is aborted, with its locks
-- released and the database as it was, at the first row that it asks for: NewOrder and Payment at
-- their warehouse, OrderStatus at its customer, StockLevel at its district, and Delivery at the
-- oldest new order of the first district of the warehouse that has one; if none has one, Delivery
-- commits and changes nothing but its locks.
pub all_refused :
    (amounts : Amounts) (k : Work amounts.Amount) (new : NewOrderInput)
    (pay : PaymentInput amounts.Amount) (w d c carrier now : ℕ) (threshold : ℤ)
    → k.manager.node_id ≤ num_nodes
    → (answer (new_order amounts new k)
        ≡ some (false, aborted_at (get_tpcc_resource_id "WAREHOUSE" new.w_id 0 0 0 0 0) k))
      × (answer (payment amounts pay k)
          ≡ some (false, aborted_at (get_tpcc_resource_id "WAREHOUSE" pay.w_id 0 0 0 0 0) k))
      × (answer (order_status amounts w d c k)
          ≡ some (false, aborted_at (get_tpcc_resource_id "CUSTOMER" w d c 0 0 0) k))
      × (answer (stock_level amounts w d threshold k)
          ≡ some (false, aborted_at (get_tpcc_resource_id "DISTRICT" w d 0 0 0 0) k))
      × (answer (deliver amounts w carrier now k)
          ≡ (elim (first_new_order w k.database.new_orders (count_up 10 1)) [
            | none ↦ some (true, release_locks k)
            | some n ↦ some (false, aborted_at (new_order_resource n) k)
          ]))
unfolding new_order payment order_status stock_level
all_refused amounts k new pay w d c carrier now threshold node = (
  ap answer (refused_first amounts k node _ _ _ (rows_beyond_nodes new.w_id 0 0 0 0 0).0),
  ap answer (refused_first amounts k node _ _ _ (rows_beyond_nodes pay.w_id 0 0 0 0 0).0),
  ap answer (refused_first amounts k node _ _ _ (rows_beyond_nodes w d c 0 0 0).1.1.0),
  ap answer (refused_first amounts k node _ _ _ (rows_beyond_nodes w d 0 0 0 0).1.0),
  delivery_refused amounts k node w carrier now,
)
