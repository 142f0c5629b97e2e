-- ===== src/Tpcc/Workload.antt =====
-- DistributedDBNode.cpp: tpccWorkloadLoop, which draws a transaction of TPC-C and adds it to those of
-- the node.
pub mod Tests
pub mod Bounds
use hawk_txn.Common.{
  ℕ, zero, suc, ◌+◌, ◌-◌, ◌*◌, Bool, true, false, Option, none, some, List, [], ◌∷◌, leb,
}
use hawk_txn.Types.{NodeId}
use hawk_txn.Transaction.{
  TransactionManager, add_tpcc_transaction, get_next_transaction_id, new_transaction,
}
use hawk_txn.Random.{Drawing, then_draw, ◌>>=◌, ret}
use hawk_txn.Tpcc.Draws.{
  Doubles, TpccRandom, warehouses_per_node, generate_random_int, generate_random_double,
  generate_c_id, generate_item_id, generate_random_warehouse_id,
}

-- What is drawn for the five constructors; an item comes with its quantity.
pub data TpccInput (A : Type 0) : Type 0 where
  new_order : ℕ → ℕ → ℕ → List (ℕ × ℕ) → TpccInput A
  payment : ℕ → ℕ → ℕ → ℕ → ℕ → A → TpccInput A
  order_status : ℕ → ℕ → ℕ → TpccInput A
  delivery : ℕ → ℕ → TpccInput A
  stock_level : ℕ → ℕ → ℕ → TpccInput A

abbrev pub local_warehouse_start_id : NodeId → ℕ
local_warehouse_start_id n = (n - 1) * warehouses_per_node + 1

abbrev pub local_warehouse_end_id : NodeId → ℕ
local_warehouse_end_id n = local_warehouse_start_id n + warehouses_per_node - 1

-- A warehouse of the node.
unfoldable pub draw_warehouse : NodeId → Drawing ℕ
draw_warehouse n = generate_random_int (local_warehouse_start_id n) (local_warehouse_end_id n)

-- The items of a new order.
unfoldable pub draw_items : ℕ → Drawing (List (ℕ × ℕ))
draw_items zero = ret []
draw_items (suc count) = do
  item_id ← generate_item_id
  quantity ← generate_random_int 1 10
  rest ← draw_items count
  ret ((item_id, quantity) ∷ rest)

-- The customer of a payment or an order status, 0 in 40 cases of 100.
unfoldable pub draw_customer : Drawing ℕ
draw_customer = do
  by_name ← generate_random_int 1 100
  elim (leb by_name 40) [ true ↦ ret 0 | false ↦ generate_c_id ]

module _ (doubles : Doubles) where
  open doubles use {Double, hundredths, less}

  unfoldable pub draw_new_order : NodeId → Drawing (TpccInput Double)
  draw_new_order n = do
    w_id ← draw_warehouse n
    d_id ← generate_random_int 1 10
    c_id ← generate_c_id
    num_items ← generate_random_int 5 15
    items ← draw_items num_items
    ret (new_order w_id d_id c_id items)

  -- The warehouse of the customer who pays.
  unfoldable pub draw_customer_warehouse : ℕ → NodeId → ℕ → Drawing ℕ
  draw_customer_warehouse fuel n w_id = do
    x ← generate_random_double doubles (hundredths 0) (hundredths 100)
    elim (less x (hundredths 15)) [
      | true ↦ generate_random_warehouse_id doubles fuel n
      | false ↦ ret w_id
    ]

  unfoldable pub draw_payment : ℕ → NodeId → Drawing (TpccInput Double)
  draw_payment fuel n = do
    w_id ← draw_warehouse n
    d_id ← generate_random_int 1 10
    c_w_id ← draw_customer_warehouse fuel n w_id
    c_d_id ← generate_random_int 1 10
    c_id ← draw_customer
    h_amount ← generate_random_double doubles (hundredths 100) (hundredths 500000)
    ret (payment w_id d_id c_w_id c_d_id c_id h_amount)

  unfoldable pub draw_order_status : NodeId → Drawing (TpccInput Double)
  draw_order_status n = do
    w_id ← draw_warehouse n
    d_id ← generate_random_int 1 10
    c_id ← draw_customer
    ret (order_status w_id d_id c_id)

  unfoldable pub draw_delivery : NodeId → Drawing (TpccInput Double)
  draw_delivery n = do
    w_id ← draw_warehouse n
    o_carrier_id ← generate_random_int 1 10
    ret (delivery w_id o_carrier_id)

  unfoldable pub draw_stock_level : NodeId → Drawing (TpccInput Double)
  draw_stock_level n = do
    w_id ← draw_warehouse n
    d_id ← generate_random_int 1 10
    threshold ← generate_random_int 10 20
    ret (stock_level w_id d_id threshold)

  -- The choice of a kind by the roll.
  unfoldable pub draw_kind : ℕ → NodeId → ℕ → Drawing (TpccInput Double)
  draw_kind fuel n roll = elim (leb roll 45) [
    | true ↦ draw_new_order n
    | false ↦ elim (leb roll 88) [
      | true ↦ draw_payment fuel n
      | false ↦ elim (leb roll 92) [
        | true ↦ draw_order_status n
        | false ↦ elim (leb roll 96) [ true ↦ draw_delivery n | false ↦ draw_stock_level n ]
      ]
    ]
  ]

  -- One turn of tpccWorkloadLoop: what is drawn, the engine, and the transactions with the new one.
  unfoldable pub add_workload :
      ℕ
      → NodeId
      → TransactionManager
      → TpccRandom
      → Option ((TpccInput Double × TransactionManager) × TpccRandom)
  unfolding get_next_transaction_id add_tpcc_transaction
  add_workload fuel n tm = do
    roll ← generate_random_int 1 100
    input ← draw_kind fuel n roll
    let (tm', t) = get_next_transaction_id tm
    ret (input, add_tpcc_transaction (new_transaction t n []) tm')
