-- ===== src/Tpcc/Reads.antt =====
-- tpcc_transaction.cpp: the transactions OrderStatus, Delivery and StockLevel.
use hawk_txn.Common.{
  ℕ, zero, suc, ◌+◌, Bool, ◌&&◌, Option, some, none, List, [], ◌∷◌, ◌++◌, ◌==◌, if◌then◌else◌, ltb,
  elem,
}
use mathlib.Core.List.{reverse}
use hawk_txn.Common.Int.{ℤ, lt_ℤ}
use hawk_txn.Types.{ResourceId, shared, exclusive}
use hawk_txn.Resource.{count_up}
use hawk_txn.Tpcc.Placement.{get_tpcc_resource_id}
use hawk_txn.Tpcc.Rows.{Order, NewOrder, OrderLine, get_district, get_stock}
use hawk_txn.Tpcc.Execute.{
  Amounts, M, ◌>>=◌, ◌>>◌, ret, need, read, write, lock, commit_locks, edit_customer,
}

-- The loop that finds the last order of a customer: the first one with the highest id.
unfoldable pub last_order : ℕ → ℕ → ℕ → List Order → Option Order → Option Order
last_order w d c [] best = best
last_order w d c (o ∷ os) best = last_order w d c os (
    if (o.o_w_id == w && o.o_d_id == d) && o.o_c_id == c
    then (elim best [ none ↦ some o | some b ↦ if ltb b.o_id o.o_id then some o else some b ])
    else best)

-- The loop that finds the oldest new order of a district: the first one with the lowest id.
unfoldable pub oldest_new_order : ℕ → ℕ → List NewOrder → Option NewOrder → Option NewOrder
oldest_new_order w d [] best = best
oldest_new_order w d (n ∷ ns) best = oldest_new_order w d ns (
    if n.no_w_id == w && n.no_d_id == d
    then (elim best [ none ↦ some n | some b ↦ if ltb n.no_o_id b.no_o_id then some n else some b ])
    else best)

-- The loop that finds the order of a new order.
unfoldable pub order_of : NewOrder → List Order → Option Order
order_of n [] = none
order_of n (o ∷ os) =
    if (o.o_id == n.no_o_id && o.o_d_id == n.no_d_id) && o.o_w_id == n.no_w_id
    then some o
    else order_of n os

-- `order->o_carrier_id = …` on that order.
unfoldable pub set_carrier : NewOrder → ℕ → List Order → List Order
set_carrier n carrier [] = []
set_carrier n carrier (o ∷ os) =
    if (o.o_id == n.no_o_id && o.o_d_id == n.no_d_id) && o.o_w_id == n.no_w_id
    then (record o { o_carrier_id = carrier }) ∷ os
    else o ∷ set_carrier n carrier os

-- The ids of the orders of a district, sorted.
unfoldable pub insert_id : ℕ → List ℕ → List ℕ
insert_id x [] = x ∷ []
insert_id x (y ∷ ys) = if ltb y x then y ∷ insert_id x ys else x ∷ y ∷ ys

unfoldable pub district_order_ids : ℕ → ℕ → List Order → List ℕ
unfolding insert_id
district_order_ids w d [] = []
district_order_ids w d (o ∷ os) =
    let ids = district_order_ids w d os in
    if o.o_w_id == w && o.o_d_id == d then insert_id o.o_id ids else ids

abbrev pub take_ids : ℕ → List ℕ → List ℕ
take_ids zero xs = []
take_ids (suc n) [] = []
take_ids (suc n) (x ∷ xs) = x ∷ take_ids n xs

-- The highest 20 of them, the highest first.
unfoldable pub last_20_o_ids : ℕ → ℕ → List Order → List ℕ
unfolding district_order_ids
last_20_o_ids w d orders = take_ids 20 (reverse (district_order_ids w d orders))

-- A set of items as a list without repetitions.
abbrev pub insert_item : ℕ → List ℕ → List ℕ
insert_item i is = if elem i is then is else i ∷ is

module _ (amounts : Amounts) where
  open amounts use {Amount, nought, ten, plus, minus}

  abbrev pub is_line_of : ℕ → ℕ → ℕ → OrderLine Amount → Bool
  is_line_of w d o l = (l.ol_o_id == o && l.ol_d_id == d) && l.ol_w_id == w

  abbrev pub line_resource : OrderLine Amount → ResourceId
  line_resource l = get_tpcc_resource_id "ORDER_LINE" l.ol_w_id l.ol_d_id 0 0 l.ol_o_id l.ol_number

  -- The loop of OrderStatus over the order lines.
  unfoldable pub lock_lines : Order → List (OrderLine Amount) → M Amount (Unit {0})
  unfolding lock get_tpcc_resource_id
  lock_lines o [] = ret tt
  lock_lines o (l ∷ ls) =
      (if is_line_of o.o_w_id o.o_d_id o.o_id l then lock (line_resource l) shared else ret tt)
      >> lock_lines o ls

  -- TPCCOrderStatusTransaction::execute
  unfoldable pub order_status : ℕ → ℕ → ℕ → M Amount (Unit {0})
  unfolding lock last_order lock_lines commit_locks get_tpcc_resource_id
  order_status w d c = do
    lock (get_tpcc_resource_id "CUSTOMER" w d c 0 0 0) shared
    db ← read
    elim (last_order w d c db.orders none) [
      | none ↦ commit_locks
      | some o ↦ do
        lock (get_tpcc_resource_id "ORDER" o.o_w_id o.o_d_id 0 0 o.o_id 0) shared
        lock_lines o db.order_lines
        commit_locks
    ]

  -- The loop of Delivery over the order lines, from the one after `before` on.
  unfoldable pub deliver_lines :
      NewOrder → ℕ → List (OrderLine Amount) → List (OrderLine Amount) → Amount → M Amount Amount
  unfolding lock get_tpcc_resource_id
  deliver_lines n now before [] total = ret total
  deliver_lines n now before (l ∷ ls) total =
      let l' : OrderLine Amount = record l { ol_delivery_d = now } in
      let rest = deliver_lines n now (before ++ l' ∷ []) ls (plus total l.ol_amount) in
      let others = deliver_lines n now (before ++ l ∷ []) ls total in
      if is_line_of n.no_w_id n.no_d_id n.no_o_id l
      then (do
        lock (line_resource l) exclusive
        db ← read
        write (record db { order_lines = before ++ l' ∷ ls })
        rest)
      else others

  -- The customer of the order, if there is one.
  unfoldable pub credit_customer : Option Order → Amount → M Amount (Unit {0})
  unfolding lock get_tpcc_resource_id
  credit_customer none total = ret tt
  credit_customer (some o) total = do
    lock (get_tpcc_resource_id "CUSTOMER" o.o_w_id o.o_d_id o.o_c_id 0 0 0) exclusive
    edit_customer amounts o.o_c_id o.o_d_id o.o_w_id (λ c. record c {
      c_balance = plus c.c_balance total;
      c_delivery_cnt = c.c_delivery_cnt + 1;
    })

  -- One district of Delivery.
  unfoldable pub deliver_order : ℕ → ℕ → NewOrder → M Amount (Unit {0})
  unfolding lock order_of set_carrier deliver_lines credit_customer get_tpcc_resource_id
  deliver_order carrier now n = do
    lock (get_tpcc_resource_id "NEW_ORDER" n.no_w_id n.no_d_id 0 0 n.no_o_id 0) exclusive
    lock (get_tpcc_resource_id "ORDER" n.no_w_id n.no_d_id 0 0 n.no_o_id 0) exclusive
    db ← read
    write (record db { orders = set_carrier n carrier db.orders })
    total ← deliver_lines n now [] db.order_lines nought
    credit_customer (order_of n db.orders) total

  unfoldable pub deliver_districts : ℕ → ℕ → ℕ → List ℕ → M Amount (Unit {0})
  unfolding oldest_new_order deliver_order
  deliver_districts w carrier now [] = ret tt
  deliver_districts w carrier now (d ∷ ds) = do
    db ← read
    elim (oldest_new_order w d db.new_orders none) [
      | none ↦ ret tt
      | some n ↦ deliver_order carrier now n
    ]
    deliver_districts w carrier now ds

  -- TPCCDeliveryTransaction::execute
  unfoldable pub deliver : ℕ → ℕ → ℕ → M Amount (Unit {0})
  unfolding deliver_districts count_up commit_locks
  deliver w carrier now = do deliver_districts w carrier now (count_up 10 1); commit_locks

  -- The inner loop of StockLevel, with the items found low so far.
  unfoldable pub check_lines : ℕ → ℕ → ℕ → ℤ → List (OrderLine Amount) → List ℕ → M Amount (List ℕ)
  unfolding lock get_stock get_tpcc_resource_id
  check_lines w d o threshold [] low = ret low
  check_lines w d o threshold (l ∷ ls) low = do
    low' ←
        (if is_line_of w d o l
          then (do
            lock (get_tpcc_resource_id "STOCK" l.ol_supply_w_id 0 0 l.ol_i_id 0 0) shared
            db ← read
            stock ← need (get_stock db l.ol_i_id l.ol_supply_w_id)
            ret (if lt_ℤ stock.s_quantity threshold then insert_item l.ol_i_id low else low))
          else ret low)
    check_lines w d o threshold ls low'

  unfoldable pub check_orders :
      ℕ → ℕ → ℤ → List (OrderLine Amount) → List ℕ → List ℕ → M Amount (List ℕ)
  unfolding check_lines
  check_orders w d threshold lines [] low = ret low
  check_orders w d threshold lines (o ∷ os) low = do
    low' ← check_lines w d o threshold lines low
    check_orders w d threshold lines os low'

  -- TPCCStockLevelTransaction::execute
  unfoldable pub stock_level : ℕ → ℕ → ℤ → M Amount (Unit {0})
  unfolding lock check_orders last_20_o_ids get_district commit_locks get_tpcc_resource_id
  stock_level w d threshold = do
    lock (get_tpcc_resource_id "DISTRICT" w d 0 0 0 0) shared
    db ← read
    district ← need (get_district db d w)
    low ← check_orders w d threshold db.order_lines (last_20_o_ids w d db.orders) []
    commit_locks
