-- ===== src/Tpcc/Updates.antt =====
-- tpcc_transaction.cpp: the transactions NewOrder and Payment.
use hawk_txn.Common.{ℕ, ◌+◌, Option, some, none, List, [], ◌∷◌, ◌++◌, if◌then◌else◌, length}
use hawk_txn.Common.Int.{pos, ◌+ℤ◌, ◌-ℤ◌, lt_ℤ}
use hawk_txn.Types.{shared, exclusive}
use hawk_txn.Tpcc.Placement.{get_tpcc_resource_id}
use hawk_txn.Tpcc.Rows.{Stock, get_district}
use hawk_txn.Tpcc.Execute.{
  Amounts, M, ◌>>=◌, ◌>>◌, ret, need, read, write, lock, commit_locks, edit_warehouse,
  edit_district, edit_customer, edit_stock,
}

-- The fields of TPCCNewOrderTransaction; of an item the id, since its quantity is not read, and with it
-- the warehouse drawn for its supply, if the draw is for a random one.
pub record NewOrderInput : Type 0 where
  pub w_id : ℕ
  pub d_id : ℕ
  pub c_id : ℕ
  pub item_info : List (ℕ × Option ℕ)
  pub now : ℕ

-- The fields of TPCCPaymentTransaction, but for `by_last_name_`, which is false.
pub record PaymentInput (A : Type 0) : Type 0 where
  pub w_id : ℕ
  pub d_id : ℕ
  pub c_w_id : ℕ
  pub c_d_id : ℕ
  pub c_id : ℕ
  pub h_amount : A
  pub now : ℕ

-- What an order line takes from the stock.
unfoldable pub take_stock : Stock → Stock
unfolding ◌+ℤ◌ ◌-ℤ◌
take_stock s =
    let left = s.s_quantity -ℤ pos 5 in
    record s {
      s_quantity = if lt_ℤ left (pos 10) then left +ℤ pos 100 else left;
      s_ytd = s.s_ytd + 5;
      s_order_cnt = s.s_order_cnt + 1;
    }

module _ (amounts : Amounts) where
  open amounts use {Amount, nought, ten, plus, minus}

  -- One turn of the loop over the items, the line's number being `number`.
  unfoldable pub order_item : NewOrderInput → ℕ → ℕ → ℕ × Option ℕ → Amount → M Amount Amount
  unfolding lock take_stock get_tpcc_resource_id
  order_item p o_id number (item, drawn) total = do
    let supply_w_id : ℕ = elim drawn [ none ↦ p.w_id | some w ↦ w ]
    lock (get_tpcc_resource_id "ITEM" 0 0 0 item 0 0) shared
    lock (get_tpcc_resource_id "STOCK" supply_w_id 0 0 item 0 0) exclusive
    edit_stock amounts item supply_w_id take_stock
    lock (get_tpcc_resource_id "ORDER_LINE" p.w_id p.d_id 0 0 o_id number) exclusive
    db ← read
    write (record db {
      order_lines =
          db.order_lines
          ++ (record {
            ol_o_id = o_id;
            ol_d_id = p.d_id;
            ol_w_id = p.w_id;
            ol_number = number;
            ol_i_id = item;
            ol_supply_w_id = supply_w_id;
            ol_quantity = 5;
            ol_amount = ten;
            ol_delivery_d = 0;
            ol_dist_info = "some_dist_info";
          })
            ∷ [];
    })
    ret (plus total ten)

  unfoldable pub order_items :
      NewOrderInput → ℕ → ℕ → List (ℕ × Option ℕ) → Amount → M Amount Amount
  unfolding order_item
  order_items p o_id number [] total = ret total
  order_items p o_id number (item ∷ items) total = do
    total' ← order_item p o_id number item total
    order_items p o_id (number + 1) items total'

  -- TPCCNewOrderTransaction::execute
  unfoldable pub new_order : NewOrderInput → M Amount (Unit {0})
  unfolding lock order_items commit_locks get_district get_tpcc_resource_id
  new_order p = do
    lock (get_tpcc_resource_id "WAREHOUSE" p.w_id 0 0 0 0 0) exclusive
    lock (get_tpcc_resource_id "DISTRICT" p.w_id p.d_id 0 0 0 0) exclusive
    db ← read
    district ← need (get_district db p.d_id p.w_id)
    let o_id = district.d_next_o_id
    edit_district amounts p.d_id p.w_id (λ d. record d { d_next_o_id = d.d_next_o_id + 1 })
    lock (get_tpcc_resource_id "CUSTOMER" p.w_id p.d_id p.c_id 0 0 0) shared
    lock (get_tpcc_resource_id "ORDER" p.w_id p.d_id 0 0 o_id 0) exclusive
    lock (get_tpcc_resource_id "NEW_ORDER" p.w_id p.d_id 0 0 o_id 0) exclusive
    db' ← read
    write (record db' {
      orders =
          db'.orders
          ++ (record {
            o_id = o_id;
            o_d_id = p.d_id;
            o_w_id = p.w_id;
            o_c_id = p.c_id;
            o_entry_d = p.now;
            o_carrier_id = 0;
            o_ol_cnt = length p.item_info;
            o_all_local = 1;
          })
            ∷ [];
      new_orders =
          db'.new_orders ++ (record { no_o_id = o_id; no_d_id = p.d_id; no_w_id = p.w_id }) ∷ [];
    })
    total ← order_items p o_id 1 p.item_info nought
    edit_warehouse amounts p.w_id (λ w. record w { w_ytd = plus w.w_ytd total })
    commit_locks

  -- TPCCPaymentTransaction::execute
  unfoldable pub payment : PaymentInput Amount → M Amount (Unit {0})
  unfolding lock commit_locks get_tpcc_resource_id
  payment p = do
    lock (get_tpcc_resource_id "WAREHOUSE" p.w_id 0 0 0 0 0) exclusive
    edit_warehouse amounts p.w_id (λ w. record w { w_ytd = plus w.w_ytd p.h_amount })
    lock (get_tpcc_resource_id "DISTRICT" p.w_id p.d_id 0 0 0 0) exclusive
    edit_district amounts p.d_id p.w_id (λ d. record d { d_ytd = plus d.d_ytd p.h_amount })
    lock (get_tpcc_resource_id "CUSTOMER" p.c_w_id p.c_d_id p.c_id 0 0 0) exclusive
    edit_customer amounts p.c_id p.c_d_id p.c_w_id (λ c. record c {
      c_balance = minus c.c_balance p.h_amount;
      c_ytd_payment = plus c.c_ytd_payment p.h_amount;
      c_payment_cnt = c.c_payment_cnt + 1;
    })
    lock (get_tpcc_resource_id "HISTORY" p.w_id p.d_id p.c_id 0 0 0) exclusive
    db ← read
    write (record db {
      histories =
          db.histories
          ++ (record {
            h_c_id = p.c_id;
            h_c_d_id = p.c_d_id;
            h_c_w_id = p.c_w_id;
            h_d_id = p.d_id;
            h_w_id = p.w_id;
            h_date = p.now;
            h_amount = p.h_amount;
            h_data = "some_history_data";
          })
            ∷ [];
    })
    commit_locks
