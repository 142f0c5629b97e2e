-- ===== src/Tpcc/Tests.antt =====
-- A database with one warehouse, and ids of rows, for tpcc_transaction.cpp.
use hawk_txn.Common.{
  ℕ, ◌+◌, ◌-◌, ◌*◌, ◌/◌, ◌%◌, ◌≤◌, ◌<◌, ◌≡◌, ◌↔◌, true, false, some, none, [], ◌∷◌, arith, All,
}
use hawk_txn.Common.Int.{pos}
use hawk_txn.Resource
use hawk_txn.Resource.{count_up}
use hawk_txn.Transaction.{new_transaction}
use hawk_txn.Tpcc.Placement.{get_tpcc_resource_id}
use hawk_txn.Tpcc.Ranges.{tables, rows_apart, rows_meet, ids_fit_int}
use hawk_txn.Tpcc.Rows.{Stock, TpccDatabase}
use hawk_txn.Tpcc.Execute.{Amounts, Work, answer, commit_locks}
use hawk_txn.Tpcc.Execute
use hawk_txn.Tpcc.Updates.{NewOrderInput, PaymentInput, new_order, payment}
use hawk_txn.Tpcc.Reads.{order_status, deliver, stock_level}
use hawk_txn.Tpcc.Refused.{aborted_at, first_new_order, new_order_resource, all_refused}

-- Amounts in cents.
abbrev cents : Amounts
cents = record { Amount = ℕ; nought = 0; ten = 1000; plus = λ a b. a + b; minus = λ a b. a - b }

abbrev small : TpccDatabase ℕ
small = record {
  warehouses = [];
  districts = [];
  customers = [];
  histories = [];
  orders = [];
  new_orders = record { no_o_id = 7; no_d_id = 2; no_w_id = 1 } ∷ [];
  order_lines = [];
  items = [];
  stocks = [];
}

abbrev work : Work ℕ
work = record {
  database = small;
  manager = Resource.init 1;
  trans = new_transaction 1 1 [];
  notices = [];
}

abbrev order : NewOrderInput
order = record { w_id = 1; d_id = 2; c_id = 3; item_info = (4, none) ∷ []; now = 5 }

abbrev pays : PaymentInput ℕ
pays = record { w_id = 1; d_id = 2; c_w_id = 1; c_d_id = 2; c_id = 3; h_amount = 500; now = 5 }

node_1 : (Resource.init 1).node_id ≤ 128
unfolding Resource.init
node_1 = omega arith

all_refused_example :
    (answer (new_order cents order work)
      ≡ some (false, aborted_at (get_tpcc_resource_id "WAREHOUSE" 1 0 0 0 0 0) work))
    × (answer (payment cents pays work)
        ≡ some (false, aborted_at (get_tpcc_resource_id "WAREHOUSE" 1 0 0 0 0 0) work))
    × (answer (order_status cents 1 2 3 work)
        ≡ some (false, aborted_at (get_tpcc_resource_id "CUSTOMER" 1 2 3 0 0 0) work))
    × (answer (stock_level cents 1 2 (pos 15) work)
        ≡ some (false, aborted_at (get_tpcc_resource_id "DISTRICT" 1 2 0 0 0 0) work))
    × (answer (deliver cents 1 4 5 work)
        ≡ (elim (first_new_order 1 small.new_orders (count_up 10 1)) [
          | none ↦ some (true, Execute.release_locks work)
          | some n ↦ some (false, aborted_at (new_order_resource n) work)
        ]))
all_refused_example = all_refused cents work order pays 1 2 3 4 5 (pos 15) node_1

rows_apart_example :
    ((get_tpcc_resource_id "CUSTOMER" 1 2 3 0 0 0 ≡ get_tpcc_resource_id "CUSTOMER" 1 3 2 0 0 0)
      ↔ ((◌≡◌ {A = ℕ} 1 1) × (◌≡◌ {A = ℕ} 2 3) × (◌≡◌ {A = ℕ} 3 2)))
    × ((get_tpcc_resource_id "STOCK" 1 0 0 6 0 0 ≡ get_tpcc_resource_id "STOCK" 1 0 0 6 0 0)
        ↔ ((◌≡◌ {A = ℕ} 1 1) × (◌≡◌ {A = ℕ} 6 6)))
    × ((get_tpcc_resource_id "ORDER_LINE" 1 2 0 0 4 5
          ≡ get_tpcc_resource_id "ORDER_LINE" 1 3 0 0 4 5)
        ↔ ((◌≡◌ {A = ℕ} 1 1) × (◌≡◌ {A = ℕ} 2 3) × (◌≡◌ {A = ℕ} 4 4) × (◌≡◌ {A = ℕ} 5 5)))
rows_apart_example =
    rows_apart 1 2 3 4 5 6 1 3 2 4 5 6 (omega arith) (omega arith) (omega arith) (omega arith)
      (omega arith) (omega arith) (omega arith)

rows_meet_example :
    (get_tpcc_resource_id "STOCK" (1 + 10) 0 0 5 0 0
      ≡ get_tpcc_resource_id "ORDER"
          (((1 - 1) * 100000 + 5 - 1) / 30000 + 1)
          (((1 - 1) * 100000 + 5 - 1) % 30000 / 3000 + 1)
          0
          0
          (((1 - 1) * 100000 + 5 - 1) % 3000 + 1)
          0)
    × (get_tpcc_resource_id "ORDER" 1 2 0 0 (1 + 3000) 0
        ≡ get_tpcc_resource_id "ORDER" 1 (2 + 1) 0 0 1 0)
    × (get_tpcc_resource_id "NEW_ORDER" 1 2 0 0 (1 + 900) 0
        ≡ get_tpcc_resource_id "NEW_ORDER" 1 (2 + 1) 0 0 1 0)
rows_meet_example = rows_meet 1 2 1 5 (omega arith) (omega arith) (omega arith)

ids_fit_int_example :
    All (λ table. get_tpcc_resource_id table 1280 10 3000 100000 45000 15 < 2147483648) tables
ids_fit_int_example =
    ids_fit_int 1280 10 3000 100000 45000 15 (omega arith) (omega arith) (omega arith) (omega arith)
      (omega arith) (omega arith)

abbrev shelf : Stock
shelf = record {
  s_i_id = 1;
  s_w_id = 1;
  s_quantity = pos 12;
  s_dist_01 = "";
  s_dist_02 = "";
  s_dist_03 = "";
  s_dist_04 = "";
  s_dist_05 = "";
  s_dist_06 = "";
  s_dist_07 = "";
  s_dist_08 = "";
  s_dist_09 = "";
  s_dist_10 = "";
  s_ytd = 0;
  s_order_cnt = 0;
  s_remote_cnt = 0;
  s_data = "";
}
