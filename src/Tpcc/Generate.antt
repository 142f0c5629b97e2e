-- ===== src/Tpcc/Generate.antt =====
-- tpcc_data_generator.cpp: the rows that a node starts with. The time is a function of the draws made so
-- far. The shuffle of the standard library takes the elements out one after the other, each drawn from those left.
pub mod Shuffle
pub mod Ordered
pub mod Orders
pub mod Tests
pub mod Tables
use Prim.Native.String.{String}
use hawk_txn.Common.{
  ℕ, zero, suc, ◌+◌, ◌-◌, ◌*◌, Bool, true, false, Option, none, some, List, [], ◌∷◌, ◌++◌, leb, ltb,
  length,
}
use hawk_txn.Common.Int.{pos}
use hawk_txn.Resource.{count_up}
use hawk_txn.Tpcc.Rows.{
  Warehouse, District, Customer, History, Order, NewOrder, OrderLine, Item, Stock, TpccDatabase,
}
use hawk_txn.Random.{Drawing, then_draw, ◌>>=◌, ret}
use hawk_txn.Tpcc.Draws.{Doubles, TpccRandom, generate_random_int, generate_random_double}
use hawk_txn.Tpcc.Texts.{
  need, generate_a_string, generate_n_string, generate_last_name, generate_street, generate_city,
  generate_state, generate_zip, mark_original,
}
use hawk_txn.Tpcc.Execute.{edit_at}

-- `v.resize(n)` of an empty vector
abbrev pub copies : {X : Type 0} → ℕ → X → List X
copies zero x = []
copies (suc n) x = x ∷ copies n x

-- A loop whose body changes the database.
abbrev pub each : {X D : Type 0} → List X → (X → D → Drawing D) → D → Drawing D
each [] f db = ret db
each (x ∷ xs) f db = do db' ← f x db; each xs f db'

-- The element at a position, and the list without it.
abbrev pub take_out : ℕ → List ℕ → Option (ℕ × List ℕ)
take_out i [] = none
take_out zero (x ∷ xs) = some (x, xs)
take_out (suc i) (x ∷ xs) = elim (take_out i xs) [ none ↦ none | some (y, ys) ↦ some (y, x ∷ ys) ]

-- std::shuffle of `count` elements
unfoldable pub shuffle : ℕ → List ℕ → Drawing (List ℕ)
shuffle zero xs = ret []
shuffle (suc count) xs = do
  i ← generate_random_int 0 count
  (x, rest) ← need (take_out i xs)
  shuffled ← shuffle count rest
  ret (x ∷ shuffled)

abbrev pub blank_stock : Stock
blank_stock = record {
  s_i_id = 0;
  s_w_id = 0;
  s_quantity = pos 0;
  s_dist_01 = "";
  s_dist_02 = "";
  s_dist_03 = "";
  s_dist_04 = "";
  s_dist_05 = "";
  s_dist_06 = "";
  s_dist_07 = "";
  s_dist_08 = "";
  s_dist_09 = "";
  s_dist_10 = "";
  s_ytd = 0;
  s_order_cnt = 0;
  s_remote_cnt = 0;
  s_data = "";
}

module _ (doubles : Doubles) (clock : ℕ → ℕ) where
  open doubles use {Double, hundredths, negated}

  abbrev pub Database : Type 0
  Database = TpccDatabase Double

  abbrev pub blank_warehouse : Warehouse Double
  blank_warehouse = record {
    w_id = 0;
    w_name = "";
    w_street_1 = "";
    w_street_2 = "";
    w_city = "";
    w_state = "";
    w_zip = "";
    w_tax = hundredths 0;
    w_ytd = hundredths 0;
  }

  abbrev pub blank_district : District Double
  blank_district = record {
    d_id = 0;
    d_w_id = 0;
    d_name = "";
    d_street_1 = "";
    d_street_2 = "";
    d_city = "";
    d_state = "";
    d_zip = "";
    d_tax = hundredths 0;
    d_ytd = hundredths 0;
    d_next_o_id = 0;
  }

  abbrev pub blank_customer : Customer Double
  blank_customer = record {
    c_id = 0;
    c_d_id = 0;
    c_w_id = 0;
    c_first = "";
    c_middle = "";
    c_last = "";
    c_street_1 = "";
    c_street_2 = "";
    c_city = "";
    c_state = "";
    c_zip = "";
    c_phone = "";
    c_since = 0;
    c_credit = "";
    c_credit_lim = hundredths 0;
    c_discount = hundredths 0;
    c_balance = hundredths 0;
    c_ytd_payment = hundredths 0;
    c_payment_cnt = 0;
    c_delivery_cnt = 0;
    c_data = "";
  }

  abbrev pub blank_item : Item Double
  blank_item = record { i_id = 0; i_im_id = 0; i_name = ""; i_price = hundredths 0; i_data = "" }

  -- getCurrentTimestamp
  unfoldable pub get_current_timestamp : Drawing ℕ
  get_current_timestamp g = some (clock g.taken, g)

  -- One turn of the loop over the lines of an order.
  unfoldable pub generate_order_line : ℕ → ℕ → ℕ → ℕ → Database → Drawing Database
  generate_order_line w_id d_id o_id number db = do
    i_id ← generate_random_int 1 100000
    amount ← generate_random_double doubles (hundredths 1) (hundredths 999999)
    dist_info ← generate_a_string 24 24
    delivery_d ← elim (leb o_id 2100) [ true ↦ get_current_timestamp | false ↦ ret 0 ]
    ret (record db {
      order_lines =
          db.order_lines
          ++ (record {
            ol_o_id = o_id;
            ol_d_id = d_id;
            ol_w_id = w_id;
            ol_number = number;
            ol_i_id = i_id;
            ol_supply_w_id = w_id;
            ol_quantity = 5;
            ol_amount = amount;
            ol_delivery_d = delivery_d;
            ol_dist_info = dist_info;
          })
            ∷ [];
    })

  -- One turn of the loop over the orders, for the customer at its place among those shuffled.
  unfoldable pub generate_order : ℕ → ℕ → ℕ → ℕ → Database → Drawing Database
  generate_order w_id d_id o_id c_id db = do
    entry_d ← get_current_timestamp
    ol_cnt ← generate_random_int 5 15
    carrier_id ← elim (leb o_id 2100) [ true ↦ generate_random_int 1 10 | false ↦ ret 0 ]
    each (count_up ol_cnt 1) (generate_order_line w_id d_id o_id) (record db {
      orders =
          db.orders
          ++ (record {
            o_id = o_id;
            o_d_id = d_id;
            o_w_id = w_id;
            o_c_id = c_id;
            o_entry_d = entry_d;
            o_carrier_id = carrier_id;
            o_ol_cnt = ol_cnt;
            o_all_local = 1;
          })
            ∷ [];
      new_orders = elim (leb o_id 2100) [
        | true ↦ db.new_orders
        | false ↦ db.new_orders ++ (record { no_o_id = o_id; no_d_id = d_id; no_w_id = w_id }) ∷ []
      ];
    })

  unfoldable pub generate_orders_from : ℕ → ℕ → ℕ → List ℕ → Database → Drawing Database
  generate_orders_from w_id d_id o_id [] db = ret db
  generate_orders_from w_id d_id o_id (c_id ∷ c_ids) db = do
    db' ← generate_order w_id d_id o_id c_id db
    generate_orders_from w_id d_id (o_id + 1) c_ids db'

  -- generateOrders
  unfoldable pub generate_orders : ℕ → ℕ → Database → Drawing Database
  generate_orders w_id d_id db = do
    c_ids ← shuffle 3000 (count_up 3000 1)
    generate_orders_from w_id d_id 1 c_ids db
