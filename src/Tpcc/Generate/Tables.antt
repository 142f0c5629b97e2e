-- ===== src/Tpcc/Generate/Tables.antt =====
-- tpcc_data_generator.cpp: the tables of generateData, row by row, into the place that a row has.
use hawk_txn.Common.{ℕ, ◌+◌, ◌-◌, ◌*◌, true, false, [], ◌∷◌, ◌++◌, ltb}
use hawk_txn.Common.Int.{pos}
use hawk_txn.Resource.{count_up}
use hawk_txn.Random.{Drawing, ◌>>=◌, ret}
use hawk_txn.Tpcc.Draws.{Doubles, generate_random_int, generate_random_double}
use hawk_txn.Tpcc.Texts.{
  need, generate_a_string, generate_n_string, generate_last_name, generate_street, generate_city,
  generate_state, generate_zip, mark_original,
}
use hawk_txn.Tpcc.Execute.{edit_at}
use hawk_txn.Tpcc.Generate.{
  Database, each, copies, blank_stock, blank_warehouse, blank_district, blank_customer, blank_item,
  get_current_timestamp, generate_orders,
}

module _ (doubles : Doubles) (clock : ℕ → ℕ) where
  open doubles use {Double, hundredths, negated}

  -- One turn of generateItems
  unfoldable pub generate_item : ℕ → Database doubles clock → Drawing (Database doubles clock)
  generate_item i_id db = do
    im_id ← generate_random_int 1 10000
    name ← generate_a_string 14 24
    price ← generate_random_double doubles (hundredths 100) (hundredths 10000)
    plain ← generate_a_string 26 50
    marked ← mark_original plain
    rows ← need (
        edit_at db.items 0 i_id (λ _. record {
          i_id = i_id;
          i_im_id = im_id;
          i_name = name;
          i_price = price;
          i_data = marked;
        }))
    ret (record db { items = rows })

  -- generateWarehouse
  unfoldable pub generate_warehouse : ℕ → Database doubles clock → Drawing (Database doubles clock)
  generate_warehouse w_id db = do
    name ← generate_a_string 6 10
    street_1 ← generate_street
    street_2 ← generate_street
    city ← generate_city
    state ← generate_state
    zip ← generate_zip
    tax ← generate_random_double doubles (hundredths 0) (hundredths 20)
    rows ← need (
        edit_at db.warehouses 0 w_id (λ _. record {
          w_id = w_id;
          w_name = name;
          w_street_1 = street_1;
          w_street_2 = street_2;
          w_city = city;
          w_state = state;
          w_zip = zip;
          w_tax = tax;
          w_ytd = hundredths 30000000;
        }))
    ret (record db { warehouses = rows })

  -- generateDistrict
  unfoldable pub generate_district :
      ℕ → ℕ → Database doubles clock → Drawing (Database doubles clock)
  generate_district w_id d_id db = do
    name ← generate_a_string 6 10
    street_1 ← generate_street
    street_2 ← generate_street
    city ← generate_city
    state ← generate_state
    zip ← generate_zip
    tax ← generate_random_double doubles (hundredths 0) (hundredths 20)
    rows ← need (
        edit_at db.districts ((w_id - 1) * 10) d_id (λ _. record {
          d_id = d_id;
          d_w_id = w_id;
          d_name = name;
          d_street_1 = street_1;
          d_street_2 = street_2;
          d_city = city;
          d_state = state;
          d_zip = zip;
          d_tax = tax;
          d_ytd = hundredths 3000000;
          d_next_o_id = 3001;
        }))
    ret (record db { districts = rows })

  -- generateCustomer, with its row of the history
  unfoldable pub generate_customer :
      ℕ → ℕ → ℕ → Database doubles clock → Drawing (Database doubles clock)
  generate_customer w_id d_id c_id db = do
    first ← generate_a_string 8 16
    last ← generate_last_name c_id
    street_1 ← generate_street
    street_2 ← generate_street
    city ← generate_city
    state ← generate_state
    zip ← generate_zip
    phone ← generate_n_string 16 16
    since ← get_current_timestamp doubles clock
    roll ← generate_random_int 1 100
    discount ← generate_random_double doubles (hundredths 0) (hundredths 50)
    text ← generate_a_string 300 500
    rows ← need (
        edit_at db.customers ((w_id - 1) * 10 * 3000 + (d_id - 1) * 3000) c_id (λ _. record {
          c_id = c_id;
          c_d_id = d_id;
          c_w_id = w_id;
          c_first = first;
          c_middle = "OE";
          c_last = last;
          c_street_1 = street_1;
          c_street_2 = street_2;
          c_city = city;
          c_state = state;
          c_zip = zip;
          c_phone = phone;
          c_since = since;
          c_credit = elim (ltb 90 roll) [ true ↦ "BC" | false ↦ "GC" ];
          c_credit_lim = hundredths 5000000;
          c_discount = discount;
          c_balance = negated (hundredths 1000);
          c_ytd_payment = hundredths 1000;
          c_payment_cnt = 1;
          c_delivery_cnt = 0;
          c_data = text;
        }))
    date ← get_current_timestamp doubles clock
    h_text ← generate_a_string 10 24
    ret (record db {
      customers = rows;
      histories =
          db.histories
          ++ (record {
            h_c_id = c_id;
            h_c_d_id = d_id;
            h_c_w_id = w_id;
            h_d_id = d_id;
            h_w_id = w_id;
            h_date = date;
            h_amount = hundredths 1000;
            h_data = h_text;
          })
            ∷ [];
    })

  -- One turn of generateStock
  unfoldable pub generate_stock_row :
      ℕ → ℕ → Database doubles clock → Drawing (Database doubles clock)
  generate_stock_row w_id i_id db = do
    quantity ← generate_random_int 10 100
    dist_01 ← generate_a_string 24 24
    dist_02 ← generate_a_string 24 24
    dist_03 ← generate_a_string 24 24
    dist_04 ← generate_a_string 24 24
    dist_05 ← generate_a_string 24 24
    dist_06 ← generate_a_string 24 24
    dist_07 ← generate_a_string 24 24
    dist_08 ← generate_a_string 24 24
    dist_09 ← generate_a_string 24 24
    dist_10 ← generate_a_string 24 24
    plain ← generate_a_string 26 50
    marked ← mark_original plain
    rows ← need (
        edit_at db.stocks ((w_id - 1) * 100000) i_id (λ _. record {
          s_i_id = i_id;
          s_w_id = w_id;
          s_quantity = pos quantity;
          s_dist_01 = dist_01;
          s_dist_02 = dist_02;
          s_dist_03 = dist_03;
          s_dist_04 = dist_04;
          s_dist_05 = dist_05;
          s_dist_06 = dist_06;
          s_dist_07 = dist_07;
          s_dist_08 = dist_08;
          s_dist_09 = dist_09;
          s_dist_10 = dist_10;
          s_ytd = 0;
          s_order_cnt = 0;
          s_remote_cnt = 0;
          s_data = marked;
        }))
    ret (record db { stocks = rows })

  -- generateItems
  unfoldable pub generate_items : Database doubles clock → Drawing (Database doubles clock)
  generate_items = each (count_up 100000 1) generate_item

  -- generateStock
  unfoldable pub generate_stock : ℕ → Database doubles clock → Drawing (Database doubles clock)
  generate_stock w_id = each (count_up 100000 1) (generate_stock_row w_id)

  -- The rest of a district of generateData.
  unfoldable pub fill_district : ℕ → ℕ → Database doubles clock → Drawing (Database doubles clock)
  fill_district w_id d_id db = do
    with_district ← generate_district w_id d_id db
    with_customers ← each (count_up 3000 1) (generate_customer w_id d_id) with_district
    generate_orders doubles clock w_id d_id with_customers

  unfoldable pub fill_warehouse : ℕ → Database doubles clock → Drawing (Database doubles clock)
  fill_warehouse w_id db = do
    with_warehouse ← generate_warehouse w_id db
    with_stock ← generate_stock w_id with_warehouse
    each (count_up 10 1) (fill_district w_id) with_stock

  -- The database before any row is filled: what `resize` leaves.
  unfoldable pub sized : ℕ → Database doubles clock
  sized num_warehouses = record {
    warehouses = copies num_warehouses (blank_warehouse doubles clock);
    districts = copies (num_warehouses * 10) (blank_district doubles clock);
    customers = copies (num_warehouses * 10 * 3000) (blank_customer doubles clock);
    histories = [];
    orders = [];
    new_orders = [];
    order_lines = [];
    items = copies 100000 (blank_item doubles clock);
    stocks = copies (num_warehouses * 100000) blank_stock;
  }

  -- generateData
  unfoldable pub generate_data : ℕ → Drawing (Database doubles clock)
  generate_data num_warehouses = do
    with_items ← generate_items (sized num_warehouses)
    each (count_up num_warehouses 1) fill_warehouse with_items
