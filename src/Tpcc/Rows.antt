-- ===== src/Tpcc/Rows.antt =====
-- tpcc.h: the rows of the TPC-C tables and the database. A `double` is a value of some type `A`, since
-- nothing is decided by one. A row is found by its position, and a position out of range, which
-- has no defined behaviour, is `none`; so is one below 0, which the truncated difference would hide.
use Prim.Native.String.{String}
use hawk_txn.Common.{ℕ, ◌+◌, ◌-◌, ◌*◌, Option, none, List, ◌==◌, if◌then◌else◌, get_elem?}
use hawk_txn.Common.Int.{ℤ}

pub record Warehouse (A : Type 0) : Type 0 where
  pub w_id : ℕ
  pub w_name : String
  pub w_street_1 : String
  pub w_street_2 : String
  pub w_city : String
  pub w_state : String
  pub w_zip : String
  pub w_tax : A
  pub w_ytd : A

pub record District (A : Type 0) : Type 0 where
  pub d_id : ℕ
  pub d_w_id : ℕ
  pub d_name : String
  pub d_street_1 : String
  pub d_street_2 : String
  pub d_city : String
  pub d_state : String
  pub d_zip : String
  pub d_tax : A
  pub d_ytd : A
  pub d_next_o_id : ℕ

pub record Customer (A : Type 0) : Type 0 where
  pub c_id : ℕ
  pub c_d_id : ℕ
  pub c_w_id : ℕ
  pub c_first : String
  pub c_middle : String
  pub c_last : String
  pub c_street_1 : String
  pub c_street_2 : String
  pub c_city : String
  pub c_state : String
  pub c_zip : String
  pub c_phone : String
  pub c_since : ℕ
  pub c_credit : String
  pub c_credit_lim : A
  pub c_discount : A
  pub c_balance : A
  pub c_ytd_payment : A
  pub c_payment_cnt : ℕ
  pub c_delivery_cnt : ℕ
  pub c_data : String

pub record History (A : Type 0) : Type 0 where
  pub h_c_id : ℕ
  pub h_c_d_id : ℕ
  pub h_c_w_id : ℕ
  pub h_d_id : ℕ
  pub h_w_id : ℕ
  pub h_date : ℕ
  pub h_amount : A
  pub h_data : String

pub record Order : Type 0 where
  pub o_id : ℕ
  pub o_d_id : ℕ
  pub o_w_id : ℕ
  pub o_c_id : ℕ
  pub o_entry_d : ℕ
  pub o_carrier_id : ℕ
  pub o_ol_cnt : ℕ
  pub o_all_local : ℕ

pub record NewOrder : Type 0 where
  pub no_o_id : ℕ
  pub no_d_id : ℕ
  pub no_w_id : ℕ

pub record OrderLine (A : Type 0) : Type 0 where
  pub ol_o_id : ℕ
  pub ol_d_id : ℕ
  pub ol_w_id : ℕ
  pub ol_number : ℕ
  pub ol_i_id : ℕ
  pub ol_supply_w_id : ℕ
  pub ol_quantity : ℕ
  pub ol_amount : A
  pub ol_delivery_d : ℕ
  pub ol_dist_info : String

pub record Item (A : Type 0) : Type 0 where
  pub i_id : ℕ
  pub i_im_id : ℕ
  pub i_name : String
  pub i_price : A
  pub i_data : String

pub record Stock : Type 0 where
  pub s_i_id : ℕ
  pub s_w_id : ℕ
  pub s_quantity : ℤ
  pub s_dist_01 : String
  pub s_dist_02 : String
  pub s_dist_03 : String
  pub s_dist_04 : String
  pub s_dist_05 : String
  pub s_dist_06 : String
  pub s_dist_07 : String
  pub s_dist_08 : String
  pub s_dist_09 : String
  pub s_dist_10 : String
  pub s_ytd : ℕ
  pub s_order_cnt : ℕ
  pub s_remote_cnt : ℕ
  pub s_data : String

pub record TpccDatabase (A : Type 0) : Type 0 where
  pub warehouses : List (Warehouse A)
  pub districts : List (District A)
  pub customers : List (Customer A)
  pub histories : List (History A)
  pub orders : List Order
  pub new_orders : List NewOrder
  pub order_lines : List (OrderLine A)
  pub items : List (Item A)
  pub stocks : List Stock

-- `v[before + id - 1]`
abbrev pub at_id {ℓ} : {R : Type ℓ} → List R → ℕ → ℕ → Option R
at_id rows before id = if before + id == 0 then none else get_elem? rows (before + id - 1)

module _ {A : Type 0} where
  -- getWarehouse
  unfoldable pub get_warehouse : TpccDatabase A → ℕ → Option (Warehouse A)
  get_warehouse db w = at_id db.warehouses 0 w

  -- getDistrict
  unfoldable pub get_district : TpccDatabase A → ℕ → ℕ → Option (District A)
  get_district db d w = at_id db.districts ((w - 1) * 10) d

  -- getCustomer
  unfoldable pub get_customer : TpccDatabase A → ℕ → ℕ → ℕ → Option (Customer A)
  get_customer db c d w = at_id db.customers ((w - 1) * 10 * 3000 + (d - 1) * 3000) c

  -- getItem
  unfoldable pub get_item : TpccDatabase A → ℕ → Option (Item A)
  get_item db i = at_id db.items 0 i

  -- getStock
  unfoldable pub get_stock : TpccDatabase A → ℕ → ℕ → Option Stock
  get_stock db i w = at_id db.stocks ((w - 1) * 100000) i
