-- ===== src/Tpcc/Ranges.antt =====
-- Which rows share a resource by getTPCCResourceId of tpcc_transaction.h, how large the ids get, and who
-- owns them by getOwnerNodeId of commons.h.
use Prim.Native.String.{String}
use hawk_txn.Common.{ℕ, ◌+◌, ◌-◌, ◌*◌, ◌/◌, ◌%◌, ◌≤◌, ◌<◌, ◌≡◌, ◌↔◌, arith, List, [], ◌∷◌, All}
use hawk_txn.Types.{num_nodes, get_owner_node_id}
use hawk_txn.Tpcc.Placement.{get_tpcc_resource_id}

-- From 1 to `n`.
abbrev pub UpTo : ℕ → ℕ → Type 0
UpTo n x = (1 ≤ x) × (x ≤ n)

-- Two rows of a table that lie within the sizes of the generated data.
customers_apart :
    (w d c w' d' c' : ℕ)
    → 1 ≤ w
    → 1 ≤ w'
    → UpTo 10 d × UpTo 10 d'
    → UpTo 3000 c × UpTo 3000 c'
    → get_tpcc_resource_id "CUSTOMER" w d c 0 0 0 ≡ get_tpcc_resource_id "CUSTOMER" w' d' c' 0 0 0
    → (w ≡ w') × (d ≡ d') × (c ≡ c')
unfolding get_tpcc_resource_id
customers_apart w d c w' d' c' pos_w pos_w' ds cs same = (omega arith, omega arith, omega arith)

stocks_apart :
    (w i w' i' : ℕ)
    → 1 ≤ w
    → 1 ≤ w'
    → UpTo 100000 i × UpTo 100000 i'
    → get_tpcc_resource_id "STOCK" w 0 0 i 0 0 ≡ get_tpcc_resource_id "STOCK" w' 0 0 i' 0 0
    → (w ≡ w') × (i ≡ i')
unfolding get_tpcc_resource_id
stocks_apart w i w' i' pos_w pos_w' is same = (omega arith, omega arith)

lines_apart :
    (w d o l w' d' o' l' : ℕ)
    → 1 ≤ w
    → 1 ≤ w'
    → UpTo 10 d × UpTo 10 d'
    → UpTo 3000 o × UpTo 3000 o'
    → UpTo 15 l × UpTo 15 l'
    → get_tpcc_resource_id "ORDER_LINE" w d 0 0 o l
      ≡ get_tpcc_resource_id "ORDER_LINE" w' d' 0 0 o' l'
    → (w ≡ w') × (d ≡ d') × (o ≡ o') × (l ≡ l')
unfolding get_tpcc_resource_id
lines_apart w d o l w' d' o' l' pos_w pos_w' ds os ls same =
    (omega arith, omega arith, omega arith, omega arith)

-- Two customers, two stock rows or two order lines have the same resource exactly when they are one row,
-- for rows within the sizes of the generated data: 10 districts in a warehouse, 3000 customers
-- and 3000 orders in a district, 15 lines in an order and 100000 items.
pub rows_apart :
    (w d c o l i w' d' c' o' l' i' : ℕ)
    → 1 ≤ w
    → 1 ≤ w'
    → UpTo 10 d × UpTo 10 d'
    → UpTo 3000 c × UpTo 3000 c'
    → UpTo 3000 o × UpTo 3000 o'
    → UpTo 15 l × UpTo 15 l'
    → UpTo 100000 i × UpTo 100000 i'
    → ((get_tpcc_resource_id "CUSTOMER" w d c 0 0 0
          ≡ get_tpcc_resource_id "CUSTOMER" w' d' c' 0 0 0)
        ↔ ((w ≡ w') × (d ≡ d') × (c ≡ c')))
      × ((get_tpcc_resource_id "STOCK" w 0 0 i 0 0 ≡ get_tpcc_resource_id "STOCK" w' 0 0 i' 0 0)
          ↔ ((w ≡ w') × (i ≡ i')))
      × ((get_tpcc_resource_id "ORDER_LINE" w d 0 0 o l
            ≡ get_tpcc_resource_id "ORDER_LINE" w' d' 0 0 o' l')
          ↔ ((w ≡ w') × (d ≡ d') × (o ≡ o') × (l ≡ l')))
rows_apart w d c o l i w' d' c' o' l' i' pos_w pos_w' ds cs os ls is = (
  (customers_apart w d c w' d' c' pos_w pos_w' ds cs, λ e. cc (e.0, e.1, e.2)),
  (stocks_apart w i w' i' pos_w pos_w' is, λ e. cc (e.0, e.1)),
  (lines_apart w d o l w' d' o' l' pos_w pos_w' ds os ls, λ e. cc (e.0, e.1, e.2, e.3)),
)

-- Rows of different tables, or of one beyond its first size, that share a resource: the stock of a
-- warehouse above 10 is an order of some warehouse; an order above 3000 is one of the next
-- district, and so is a new order 900 below it.
pub rows_meet :
    (w d o i : ℕ)
    → 1 ≤ w
    → 1 ≤ d
    → 1 ≤ i
    → (let k = (w - 1) * 100000 + i - 1 in
        get_tpcc_resource_id "STOCK" (w + 10) 0 0 i 0 0
        ≡ get_tpcc_resource_id "ORDER" (k / 30000 + 1) (k % 30000 / 3000 + 1) 0 0 (k % 3000 + 1) 0)
      × (get_tpcc_resource_id "ORDER" w d 0 0 (o + 3000) 0
          ≡ get_tpcc_resource_id "ORDER" w (d + 1) 0 0 o 0)
      × (get_tpcc_resource_id "NEW_ORDER" w d 0 0 (o + 900) 0
          ≡ get_tpcc_resource_id "NEW_ORDER" w (d + 1) 0 0 o 0)
unfolding get_tpcc_resource_id
rows_meet w d o i pos_w pos_d pos_i = (omega arith, omega arith, omega arith)

abbrev pub tables : List String
tables =
    "WAREHOUSE" ∷ "DISTRICT" ∷ "CUSTOMER" ∷ "ITEM" ∷ "STOCK" ∷ "ORDER" ∷ "NEW_ORDER" ∷ "ORDER_LINE"
    ∷ "HISTORY" ∷ []

-- Whatever the row and the table, its resource belongs to no node of the system: the id of its owner is
-- above NUM_NODES.
pub rows_beyond_nodes :
    (w d c item o ol : ℕ)
    → All
        (λ table. num_nodes < get_owner_node_id (get_tpcc_resource_id table w d c item o ol))
        tables
unfolding get_tpcc_resource_id get_owner_node_id
rows_beyond_nodes w d c item o ol = omega arith

-- For as many warehouses as there are, and with up to 15 times as many orders in a district as are
-- generated, every id fits in an `int` of 32 bits.
pub ids_fit_int :
    (w d c item o ol : ℕ)
    → UpTo 1280 w
    → UpTo 10 d
    → c ≤ 3000
    → item ≤ 100000
    → o ≤ 45000
    → ol ≤ 15
    → All (λ table. get_tpcc_resource_id table w d c item o ol < 2147483648) tables
unfolding get_tpcc_resource_id
ids_fit_int w d c item o ol ws ds cs is os ls = omega arith
