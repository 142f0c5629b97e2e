-- ===== src/Tpcc/Placement.antt =====
-- tpcc_transaction.h: the resource of a row. Warehouses, districts and orders are numbered from 1, so
-- that the differences are those of the source.
use Prim.Native.String.{String}
use text.Mathlib.Text.{◌==◌}
use hawk_txn.Common.{ℕ, ◌+◌, ◌-◌, ◌*◌, if◌then◌else◌}
use hawk_txn.Types.{ResourceId}

abbrev pub tpcc_resource_base_warehouse : ResourceId
tpcc_resource_base_warehouse = 1000000

abbrev pub tpcc_resource_base_district : ResourceId
tpcc_resource_base_district = 2000000

abbrev pub tpcc_resource_base_customer : ResourceId
tpcc_resource_base_customer = 3000000

abbrev pub tpcc_resource_base_item : ResourceId
tpcc_resource_base_item = 4000000

abbrev pub tpcc_resource_base_stock : ResourceId
tpcc_resource_base_stock = 5000000

abbrev pub tpcc_resource_base_order : ResourceId
tpcc_resource_base_order = 6000000

abbrev pub tpcc_resource_base_new_order : ResourceId
tpcc_resource_base_new_order = 7000000

abbrev pub tpcc_resource_base_order_line : ResourceId
tpcc_resource_base_order_line = 8000000

abbrev pub tpcc_resource_base_history : ResourceId
tpcc_resource_base_history = 9000000

-- getTPCCResourceId; the arguments that a call leaves out are 0.
unfoldable pub get_tpcc_resource_id : String → ℕ → ℕ → ℕ → ℕ → ℕ → ℕ → ResourceId
get_tpcc_resource_id table w d c item o ol =
    if table == "WAREHOUSE"
    then tpcc_resource_base_warehouse + w
    else if table == "DISTRICT"
    then tpcc_resource_base_district + (w - 1) * 10 + d
    else if table == "CUSTOMER"
    then tpcc_resource_base_customer + (w - 1) * 10 * 3000 + (d - 1) * 3000 + c
    else if table == "ITEM"
    then tpcc_resource_base_item + item
    else if table == "STOCK"
    then tpcc_resource_base_stock + (w - 1) * 100000 + item
    else if table == "ORDER"
    then tpcc_resource_base_order + (w - 1) * 10 * 3000 + (d - 1) * 3000 + o
    else if table == "NEW_ORDER"
    then tpcc_resource_base_new_order + (w - 1) * 10 * 900 + (d - 1) * 900 + o
    else if table == "ORDER_LINE"
    then tpcc_resource_base_order_line
      + (w - 1) * 10 * 3000 * 15
      + (d - 1) * 3000 * 15
      + (o - 1) * 15
      + ol
    else if table == "HISTORY"
    then tpcc_resource_base_history + (w - 1) * 10 * 3000 + (d - 1) * 3000 + c
    else 0
