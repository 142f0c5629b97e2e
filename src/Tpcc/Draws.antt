-- ===== src/Tpcc/Draws.antt =====
-- tpcc_data_generator.h: TPCCRandom. The engine is a stream of numbers without bound; each draw takes
-- the next one, and std::uniform_int_distribution brings it into its range, in which every value
-- can come. A double is a value of a type that is a parameter.
use Prim.Native.Nat.{bit_or}
use hawk_txn.Common.{
  ℕ, zero, suc, ◌+◌, ◌-◌, ◌*◌, ◌/◌, ◌%◌, Bool, true, false, ◌&&◌, none, some, leb,
}
use hawk_txn.Random.{Engine, Drawing, then_draw, ◌>>=◌, ret, advance}
use hawk_txn.Types.{NodeId, num_nodes}

abbrev pub warehouses_per_node : ℕ
warehouses_per_node = 10

abbrev pub num_warehouses : ℕ
num_warehouses = num_nodes * warehouses_per_node

abbrev pub num_domains : ℕ
num_domains = 16

abbrev pub nodes_per_domain : ℕ
nodes_per_domain = num_nodes / num_domains

unfoldable pub get_domain_id : NodeId → ℕ
get_domain_id n = (n - 1) / nodes_per_domain

-- What the draws do with a `double`; a literal is given in hundredths.
pub record Doubles : Type 1 where
  pub Double : Type 0
  pub hundredths : ℕ → Double
  pub uniform : Double → Double → ℕ → Double
  pub less : Double → Double → Bool
  pub negated : Double → Double

-- TPCCRandom
abbrev pub TpccRandom : Type 0
TpccRandom = Engine

-- generateRandomInt
unfoldable pub generate_random_int : ℕ → ℕ → Drawing ℕ
generate_random_int low high g = some (low + g.stream g.taken % (high - low + 1), advance g)

abbrev pub c_last : ℕ
c_last = 255

-- NURand
unfoldable pub nu_rand : ℕ → ℕ → ℕ → Drawing ℕ
nu_rand a x y = do
  mask ← generate_random_int 0 a
  value ← generate_random_int x y
  ret ((bit_or mask value + c_last) % (y - x + 1) + x)

-- generateCID
unfoldable pub generate_c_id : Drawing ℕ
generate_c_id = nu_rand 1023 1 3000

-- generateItemID
unfoldable pub generate_item_id : Drawing ℕ
generate_item_id = nu_rand 8191 1 100000

abbrev pub home_warehouse_start_id : NodeId → ℕ
home_warehouse_start_id n = n / num_domains * warehouses_per_node + 1

abbrev pub home_warehouse_end_id : NodeId → ℕ
home_warehouse_end_id n = home_warehouse_start_id n + warehouses_per_node * num_domains - 1

-- The condition of the loop in generateRandomWarehouseId.
unfoldable pub in_home_range : NodeId → ℕ → Bool
in_home_range n w = leb (home_warehouse_start_id n) w && leb w (home_warehouse_end_id n)

-- The loop itself, on fuel: a warehouse out of the range of the node.
unfoldable pub draw_elsewhere : ℕ → NodeId → Drawing ℕ
draw_elsewhere zero n g = none
draw_elsewhere (suc fuel) n g =
    then_draw (generate_random_int 1 num_warehouses g)
      λ w g'. elim (in_home_range n w) [ true ↦ draw_elsewhere fuel n g' | false ↦ some (w, g') ]

module _ (doubles : Doubles) where
  open doubles use {Double, hundredths, uniform, less}

  -- generateRandomDouble
  unfoldable pub generate_random_double : Double → Double → Drawing Double
  generate_random_double low high g = some (uniform low high (g.stream g.taken), advance g)

  -- generateRandomWarehouseId; 80 hundredths are DOMAIN_LOCAL_ACCESS_PROBABILITY.
  unfoldable pub generate_random_warehouse_id : ℕ → NodeId → Drawing ℕ
  generate_random_warehouse_id fuel n = do
    x ← generate_random_double (hundredths 0) (hundredths 100)
    elim (less x (hundredths 80)) [
      | true ↦ generate_random_int (home_warehouse_start_id n) (home_warehouse_end_id n)
      | false ↦ draw_elsewhere fuel n
    ]
