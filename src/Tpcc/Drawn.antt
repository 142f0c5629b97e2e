-- ===== src/Tpcc/Drawn.antt =====
-- What the draws of tpcc_data_generator.h and of tpccWorkloadLoop in DistributedDBNode.cpp can be.
use Prim.Native.Nat.{bit_or}
use hawk_txn.Common.{
  ℕ, zero, suc, ◌+◌, ◌-◌, ◌*◌, ◌%◌, ◌≤◌, ◌<◌, ◌≡◌, ◌≢◌, refl, sym, subst, true, false, some, arith,
}
use hawk_txn.Random.Outcomes.{Ends, Within, then-Ends, ret-Ends, Ends-mono, if-Ends, branch-Ends}
use hawk_txn.Types.{NodeId}
use hawk_txn.Random.{advance}
use hawk_txn.Tpcc.Draws.{
  Doubles, TpccRandom, warehouses_per_node, num_warehouses, get_domain_id, generate_random_int,
  c_last, generate_random_double, nu_rand, generate_random_warehouse_id, draw_elsewhere,
  in_home_range, home_warehouse_start_id, home_warehouse_end_id,
}

pub random_int-Ends :
    (low high : ℕ) (g : TpccRandom) (s : ℕ → ℕ)
    → g.stream ≡ s
    → low ≤ high
    → Ends (Within low high) s (generate_random_int low high g)
unfolding generate_random_int
random_int-Ends low high g s e h = ret-Ends _ (advance g) e (omega arith, omega arith)

pub nu_rand-Ends :
    (a x y : ℕ) (g : TpccRandom) (s : ℕ → ℕ)
    → g.stream ≡ s
    → x ≤ y
    → Ends (Within x y) s (nu_rand a x y g)
unfolding nu_rand
nu_rand-Ends a x y g s e h = then-Ends (random_int-Ends 0 a g s e (omega arith)) λ mask g1 s1 _.
    then-Ends (random_int-Ends x y g1 s s1 h) λ value g2 s2 _.
      ret-Ends ((bit_or mask value + c_last) % (y - x + 1) + x) g2 s2 (omega arith, omega arith)

-- Among any `fuel` draws of a warehouse there is one out of the range of the node.
abbrev pub Leaves : ℕ → NodeId → (ℕ → ℕ) → Type 0
Leaves fuel n stream =
    (j : ℕ) → (k : ℕ) × (k < fuel) × (in_home_range n (1 + stream (j + k) % num_warehouses) ≡ false)

abbrev Elsewhere : NodeId → ℕ → Type 0
Elsewhere n w = Within 1 num_warehouses w × (in_home_range n w ≡ false)

draw_elsewhere-Ends :
    (fuel k : ℕ) (n : NodeId) (g : TpccRandom)
    → k < fuel
    → in_home_range n (1 + g.stream (g.taken + k) % num_warehouses) ≡ false
    → Ends (Elsewhere n) g.stream (draw_elsewhere fuel n g)
unfolding draw_elsewhere generate_random_int
draw_elsewhere-Ends zero k n g h e = absurd (omega arith)
draw_elsewhere-Ends (suc fuel) zero n g h e =
    let out : in_home_range n (1 + g.stream g.taken % num_warehouses) ≡ false =
      subst (λ i. in_home_range n (1 + g.stream i % num_warehouses) ≡ false) (omega arith) e in
    if-Ends (in_home_range n (1 + g.stream g.taken % num_warehouses))
      (λ home. absurd (cc (home, out)))
      λ _. ret-Ends _ (advance g) refl ((omega arith, omega arith), out)
draw_elsewhere-Ends (suc fuel) (suc k) n g h e =
    if-Ends (in_home_range n (1 + g.stream g.taken % num_warehouses))
      (λ home.
        draw_elsewhere-Ends fuel k n (advance g) (omega arith)
          (subst (λ i. in_home_range n (1 + g.stream i % num_warehouses) ≡ false) (omega arith) e))
      λ out. ret-Ends _ (advance g) refl ((omega arith, omega arith), out)

draw_far-Ends :
    (fuel : ℕ) (n : NodeId) (g : TpccRandom) (s : ℕ → ℕ)
    → g.stream ≡ s
    → Leaves fuel n s
    → Ends (Within 1 num_warehouses) s (draw_elsewhere fuel n g)
draw_far-Ends fuel n g s e leaves =
    let (k, lt, out) = leaves g.taken in
    Ends-mono {P = Elsewhere n} (λ w h. h.0)
      (rw (sym e) (draw_elsewhere-Ends fuel k n g lt (rw e out)))

module _ (doubles : Doubles) where
  open doubles use {Double, hundredths, uniform, less}

  pub random_double-Ends :
      (low high : Double) (g : TpccRandom) (s : ℕ → ℕ)
      → g.stream ≡ s
      → Ends (λ x. Unit {0}) s (generate_random_double doubles low high g)
  unfolding generate_random_double
  random_double-Ends low high g s e = ret-Ends _ (advance g) e tt

  -- A warehouse of TPC-C, in both branches.
  pub random_warehouse_id-Ends :
      (fuel : ℕ) (n : NodeId) (g : TpccRandom) (s : ℕ → ℕ)
      → g.stream ≡ s
      → n ≤ 128
      → Leaves fuel n s
      → Ends (Within 1 num_warehouses) s (generate_random_warehouse_id doubles fuel n g)
  unfolding generate_random_warehouse_id
  random_warehouse_id-Ends fuel n g s e small leaves =
      then-Ends (random_double-Ends (hundredths 0) (hundredths 100) g s e) λ x g1 s1 _.
        branch-Ends (less x (hundredths 80)) _ _ g1
          (Ends-mono {P = Within (home_warehouse_start_id n) (home_warehouse_end_id n)}
            (λ w h. (omega (arith, h.0), omega (arith, h.1)))
            (random_int-Ends (home_warehouse_start_id n) (home_warehouse_end_id n) g1 s s1
              (omega arith)))
          (draw_far-Ends fuel n g1 s s1 leaves)

  -- Where generateRandomWarehouseId means to draw a warehouse of the zone of the node, it draws one
  -- that belongs to a node of another zone, for every node from 25 to 128.
  pub other_zone :
      (fuel : ℕ) (n m : NodeId) (g : TpccRandom)
      → 25 ≤ n
      → n ≤ 128
      → less (uniform (hundredths 0) (hundredths 100) (g.stream g.taken)) (hundredths 80) ≡ true
      → (w : ℕ) × (g' : TpccRandom) × (generate_random_warehouse_id doubles fuel n g ≡ some (w, g'))
        × ((m - 1) * warehouses_per_node + 1 ≤ w
            → w ≤ m * warehouses_per_node
            → get_domain_id m ≢ get_domain_id n)
  unfolding generate_random_warehouse_id generate_random_double get_domain_id
  other_zone fuel n m g from to near =
      let drawn =
        random_int-Ends (home_warehouse_start_id n) (home_warehouse_end_id n) (advance g) g.stream
          refl (omega arith) in
      (
        drawn.value,
        drawn.rest,
        rw near drawn.ends,
        λ low high same. omega (arith, low, high, same, drawn.holds.0, drawn.holds.1),
      )
