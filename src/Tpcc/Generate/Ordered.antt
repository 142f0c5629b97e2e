-- ===== src/Tpcc/Generate/Ordered.antt =====
-- All the orders that generateOrders in tpcc_data_generator.cpp adds for a district.
use mathlib.Core.List.{append_assoc, append-nil, map-append}
use hawk_txn.Common.{
  ℕ, ◌+◌, ◌≡◌, refl, sym, ap, ◌∙◌, some, List, [], ◌∷◌, ◌++◌, map, ◌==◌, if◌then◌else◌, leb, ◌&&◌,
  arith, All, All-append, Bool-cases, inl, inr,
}
use hawk_txn.Resource.{count_up}
use hawk_txn.Tpcc.Rows.{Order, OrderLine, TpccDatabase}
use hawk_txn.Tpcc.Draws.{Doubles, TpccRandom}
use hawk_txn.Random.Outcomes.{Ends, then-Ends, ret-Ends, Ends-mono}
use hawk_txn.Tpcc.Drawn.{random_int-Ends}
use hawk_txn.Tpcc.Generate.{generate_order, generate_orders_from, generate_orders}
use hawk_txn.Tpcc.Generate.Shuffle.{
  occurrences, Shuffled, shuffle-Ends, occurrences-count_up, length-count_up,
}
use hawk_txn.Tpcc.Generate.Orders.{
  new_of, lines_of, IsOrderOf, IsLineOf, Orders, IsCarrier, key, each_line-Ends, one_new,
  carried-Ends, timestamp-Ends,
}

new_of-append : (xs ys : List Order) → new_of (xs ++ ys) ≡ new_of xs ++ new_of ys
new_of-append [] ys = refl
new_of-append (x ∷ xs) ys = elim (Bool-cases (x.o_carrier_id == 0)) [
  | inl free ↦ rw (free, new_of-append xs ys) refl
  | inr carried ↦ rw (carried, new_of-append xs ys) refl
]

lines_of-append : (xs ys : List Order) → lines_of (xs ++ ys) ≡ lines_of xs ++ lines_of ys
lines_of-append [] ys = refl
lines_of-append (x ∷ xs) ys = rw (lines_of-append xs ys) (
    sym (append_assoc (map (λ k. (x.o_id, k)) (count_up x.o_ol_cnt 1)) (lines_of xs) (lines_of ys)))

module _ (doubles : Doubles) (clock : ℕ → ℕ) (w d : ℕ) where
  open doubles use {Double}

  order-Ends :
      (o c : ℕ) (db : TpccDatabase Double) (g : TpccRandom) (s : ℕ → ℕ)
      → g.stream ≡ s
      → Ends (Orders doubles clock w d o (c ∷ []) db) s (generate_order doubles clock w d o c db g)
  unfolding generate_order IsCarrier count_up
  order-Ends o c db g s e = then-Ends (timestamp-Ends doubles clock g s e) λ date g1 s1 _.
      then-Ends (random_int-Ends 5 15 g1 s s1 (omega arith)) λ cnt g2 s2 cnt_in.
        then-Ends (carried-Ends doubles clock o g2 s s2) λ carrier g3 s3 h.
          let x : Order = record {
            o_id = o;
            o_d_id = d;
            o_w_id = w;
            o_c_id = c;
            o_entry_d = date;
            o_carrier_id = carrier;
            o_ol_cnt = cnt;
            o_all_local = 1;
          } in
          Ends-mono
            (λ db2 l. record {
              orders = x ∷ [];
              lines = l.lines;
              grown =
                  l.grown
                  ∙ ap
                      (λ ns. record db {
                        orders = db.orders ++ x ∷ [];
                        new_orders = ns;
                        order_lines = db.order_lines ++ l.lines;
                      })
                      (one_new doubles clock x db.new_orders h);
              ids = refl;
              customers = refl;
              all_of = ((refl, refl, cnt_in, h.0, h.1, h.2), tt);
              keyed = l.keyed ∙ sym (append-nil _);
              all_lines = l.all_of;
            })
            (each_line-Ends doubles clock w d o (count_up cnt 1) _ g3 s s3)

  generate_from-Ends :
      (cs : List ℕ) (o : ℕ) (db : TpccDatabase Double) (g : TpccRandom) (s : ℕ → ℕ)
      → g.stream ≡ s
      → Ends (Orders doubles clock w d o cs db) s (generate_orders_from doubles clock w d o cs db g)
  unfolding generate_orders_from count_up
  generate_from-Ends [] o db g s e = ret-Ends db g e (record {
    orders = [];
    lines = [];
    grown = rw (append-nil db.orders, append-nil db.new_orders, append-nil db.order_lines) refl;
    ids = refl;
    customers = refl;
    all_of = tt;
    keyed = refl;
    all_lines = tt;
  })
  generate_from-Ends (c ∷ cs) o db g s e = then-Ends (order-Ends o c db g s e) λ db1 g1 s1 a.
      Ends-mono {P = Orders doubles clock w d (o + 1) cs db1}
        (λ db2 b. record {
          orders = a.orders ++ b.orders;
          lines = a.lines ++ b.lines;
          grown =
              rw
                (
                  b.grown,
                  a.grown,
                  new_of-append a.orders b.orders,
                  append_assoc db.orders a.orders b.orders,
                  append_assoc db.new_orders (new_of a.orders) (new_of b.orders),
                  append_assoc db.order_lines a.lines b.lines,
                )
                refl;
          ids = map-append (λ (x : Order). x.o_id) a.orders b.orders ∙ rw (a.ids, b.ids) refl;
          customers =
              map-append (λ (x : Order). x.o_c_id) a.orders b.orders
              ∙ rw (a.customers, b.customers) refl;
          all_of = All-append (IsOrderOf w d) a.orders b.orders a.all_of b.all_of;
          keyed =
              map-append (key doubles clock) a.lines b.lines
              ∙ rw (a.keyed, b.keyed, lines_of-append a.orders b.orders) refl;
          all_lines =
              All-append (IsLineOf doubles clock w d) a.lines b.lines a.all_lines b.all_lines;
        })
        (generate_from-Ends cs (o + 1) db1 g1 s s1)

  -- In every state of the engine and of the database, generateOrders ends and only adds to orders,
  -- new orders and order lines. The orders have the ids 1 to 3000 in this order and are of the district;
  -- each customer from 1 to 3000 has exactly one and nobody else has any; each has 5 to 15 lines
  -- and, up to the id 2100, a carrier from 1 to 10, but none after that. The new orders are exactly those
  -- without a carrier, and the order lines exactly those that the orders count, numbered from 1,
  -- with an item of the table each.
  pub generate_orders_lem :
      (db : TpccDatabase Double) (g : TpccRandom)
      → (db' : TpccDatabase Double) × (g' : TpccRandom) × (os : List Order) × (ls : List
          (OrderLine Double))
        × (generate_orders doubles clock w d db g ≡ some (db', g'))
        × (db' ≡ record db {
          orders = db.orders ++ os;
          new_orders = db.new_orders ++ new_of os;
          order_lines = db.order_lines ++ ls;
        })
        × (map (λ (x : Order). x.o_id) os ≡ count_up 3000 1)
        × ((c : ℕ)
            → occurrences c (map (λ (x : Order). x.o_c_id) os)
              ≡ (if leb 1 c && leb c 3000 then 1 else 0))
        × All (IsOrderOf w d) os
        × (map (key doubles clock) ls ≡ lines_of os)
        × All (IsLineOf doubles clock w d) ls
  unfolding generate_orders Shuffled
  generate_orders_lem db g =
      let ids = count_up 3000 1 in
      let mixed = shuffle-Ends 3000 ids g g.stream refl (length-count_up 3000 1) in
      let cs = mixed.value in
      let out = generate_from-Ends cs 1 db mixed.rest g.stream mixed.same in
      let o = out.holds in
      (
        out.value,
        out.rest,
        o.orders,
        o.lines,
        rw mixed.ends out.ends,
        o.grown,
        o.ids ∙ ap (λ n. count_up n 1) (mixed.holds.0 ∙ length-count_up 3000 1),
        λ c.
            ap (occurrences c) o.customers
            ∙ mixed.holds.1 c
            ∙ occurrences-count_up 3000 1 c
            ∙ ground arith,
        o.all_of,
        o.keyed,
        o.all_lines,
      )
