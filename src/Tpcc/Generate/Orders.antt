-- ===== src/Tpcc/Generate/Orders.antt =====
-- The orders that generateOrders in tpcc_data_generator.cpp adds for a district.
use mathlib.Core.List.{append_assoc, append-nil, map-append}
use hawk_txn.Common.{
  Bool-cases, inl, inr, ℕ, ◌≤◌, ◌<◌, ◌≡◌, refl, ◌∙◌, true, false, List, [], ◌∷◌, ◌++◌, map, ◌==◌,
  if◌then◌else◌, leb, arith, All, All-append, length,
}
use hawk_txn.Resource.{count_up}
use hawk_txn.Tpcc.Rows.{Order, NewOrder, OrderLine, TpccDatabase}
use hawk_txn.Random.{Drawing, ret}
use hawk_txn.Tpcc.Draws.{Doubles, TpccRandom, generate_random_int}
use hawk_txn.Random.Outcomes.{
  Ends, Within, then-Ends, ret-Ends, Ends-mono, branch-Ends, choice-Ends,
}
use hawk_txn.Tpcc.Drawn.{random_int-Ends, random_double-Ends}
use hawk_txn.Tpcc.Texts.Total.{a_string-Ends}
use hawk_txn.Tpcc.Generate.{each, get_current_timestamp, generate_order_line}

-- The new orders that belong to orders: those without a carrier.
abbrev pub new_of : List Order → List NewOrder
new_of [] = []
new_of (x ∷ xs) =
    if x.o_carrier_id == 0
    then (record { no_o_id = x.o_id; no_d_id = x.o_d_id; no_w_id = x.o_w_id }) ∷ new_of xs
    else new_of xs

-- The lines that belong to orders: for each as many as it says, counted from 1.
abbrev pub lines_of : List Order → List (ℕ × ℕ)
lines_of [] = []
lines_of (x ∷ xs) = map (λ k. (x.o_id, k)) (count_up x.o_ol_cnt 1) ++ lines_of xs

abbrev pub IsOrderOf : ℕ → ℕ → Order → Type 0
IsOrderOf w d x =
    (x.o_w_id ≡ w)
    × (x.o_d_id ≡ d)
    × Within 5 15 x.o_ol_cnt
    × Within 0 10 x.o_carrier_id
    × (x.o_id ≤ 2100 → 1 ≤ x.o_carrier_id)
    × (2100 < x.o_id → x.o_carrier_id ≡ 0)

module _ (doubles : Doubles) (clock : ℕ → ℕ) where
  open doubles use {Double, hundredths}

  abbrev pub key : OrderLine Double → ℕ × ℕ
  key l = (l.ol_o_id, l.ol_number)

  abbrev pub IsLineOf : ℕ → ℕ → OrderLine Double → Type 0
  IsLineOf w d l = (l.ol_w_id ≡ w) × (l.ol_d_id ≡ d) × Within 1 100000 l.ol_i_id

  -- A database with more lines.
  pub record Lines (w d o : ℕ) (numbers : List ℕ) (db db' : TpccDatabase Double) : Type 0 where
    pub lines : List (OrderLine Double)
    pub grown : db' ≡ record db { order_lines = db.order_lines ++ lines }
    pub keyed : map key lines ≡ map (λ k. (o, k)) numbers
    pub all_of : All (IsLineOf w d) lines

  pub timestamp-Ends :
      (g : TpccRandom) (s : ℕ → ℕ)
      → g.stream ≡ s
      → Ends (λ _. Unit {0}) s (get_current_timestamp doubles clock g)
  unfolding get_current_timestamp
  timestamp-Ends g s e = ret-Ends _ g e tt

  line-Ends :
      (w d o k : ℕ) (db : TpccDatabase Double) (g : TpccRandom) (s : ℕ → ℕ)
      → g.stream ≡ s
      → Ends (Lines w d o (k ∷ []) db) s (generate_order_line doubles clock w d o k db g)
  unfolding generate_order_line
  line-Ends w d o k db g s e =
      then-Ends (random_int-Ends 1 100000 g s e (omega arith)) λ i g1 s1 i_in.
        then-Ends (random_double-Ends doubles (hundredths 1) (hundredths 999999) g1 s s1)
          λ amount g2 s2 _. then-Ends (a_string-Ends 24 24 g2 s s2 (omega arith)) λ info g3 s3 _.
            then-Ends
              (branch-Ends {P = λ _. Unit {0}} (leb o 2100) _ _ g3 (timestamp-Ends g3 s s3)
                (ret-Ends 0 g3 s3 tt))
              λ date g4 s4 _. ret-Ends _ g4 s4 (record {
                lines =
                    record {
                      ol_o_id = o;
                      ol_d_id = d;
                      ol_w_id = w;
                      ol_number = k;
                      ol_i_id = i;
                      ol_supply_w_id = w;
                      ol_quantity = 5;
                      ol_amount = amount;
                      ol_delivery_d = date;
                      ol_dist_info = info;
                    }
                    ∷ [];
                grown = refl;
                keyed = refl;
                all_of = ((refl, refl, i_in), tt);
              })

  pub each_line-Ends :
      (w d o : ℕ) (numbers : List ℕ) (db : TpccDatabase Double) (g : TpccRandom) (s : ℕ → ℕ)
      → g.stream ≡ s
      → Ends
          (Lines w d o numbers db)
          s
          (each numbers (generate_order_line doubles clock w d o) db g)
  each_line-Ends w d o [] db g s e = ret-Ends db g e (record {
    lines = [];
    grown = rw (append-nil db.order_lines) refl;
    keyed = refl;
    all_of = tt;
  })
  each_line-Ends w d o (k ∷ ks) db g s e = then-Ends (line-Ends w d o k db g s e) λ db1 g1 s1 a.
      Ends-mono {P = Lines w d o ks db1}
        (λ db2 b. record {
          lines = a.lines ++ b.lines;
          grown = rw (b.grown, a.grown, append_assoc) refl;
          keyed = map-append key a.lines b.lines ∙ rw (a.keyed, b.keyed) refl;
          all_of = All-append (IsLineOf w d) a.lines b.lines a.all_of b.all_of;
        })
        (each_line-Ends w d o ks db1 g1 s s1)

  -- A database with more orders, those of the customers `cs` from the id `o` on, their new orders
  -- and their lines.
  pub record Orders (w d o : ℕ) (cs : List ℕ) (db db' : TpccDatabase Double) : Type 0 where
    pub orders : List Order
    pub lines : List (OrderLine Double)
    pub grown : db' ≡ record db {
      orders = db.orders ++ orders;
      new_orders = db.new_orders ++ new_of orders;
      order_lines = db.order_lines ++ lines;
    }
    pub ids : map (λ (x : Order). x.o_id) orders ≡ count_up (length cs) o
    pub customers : map (λ (x : Order). x.o_c_id) orders ≡ cs
    pub all_of : All (IsOrderOf w d) orders
    pub keyed : map key lines ≡ lines_of orders
    pub all_lines : All (IsLineOf w d) lines

  unfoldable pub IsCarrier : ℕ → ℕ → Type 0
  IsCarrier o c = Within 0 10 c × (o ≤ 2100 → 1 ≤ c) × (2100 < o → c ≡ 0)

  pub one_new :
      (x : Order) (ns : List NewOrder)
      → IsCarrier x.o_id x.o_carrier_id
      → (elim (leb x.o_id 2100) [
        | true ↦ ns
        | false ↦ ns ++ (record { no_o_id = x.o_id; no_d_id = x.o_d_id; no_w_id = x.o_w_id }) ∷ []
      ])
        ≡ ns ++ new_of (x ∷ [])
  unfolding IsCarrier
  one_new x ns h = elim (Bool-cases (leb x.o_id 2100)) [
    | inl old ↦
        let carried : (x.o_carrier_id == 0) ≡ false = ground (arith, h.1, old) in
        rw (old, carried, append-nil ns) refl
    | inr new ↦
        let free : (x.o_carrier_id == 0) ≡ true = ground (arith, h.2, new) in rw (new, free) refl
  ]

  pub carried-Ends :
      (o : ℕ) (g : TpccRandom) (s : ℕ → ℕ)
      → g.stream ≡ s
      → Ends (IsCarrier o) s (
          (elim (leb o 2100) as (λ b. Drawing ℕ) [
            | true ↦ generate_random_int 1 10
            | false ↦ ret 0
          ])
            g)
  unfolding IsCarrier
  carried-Ends o g s e =
      choice-Ends (leb o 2100) _ _ g
        (λ old.
          Ends-mono {P = Within 1 10}
            (λ c h. ((omega arith, h.1), (λ _. h.0), λ late. ground (arith, old, late)))
            (random_int-Ends 1 10 g s e (omega arith)))
        λ new.
          ret-Ends 0 g e
            ((omega arith, omega arith), (λ early. ground (arith, new, early)), λ _. refl)
