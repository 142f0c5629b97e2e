-- ===== src/Tpcc/Generate/Tests.antt =====
-- The orders that tpcc_data_generator.cpp generates for a district of an empty database.
use hawk_txn.Common.{
  ℕ, ◌+◌, ◌-◌, ◌%◌, ◌≡◌, refl, ◌&&◌, some, List, [], ◌∷◌, ◌++◌, map, All, if◌then◌else◌, leb, ltb,
}
use hawk_txn.Resource.{count_up}
use hawk_txn.Tpcc.Rows.{Order, OrderLine, TpccDatabase}
use hawk_txn.Tpcc.Draws.{Doubles, TpccRandom, generate_random_int}
use hawk_txn.Tpcc.Texts.{generate_n_string, draw_chars, mark_original}
use hawk_txn.Tpcc.Generate.{generate_orders, shuffle}
use hawk_txn.Tpcc.Generate.Orders.{new_of, lines_of, key, IsOrderOf, IsLineOf}
use hawk_txn.Tpcc.Generate.Shuffle.{occurrences}
use hawk_txn.Tpcc.Generate.Ordered.{generate_orders_lem}

abbrev hundredths : Doubles
hundredths = record {
  Double = ℕ;
  hundredths = λ n. n;
  uniform = λ low high raw. low + raw % (high - low + 1);
  less = ltb;
  negated = λ x. 0;
}

-- An engine that counts up.
abbrev counting : ℕ → TpccRandom
counting n = record { stream = λ i. i; taken = n }

shuffled_three : shuffle 3 (7 ∷ 8 ∷ 9 ∷ []) (counting 1) ≡ some (8 ∷ 7 ∷ 9 ∷ [], counting 4)
unfolding shuffle generate_random_int
shuffled_three = refl

digits_drawn : generate_n_string 4 4 (counting 7) ≡ some ("8901", counting 12)
unfolding generate_n_string draw_chars generate_random_int
digits_drawn = refl

original_marked : mark_original "abcdefghijkl" (counting 20) ≡ some ("aORIGINALjkl", counting 22)
unfolding mark_original generate_random_int
original_marked = refl

abbrev empty : TpccDatabase ℕ
empty = record {
  warehouses = [];
  districts = [];
  customers = [];
  histories = [];
  orders = [];
  new_orders = [];
  order_lines = [];
  items = [];
  stocks = [];
}

generate_orders_lem_example :
    (db' : TpccDatabase ℕ) × (g' : TpccRandom) × (os : List Order) × (ls : List (OrderLine ℕ))
    × (generate_orders hundredths (λ i. i) 2 3 empty (counting 0) ≡ some (db', g'))
    × (db' ≡ record empty {
      orders = empty.orders ++ os;
      new_orders = empty.new_orders ++ new_of os;
      order_lines = empty.order_lines ++ ls;
    })
    × (map (λ (x : Order). x.o_id) os ≡ count_up 3000 1)
    × ((c : ℕ)
        → occurrences c (map (λ (x : Order). x.o_c_id) os)
          ≡ (if leb 1 c && leb c 3000 then 1 else 0))
    × All (IsOrderOf 2 3) os
    × (map (key hundredths (λ i. i)) ls ≡ lines_of os)
    × All (IsLineOf hundredths (λ i. i) 2 3) ls
generate_orders_lem_example = generate_orders_lem hundredths (λ i. i) 2 3 empty (counting 0)
