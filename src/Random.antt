-- ===== src/Random.antt =====
-- RandomGenerators.cpp, and the engine of tpcc_data_generator.h. An engine is a stream of numbers without
-- bound; each draw takes the next one, and std::uniform_int_distribution brings it into its range, in
-- which every value can come.
pub mod Outcomes
use hawk_txn.Common.{ℕ, ◌+◌, ◌-◌, ◌%◌, Bool, Option, none, some, if◌then◌else◌, ltb}

-- The stream of an engine, and how much of it has been taken.
pub record Engine : Type 0 where
  pub stream : ℕ → ℕ
  pub taken : ℕ

-- A draw leaves the engine further on; it is `none` where a loop on fuel has not ended.
abbrev pub Drawing : Type 0 → Type 0
Drawing X = Engine → Option (X × Engine)

abbrev pub then_draw : {X Y : Type 0} → Option (X × Engine) → (X → Drawing Y) → Option (Y × Engine)
then_draw none f = none
then_draw (some (x, g)) f = f x g

infixl 5 ◌>>=◌
abbrev pub ◌>>=◌ : {X Y : Type 0} → Drawing X → (X → Drawing Y) → Drawing Y
◌>>=◌ d f g = then_draw (d g) f

abbrev pub ret : {X : Type 0} → X → Drawing X
ret x g = some (x, g)

abbrev pub advance : Engine → Engine
advance g = record g { taken = g.taken + 1 }

-- getRandomInt
unfoldable pub get_random_int : ℕ → ℕ → Drawing ℕ
get_random_int low high g = some (low + g.stream g.taken % (high - low + 1), advance g)

-- getExponentialInt: the draw of the distribution, cut down to an integer, and then brought between
-- the bounds by std::max and std::min.
unfoldable pub get_exponential_int : ℕ → ℕ → Drawing ℕ
get_exponential_int low high g =
    let val = g.stream g.taken in
    let at_least = if ltb val low then low else val in
    some (if ltb high at_least then high else at_least, advance g)

-- `getRandomDouble(0.0, 1.0) < p`, for a given test on the draw
unfoldable pub draw_below : (ℕ → Bool) → Drawing Bool
draw_below below g = some (below (g.stream g.taken), advance g)
