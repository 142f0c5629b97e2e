-- ===== src/Tpcc/Texts.antt =====
-- tpcc_data_generator.h and tpcc_data_generator.cpp: the texts of the rows.
pub mod Total
use Prim.Native.Char.{Char}
use Prim.Native.String.{String}
use hawk_txn.Common.{
  ℕ, zero, suc, ◌+◌, ◌-◌, ◌/◌, ◌%◌, Bool, true, false, Option, none, some, List, [], ◌∷◌, ◌==◌,
  get_elem?,
}
use hawk_txn.Random.{Drawing, ◌>>=◌, ret}
use hawk_txn.Tpcc.Draws.{TpccRandom, generate_random_int}

abbrev pub size : String → ℕ
size String.[] = 0
size (String.◌∷◌ c s) = suc (size s)

abbrev pub joined : String → String → String
joined String.[] t = t
joined (String.◌∷◌ c s) t = String.◌∷◌ c (joined s t)

-- The part before a position, and the part from it on.
abbrev pub prefix : ℕ → String → String
prefix zero s = String.[]
prefix (suc n) String.[] = String.[]
prefix (suc n) (String.◌∷◌ c s) = String.◌∷◌ c (prefix n s)

abbrev pub suffix : ℕ → String → String
suffix zero s = s
suffix (suc n) String.[] = String.[]
suffix (suc n) (String.◌∷◌ c s) = suffix n s

-- A character of an array, `none` past its end.
abbrev pub char_at : String → ℕ → Option Char
char_at String.[] i = none
char_at (String.◌∷◌ c s) zero = some c
char_at (String.◌∷◌ c s) (suc i) = char_at s i

abbrev pub need : {X : Type 0} → Option X → Drawing X
need none g = none
need (some x) g = some (x, g)

-- `count` characters drawn from an array.
unfoldable pub draw_chars : String → ℕ → Drawing String
draw_chars chars zero = ret String.[]
draw_chars chars (suc count) = do
  i ← generate_random_int 0 (size chars - 1)
  c ← need (char_at chars i)
  rest ← draw_chars chars count
  ret (String.◌∷◌ c rest)

abbrev pub alphanum : String
alphanum = "0123456789ABCDEFGHIJKLMNOPQRSTUVWXYZabcdefghijklmnopqrstuvwxyz"

abbrev pub num : String
num = "0123456789"

-- generateAString
unfoldable pub generate_a_string : ℕ → ℕ → Drawing String
generate_a_string min_len max_len = do
  length ← generate_random_int min_len max_len
  draw_chars alphanum length

-- generateNString
unfoldable pub generate_n_string : ℕ → ℕ → Drawing String
generate_n_string min_len max_len = do
  length ← generate_random_int min_len max_len
  draw_chars num length

abbrev pub syllables : List String
syllables =
    "BAR" ∷ "OUGHT" ∷ "ABLE" ∷ "PRI" ∷ "PRES" ∷ "ESE" ∷ "ANTI" ∷ "CALLY" ∷ "ATION" ∷ "EING" ∷ []

-- generateLastName
unfoldable pub generate_last_name : ℕ → Drawing String
generate_last_name c_id = do
  let n = c_id % 1000
  first ← need (get_elem? syllables (n / 100))
  second ← need (get_elem? syllables (n / 10 % 10))
  third ← need (get_elem? syllables (n % 10))
  ret (joined (joined first second) third)

-- generateStreet and generateCity
unfoldable pub generate_street : Drawing String
generate_street = generate_a_string 10 20

unfoldable pub generate_city : Drawing String
generate_city = generate_a_string 10 20

-- generateState
unfoldable pub generate_state : Drawing String
generate_state = generate_a_string 2 2

-- generateZip
unfoldable pub generate_zip : Drawing String
generate_zip = do zip ← generate_n_string 4 4; ret (joined zip "11111")

-- The data of an item or a stock, in one of ten with a mark in it.
unfoldable pub mark_original : String → Drawing String
mark_original data_of = do
  tenth ← generate_random_int 1 10
  elim (tenth == 1) [
    | true ↦ do
      original_pos ← generate_random_int 0 (size data_of - 8)
      ret (
          joined (prefix original_pos data_of)
            (joined "ORIGINAL" (suffix (original_pos + 8) data_of)))
    | false ↦ ret data_of
  ]
