-- ===== src/Tpcc/Texts/Total.antt =====
-- The texts of tpcc_data_generator.h always come to an end.
use Prim.Native.Char.{Char}
use Prim.Native.String.{String}
use hawk_txn.Common.{ℕ, zero, suc, ◌-◌, ◌≤◌, ◌<◌, ◌≡◌, refl, Option, some, arith}
use hawk_txn.Tpcc.Draws.{TpccRandom}
use hawk_txn.Tpcc.Texts.{size, char_at, need, draw_chars, alphanum, generate_a_string}
use hawk_txn.Random.Outcomes.{Ends, then-Ends, ret-Ends}
use hawk_txn.Tpcc.Drawn.{random_int-Ends}

pub need-Ends :
    {X : Type 0} {P : X → Type 0} {s : ℕ → ℕ} {o : Option X} (x : X) (g : TpccRandom)
    → g.stream ≡ s
    → o ≡ some x
    → P x
    → Ends P s (need o g)
need-Ends x g e there p = rw there (ret-Ends x g e p)

char_at-some : (chars : String) (i : ℕ) → i < size chars → (c : Char) × (char_at chars i ≡ some c)
char_at-some String.[] i h = absurd (omega arith)
char_at-some (String.◌∷◌ c s) zero h = (c, refl)
char_at-some (String.◌∷◌ c s) (suc i) h = char_at-some s i (omega arith)

draw_chars-Ends :
    (chars : String) (count : ℕ) (g : TpccRandom) (s : ℕ → ℕ)
    → g.stream ≡ s
    → 1 ≤ size chars
    → Ends (λ _. Unit {0}) s (draw_chars chars count g)
unfolding draw_chars
draw_chars-Ends chars zero g s e h = ret-Ends String.[] g e tt
draw_chars-Ends chars (suc count) g s e h =
    then-Ends (random_int-Ends 0 (size chars - 1) g s e (omega arith)) λ i g1 s1 i_in.
      let (c, there) = char_at-some chars i (omega (arith, h, i_in.1)) in
      then-Ends (need-Ends {P = λ _. Unit {0}} c g1 s1 there tt) λ c' g2 s2 _.
        then-Ends (draw_chars-Ends chars count g2 s s2 h)
          λ rest g3 s3 _. ret-Ends (String.◌∷◌ c' rest) g3 s3 tt

pub a_string-Ends :
    (min_len max_len : ℕ) (g : TpccRandom) (s : ℕ → ℕ)
    → g.stream ≡ s
    → min_len ≤ max_len
    → Ends (λ _. Unit {0}) s (generate_a_string min_len max_len g)
unfolding generate_a_string
a_string-Ends low high g s e h =
    then-Ends (random_int-Ends low high g s e h)
      λ n g1 s1 _. draw_chars-Ends alphanum n g1 s s1 (omega arith)
