-- ===== src/Tpcc/Generate/Shuffle.antt =====
-- The shuffle of the customers in tpcc_data_generator.cpp keeps every element.
use hawk_txn.Common.{
  ℕ, zero, suc, ◌+◌, ◌<◌, ◌≡◌, refl, some, List, [], ◌∷◌, ◌==◌, ◌&&◌, if◌then◌else◌, leb, ltb,
  arith, length,
}
use hawk_txn.Resource.{count_up}
use hawk_txn.Tpcc.Draws.{TpccRandom}
use hawk_txn.Random.Outcomes.{Ends, then-Ends, ret-Ends}
use hawk_txn.Tpcc.Drawn.{random_int-Ends}
use hawk_txn.Tpcc.Texts.Total.{need-Ends}
use hawk_txn.Tpcc.Generate.{shuffle, take_out}

-- How often a number stands in a list.
abbrev pub occurrences : ℕ → List ℕ → ℕ
occurrences c [] = 0
occurrences c (x ∷ xs) = (if x == c then 1 else 0) + occurrences c xs

take_out_lem :
    (xs : List ℕ) (i : ℕ)
    → i < length xs
    → (x : ℕ) × (rest : List ℕ) × (take_out i xs ≡ some (x, rest))
      × (suc (length rest) ≡ length xs)
      × ((c : ℕ) → occurrences c (x ∷ rest) ≡ occurrences c xs)
take_out_lem [] i h = absurd (omega arith)
take_out_lem (x ∷ xs) zero h = (x, xs, refl, refl, λ c. refl)
take_out_lem (x ∷ xs) (suc i) h =
    let (y, ys, out, size, same) = take_out_lem xs i (omega arith) in
    (y, x ∷ ys, rw out refl, omega (arith, size), λ c. omega (arith, same c))

unfoldable pub Shuffled : List ℕ → List ℕ → Type 0
Shuffled xs ys = (length ys ≡ length xs) × ((c : ℕ) → occurrences c ys ≡ occurrences c xs)

pub shuffle-Ends :
    (count : ℕ) (xs : List ℕ) (g : TpccRandom) (s : ℕ → ℕ)
    → g.stream ≡ s
    → length xs ≡ count
    → Ends (Shuffled xs) s (shuffle count xs g)
unfolding shuffle Shuffled
shuffle-Ends zero [] g s e h = ret-Ends [] g e (refl, λ c. refl)
shuffle-Ends zero (x ∷ xs) g s e h = absurd (omega arith)
shuffle-Ends (suc count) xs g s e h =
    then-Ends (random_int-Ends 0 count g s e (omega arith)) λ i g1 s1 i_in.
      let (x, rest, out, size, same) = take_out_lem xs i (omega (arith, h, i_in.1)) in
      then-Ends (need-Ends {P = λ p. p ≡ (x, rest)} (x, rest) g1 s1 out refl) λ p g2 s2 is.
        let tail : Ends (Shuffled rest) s (shuffle count p.1 g2) =
          rw is (shuffle-Ends count rest g2 s s2 (omega (arith, size, h))) in
        then-Ends tail λ ys g3 s3 kept.
          ret-Ends (p.0 ∷ ys) g3 s3
            (omega (arith, kept.0, size), λ c. rw is (omega (arith, kept.1 c, same c)))

-- Where a number stands among those counted up.
pub occurrences-count_up :
    (n i c : ℕ) → occurrences c (count_up n i) ≡ (if leb i c && ltb c (i + n) then 1 else 0)
unfolding count_up
occurrences-count_up zero i c = ground arith
occurrences-count_up (suc n) i c = ground (arith, occurrences-count_up n (i + 1) c)

pub length-count_up : (n i : ℕ) → length (count_up n i) ≡ n
unfolding count_up
length-count_up zero i = refl
length-count_up (suc n) i = omega (arith, length-count_up n (i + 1))
