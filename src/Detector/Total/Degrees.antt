-- ===== src/Detector/Total/Degrees.antt =====
-- What the first loop of findCycles in DeadlockDetector.cpp counts.
use hawk_txn.Common.{ℕ, ◌+◌, ◌≡◌, refl, List, [], ◌∷◌, if◌then◌else◌, arith, length}
use hawk_txn.Map
use hawk_txn.Map.{Map, get_or-assign, IsUnique}
use hawk_txn.Types.{TransactionId}
use hawk_txn.Detector.{Wfg, increment, out_degrees, in_degrees, count_targets}
use hawk_txn.Detector.Sound.{occurrences, get_or-increment}

-- How many transactions wait for this one.
abbrev pub waiters : TransactionId → Wfg → ℕ
waiters v [] = 0
waiters v ((t, vs) ∷ g) = occurrences v vs + waiters v g

-- Each transaction waits for as many as wait for it.
abbrev pub IsBalanced : Wfg → Type 0
IsBalanced g = (v : TransactionId) → length (Map.get_or v [] g) ≡ waiters v g

get_or-count_targets :
    (x : TransactionId) (vs : List TransactionId) (d : Map ℕ)
    → Map.get_or x 0 (count_targets vs d) ≡ occurrences x vs + Map.get_or x 0 d
unfolding count_targets
get_or-count_targets x [] d = omega arith
get_or-count_targets x (v ∷ vs) d =
    omega (arith, get_or-count_targets x vs (increment v d), get_or-increment v x d)

pub get_or-in_degrees :
    (x : TransactionId) (g : Wfg) (d : Map ℕ)
    → Map.get_or x 0 (in_degrees g d) ≡ waiters x g + Map.get_or x 0 d
unfolding in_degrees
get_or-in_degrees x [] d = omega arith
get_or-in_degrees x ((t, vs) ∷ g) d =
    omega (arith, get_or-in_degrees x g (count_targets vs d), get_or-count_targets x vs d)

pub get_or-out_degrees :
    (x : TransactionId) (g : Wfg) (d : Map ℕ)
    → IsUnique g
    → Map.get_or x 0 (out_degrees g d)
      ≡ (if Map.contains x g then length (Map.get_or x [] g) else Map.get_or x 0 d)
unfolding out_degrees
get_or-out_degrees x [] d u = refl
get_or-out_degrees x ((t, vs) ∷ g) d u = ground (
  arith,
  get_or-out_degrees x g (Map.assign t (length vs) d) u.1,
  get_or-assign t x 0 (length vs) d,
)
