-- ===== src/Detector/Tests.antt =====
-- Runs of DeadlockDetector.cpp.
use mathlib.Core.List.{Memᴰ}
use mathlib.Core.List.Memᴰ
use hawk_txn.Common.{ℕ, zero, suc, ◌≡◌, refl, some, none, List, [], ◌∷◌, All, arith, length, subst}
use hawk_txn.Map
use hawk_txn.Map.{Map}
use hawk_txn.Types.{TransactionId}
use hawk_txn.Detector.{
  Wfg, enter, leave, set_parent, report, follow, follow_all, dfs, find_cycles, start, out_degrees,
  in_degrees, count_targets, init_keys, init_all_targets, init_targets, init_target, init_node,
}
use hawk_txn.Detector.Graph.{Edge, Walk, IsCycle}
use hawk_txn.Detector.Sound.{find_cycles_sound, occurrences_all}
use hawk_txn.Detector.Complete.{find_cycles_complete}
use hawk_txn.Detector.Total.{effort, work}
use hawk_txn.Detector.Total.Degrees.{waiters}
use hawk_txn.Detector.Total.Acyclic.{find_cycles_acyclic}
use hawk_txn.Detector.Total.Balanced.{find_cycles_balanced}
use hawk_txn.Detector.Diverge.{find_cycles_diverges}

-- Two transactions that wait for each other.
abbrev ring : Wfg
ring = (1, 2 ∷ []) ∷ (2, 1 ∷ []) ∷ []

find_cycles-ring : find_cycles 9 9 ring ≡ some ((1 ∷ 2 ∷ []) ∷ [], (1, 1) ∷ (2, 1) ∷ [])
unfolding enter leave set_parent report follow follow_all dfs find_cycles Map.assign
find_cycles-ring = refl

far : (n : ℕ) → Map.get_or (suc (suc (suc n))) [] ring ≡ []
far n = ground arith

ring_no_zero : (u : TransactionId) → ¬ Edge ring u 0
ring_no_zero (suc zero) m = absurd (omega (arith, Memᴰ.eq_of_singleton m))
ring_no_zero (suc (suc zero)) m = absurd (omega (arith, Memᴰ.eq_of_singleton m))
ring_no_zero zero m = Memᴰ.not-nil m
ring_no_zero (suc (suc (suc n))) m = Memᴰ.not-nil (subst (λ l. Memᴰ 0 l) (far n) m)

find_cycles_sound_example :
    All (IsCycle ring) ((1 ∷ 2 ∷ []) ∷ [])
    × ((x : TransactionId)
        → Map.get_or {V = ℕ} x 0 ((1, 1) ∷ (2, 1) ∷ []) ≡ occurrences_all x ((1 ∷ 2 ∷ []) ∷ []))
find_cycles_sound_example = find_cycles_sound 9 ring ring_no_zero 9 _ _ find_cycles-ring

-- One transaction that waits for another.
abbrev chain : Wfg
chain = (1, 2 ∷ []) ∷ []

find_cycles-chain : find_cycles 9 9 chain ≡ some ([], (1, 0) ∷ (2, 0) ∷ [])
unfolding enter leave set_parent report follow follow_all dfs find_cycles Map.assign
find_cycles-chain = refl

find_cycles_complete_example : ¬ Walk chain 1 1
find_cycles_complete_example = find_cycles_complete 9 chain 9 _ find_cycles-chain 1

find_cycles_acyclic_example : (frequency : Map ℕ) × (find_cycles 9 9 chain ≡ some ([], frequency))
unfolding effort work Map.assign start out_degrees in_degrees count_targets init_keys
    init_all_targets init_targets init_target init_node
find_cycles_acyclic_example =
    find_cycles_acyclic chain 9 9 (find_cycles_complete 9 chain 9 _ find_cycles-chain) (omega arith)
      (omega arith)

find_cycles_balanced_example :
    (cycles : List (List TransactionId)) × (frequency : Map ℕ) × (find_cycles 9 9 ring
      ≡ some (cycles, frequency))
unfolding effort work Map.assign start out_degrees in_degrees count_targets init_keys
    init_all_targets init_targets init_target init_node
find_cycles_balanced_example =
    find_cycles_balanced ring 9 9 (refl, (refl, tt)) balanced (omega arith) (omega arith)
  where
    balanced : (v : TransactionId) → length (Map.get_or v [] ring) ≡ waiters v ring
    balanced v = ground arith

-- Transaction 2 has two locks to wait for, and 4 waits for 2 as well.
find_cycles_diverges_example :
    find_cycles 50 60 ((1, 2 ∷ []) ∷ (2, 3 ∷ 1 ∷ []) ∷ (3, 2 ∷ []) ∷ (4, 2 ∷ []) ∷ []) ≡ none
find_cycles_diverges_example =
    find_cycles_diverges ((2, 3 ∷ 1 ∷ []) ∷ (3, 2 ∷ []) ∷ (4, 2 ∷ []) ∷ []) 50 60
      (refl, (refl, (refl, (refl, tt)))) refl refl refl refl refl
