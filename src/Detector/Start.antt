-- ===== src/Detector/Start.antt =====
-- The state in which findCycles of DeadlockDetector.cpp begins its searches.
use mathlib.Core.List.{Memᴰ}
use mathlib.Core.List.Memᴰ
use hawk_txn.Common.{
  ◌≡◌, refl, inl, inr, Bool, true, false, ◌||◌, List, [], ◌∷◌, ◌==◌, arith, Bool-cases, ap, ◌∙◌,
  elem, subst,
}
use hawk_txn.Common.Int.{ℤ, pos, is_pos}
use hawk_txn.Map
use hawk_txn.Map.{Map, get_or-assign, contains-assign}
use hawk_txn.Types.{TransactionId}
use hawk_txn.Detector.{
  Wfg, Search, count_of, on_stack, parent_of, start, init_node, init_keys, init_target,
  init_targets, init_all_targets, empty_search, initial_count, out_degrees, in_degrees,
}
use hawk_txn.Detector.Graph.{Edge}

-- No cycle yet, and every map reads as its default.
pub record IsBlank (s : Search) : Type 0 where
  pub parents : (x : TransactionId) → parent_of s.parent x ≡ 0
  pub stack : (x : TransactionId) → on_stack s x ≡ false
  pub frequencies : (x : TransactionId) → Map.get_or x 0 s.frequency ≡ 0
  pub none_found : s.cycles ≡ []

-- Somebody waits for the transaction.
abbrev pub targeted : Wfg → TransactionId → Bool
targeted [] v = false
targeted ((t, vs) ∷ g) v = elem v vs || targeted g v

-- Every entry of `visited_count` is the transaction's initial count.
abbrev pub Counts : (TransactionId → ℤ) → Search → Type 0
Counts count s =
    (x : TransactionId) → Map.contains x s.visited_count ≡ true → count_of s x ≡ count x

module _ (count : TransactionId → ℤ) where
  init_node-IsBlank : (t : TransactionId) (s : Search) → IsBlank s → IsBlank (init_node count t s)
  unfolding init_node
  init_node-IsBlank t s b = record {
    parents = λ x. ground (arith, get_or-assign t x 0 0 s.parent, b.parents x);
    stack = λ x. ground (arith, get_or-assign t x false false s.recursion_stack, b.stack x);
    frequencies = λ x. ground (arith, get_or-assign t x 0 0 s.frequency, b.frequencies x);
    none_found = b.none_found;
  }

  init_keys-IsBlank : (g : Wfg) (s : Search) → IsBlank s → IsBlank (init_keys count g s)
  unfolding init_keys
  init_keys-IsBlank [] s b = b
  init_keys-IsBlank ((t, vs) ∷ g) s b =
      init_keys-IsBlank g (init_node count t s) (init_node-IsBlank t s b)

  -- A target that has its entry is left alone.
  init_target_keeps {ℓ} :
      (P : Search → Type ℓ) (v : TransactionId) (s : Search)
      → (Map.contains v s.visited_count ≡ true → P s)
      → (Map.contains v s.visited_count ≡ false → P (init_node count v s))
      → P (init_target count v s)
  unfolding init_target
  init_target_keeps P v s old new = elim (Bool-cases (Map.contains v s.visited_count)) [
    | inl e ↦ subst P (ground arith) (old e)
    | inr e ↦ subst P (ground arith) (new e)
  ]

  init_targets-IsBlank :
      (vs : List TransactionId) (s : Search) → IsBlank s → IsBlank (init_targets count vs s)
  unfolding init_targets
  init_targets-IsBlank [] s b = b
  init_targets-IsBlank (v ∷ vs) s b =
      init_targets-IsBlank vs (init_target count v s)
        (init_target_keeps IsBlank v s (λ _. b) (λ _. init_node-IsBlank v s b))

  init_all_targets-IsBlank :
      (g : Wfg) (s : Search) → IsBlank s → IsBlank (init_all_targets count g s)
  unfolding init_all_targets
  init_all_targets-IsBlank [] s b = b
  init_all_targets-IsBlank ((t, vs) ∷ g) s b =
      init_all_targets-IsBlank g (init_targets count vs s) (init_targets-IsBlank vs s b)

  init_node-Counts :
      (t : TransactionId) (s : Search) → Counts count s → Counts count (init_node count t s)
  unfolding init_node
  init_node-Counts t s c = λ x h. ground (
    arith,
    get_or-assign t x (pos 0) (count t) s.visited_count,
    contains-assign t x (count t) s.visited_count,
    c x,
  )

  -- An entry, once made, stays.
  contains-init_node :
      (t x : TransactionId) (s : Search)
      → Map.contains x (init_node count t s).visited_count
        ≡ t == x || Map.contains x s.visited_count
  unfolding init_node
  contains-init_node t x s = contains-assign t x (count t) s.visited_count

  -- The entries of `s` and those of `xs` are entries of `s'`.
  abbrev Covers : (TransactionId → Bool) → Search → Search → Type 0
  Covers p s s' =
      (x : TransactionId)
      → p x || Map.contains x s.visited_count ≡ true
      → Map.contains x s'.visited_count ≡ true

  init_keys-Counts :
      (g : Wfg) (s : Search)
      → Counts count s
      → Counts count (init_keys count g s) × Covers (λ x. Map.contains x g) s (init_keys count g s)
  unfolding init_keys
  init_keys-Counts [] s c = (c, λ x h. h)
  init_keys-Counts ((t, vs) ∷ g) s c =
      let (cs, cover) = init_keys-Counts g (init_node count t s) (init_node-Counts t s c) in
      (cs, λ x h. cover x (ground (arith, contains-init_node t x s)))

  init_target-Counts :
      (v : TransactionId) (s : Search)
      → Counts count s
      → Counts count (init_target count v s) × Covers (λ x. v == x) s (init_target count v s)
  init_target-Counts v s c =
      init_target_keeps (λ s'. Counts count s' × Covers (λ x. v == x) s s') v s
        (λ e. (c, λ x h. ground (arith, e)))
        (λ _. (init_node-Counts v s c, λ x h. contains-init_node v x s ∙ h))

  init_targets-Counts :
      (vs : List TransactionId) (s : Search)
      → Counts count s
      → Counts count (init_targets count vs s) × Covers (λ x. elem x vs) s (init_targets count vs s)
  unfolding init_targets
  init_targets-Counts [] s c = (c, λ x h. h)
  init_targets-Counts (v ∷ vs) s c =
      let (one, first) = init_target-Counts v s c in
      let (cs, cover) = init_targets-Counts vs (init_target count v s) one in
      (cs, λ x h. cover x (ground (arith, first x)))

  init_all_targets-Counts :
      (g : Wfg) (s : Search)
      → Counts count s
      → Counts count (init_all_targets count g s)
        × Covers (targeted g) s (init_all_targets count g s)
  unfolding init_all_targets
  init_all_targets-Counts [] s c = (c, λ x h. h)
  init_all_targets-Counts ((t, vs) ∷ g) s c =
      let (one, first) = init_targets-Counts vs s c in
      let (cs, cover) = init_all_targets-Counts g (init_targets count vs s) one in
      (cs, λ x h. cover x (ground (arith, first x)))

elem_of_mem : (x : TransactionId) (vs : List TransactionId) → Memᴰ x vs → elem x vs ≡ true
elem_of_mem x [] m = elim m [ ]
elem_of_mem x (y ∷ vs) (Memᴰ.head e) = ground arith
elem_of_mem x (y ∷ vs) (Memᴰ.tail m) = ground (arith, elem_of_mem x vs m)

pub targeted_of_Edge : (g : Wfg) (u v : TransactionId) → Edge g u v → targeted g v ≡ true
targeted_of_Edge [] u v m = absurd (Memᴰ.not-nil m)
targeted_of_Edge ((t, vs) ∷ g) u v m = elim (Bool-cases (t == u)) [
  | inl here ↦ ground (arith, elem_of_mem v vs (rw here at m))
  | inr there ↦ ground (arith, targeted_of_Edge g u v (rw there at m))
]

pub start-IsBlank : (g : Wfg) → IsBlank (start g)
unfolding start
start-IsBlank g = init_all_targets-IsBlank _ g _ (
    init_keys-IsBlank _ g empty_search (record {
      parents = λ x. refl;
      stack = λ x. refl;
      frequencies = λ x. refl;
      none_found = refl;
    }))

pub start-Counts : (g : Wfg) → Counts (initial_count (out_degrees g []) (in_degrees g [])) (start g)
unfolding start
start-Counts g =
    let count = initial_count (out_degrees g []) (in_degrees g []) in
    let (ks, _) = init_keys-Counts count g empty_search (λ x e. cc e) in
    (init_all_targets-Counts count g (init_keys count g empty_search) ks).0

-- A transaction of the graph begins with |out_degree - in_degree| + 1.
pub start_count :
    (g : Wfg) (v : TransactionId)
    → Map.contains v g || targeted g v ≡ true
    → count_of (start g) v ≡ initial_count (out_degrees g []) (in_degrees g []) v
unfolding start
start_count g v h =
    let count = initial_count (out_degrees g []) (in_degrees g []) in
    let (ks, keyed) = init_keys-Counts count g empty_search (λ x e. cc e) in
    let (ts, hit) = init_all_targets-Counts count g (init_keys count g empty_search) ks in
    ts v (hit v (ground (arith, keyed v)))

-- A transaction that somebody waits for can be entered at least once.
pub start_count_pos :
    (g : Wfg) (u v : TransactionId) → Edge g u v → is_pos (count_of (start g) v) ≡ true
start_count_pos g u v e =
    ap is_pos (start_count g v (ground (arith, targeted_of_Edge g u v e))) ∙ ground arith
