-- ===== src/Detector/Total.antt =====
-- When findCycles of DeadlockDetector.cpp returns: a rule for any invariant that is indexed by
-- the stack of the search, and the fuel that is enough.
pub mod Degrees
pub mod Acyclic
pub mod Balanced
use mathlib.Core.List.{Memᴰ}
use mathlib.Core.List.Memᴰ
use hawk_txn.Common.{
  ℕ, zero, suc, ◌+◌, ◌≤◌, ◌<◌, ◌≡◌, refl, inl, inr, ◌⊎◌, Bool, true, false, Option, some, none,
  List, [], ◌∷◌, ◌++◌, ◌==◌, if◌then◌else◌, arith, Bool-cases, sym, ap, ◌∙◌, subst, some_inj,
  >>=-eq-some, ◌>>=◌, length,
}
use hawk_txn.Common.Int.{ℤ, pos, pred_ℤ, is_pos, pos_part}
use hawk_txn.Map
use hawk_txn.Map.{Map}
use hawk_txn.Types.{TransactionId}
use hawk_txn.Detector.{
  Wfg, Search, count_of, on_stack, enter, leave, set_parent, report, follow, follow_all, dfs,
  search_keys, walk, find_cycles, start,
}
use hawk_txn.Detector.Graph.{Edge}
use hawk_txn.Detector.Rules.{count_of-enter}

abbrev pub all_targets : Wfg → List TransactionId
all_targets [] = []
all_targets ((t, vs) ∷ g) = vs ++ all_targets g

-- The number of times that the transactions of the list can still be entered.
unfoldable pub work : List TransactionId → Search → ℕ
work [] s = 0
work (x ∷ xs) s = pos_part (count_of s x) + work xs s

mem_all_targets : (g : Wfg) (u v : TransactionId) → Edge g u v → Memᴰ v (all_targets g)
mem_all_targets [] u v m = absurd (Memᴰ.not-nil m)
mem_all_targets ((t, vs) ∷ g) u v m = elim (Bool-cases (t == u)) [
  | inl here ↦ Memᴰ.append_left (all_targets g) (rw here at m)
  | inr there ↦ Memᴰ.append_right vs (mem_all_targets g u v (rw there at m))
]

pred_part : (z : ℤ) → pos_part (pred_ℤ z) ≤ pos_part z
pred_part z = ground arith

pred_part-lt : (z : ℤ) → is_pos z ≡ true → pos_part (pred_ℤ z) < pos_part z
pred_part-lt z h = ground arith

work-enter-le :
    (xs : List TransactionId) (v : TransactionId) (s : Search) → work xs (enter v s) ≤ work xs s
unfolding work
work-enter-le [] v s = omega arith
work-enter-le (x ∷ xs) v s =
    ground (arith, count_of-enter v x s, pred_part (count_of s v), work-enter-le xs v s)

work-enter-lt :
    (xs : List TransactionId) (v : TransactionId) (s : Search)
    → Memᴰ v xs
    → is_pos (count_of s v) ≡ true
    → work xs (enter v s) < work xs s
unfolding work
work-enter-lt [] v s m h = absurd (Memᴰ.not-nil m)
work-enter-lt (x ∷ xs) v s m h = elim (Bool-cases (v == x)) [
  | inl same ↦
      ground (arith, count_of-enter v x s, pred_part-lt (count_of s v), work-enter-le xs v s)
  | inr other ↦ elim (Memᴰ.cases_cons m) [
    | inl e ↦ absurd (ground arith)
    | inr rest ↦ ground (arith, count_of-enter v x s, work-enter-lt xs v s rest h)
  ]
]

-- The step that sets a parent, and a report, change no count.
work-set_parent :
    (xs : List TransactionId) (v u : TransactionId) (s : Search)
    → work xs (set_parent v u s) ≡ work xs s
unfolding work set_parent
work-set_parent [] v u s = refl
work-set_parent (x ∷ xs) v u s = ap (λ n. pos_part (count_of s x) + n) (work-set_parent xs v u s)

work-leave :
    (xs : List TransactionId) (u : TransactionId) (s : Search) → work xs (leave u s) ≡ work xs s
unfolding work leave
work-leave [] u s = refl
work-leave (x ∷ xs) u s = ap (λ n. pos_part (count_of s x) + n) (work-leave xs u s)

work_of_counts :
    (xs : List TransactionId) (s t : Search)
    → t.visited_count ≡ s.visited_count
    → work xs t ≡ work xs s
unfolding work
work_of_counts [] s t e = refl
work_of_counts (x ∷ xs) s t e =
    ground (arith, ap (λ m. pos_part (Map.get_or x (pos 0) m)) e, work_of_counts xs s t e)

report-counts :
    (w : ℕ) (u v : TransactionId) (s s' : Search)
    → report w u v s ≡ some s'
    → s'.visited_count ≡ s.visited_count
unfolding report
report-counts w u v s s' h =
    let (out, walked, last) = >>=-eq-some (walk w s.parent u v [] s.frequency) _ h in
    sym (ap (λ t. t.visited_count) (some_inj last))

module _ (w : ℕ) (g : Wfg) (I : List TransactionId → Search → Type 0)
    (call_ok : (u v : TransactionId) (st : List TransactionId) (s : Search)
      → I (u ∷ st) s
      → Edge g u v
      → is_pos (count_of s v) ≡ true
      → I (v ∷ u ∷ st) (enter v (set_parent v u s)))
    (root_ok : (u : TransactionId) (s : Search) → I [] s → I (u ∷ []) (enter u s))
    (leave_ok : (u : TransactionId) (st : List TransactionId) (s : Search)
      → I (u ∷ st) s
      → I st (leave u s))
    (report_ok : (u v : TransactionId) (st : List TransactionId) (s : Search)
      → I (u ∷ st) s
      → Edge g u v
      → on_stack s v ≡ true
      → length (u ∷ st) ≤ w
      → (s' : Search) × (report w u v s ≡ some s') × I (u ∷ st) s') where
  abbrev left : Search → ℕ
  left = work (all_targets g)

  -- `call` returns from every state with little enough left to do.
  abbrev Returns : ℕ → (TransactionId → Search → Option Search) → Type 0
  Returns f call =
      (v : TransactionId) (st : List TransactionId) (s : Search)
      → I (v ∷ st) (enter v s)
      → left (enter v s) < f
      → length st + f ≤ w
      → (s' : Search) × (call v s ≡ some s') × I st s' × (left s' ≤ left (enter v s))

  follow-Returns :
      (f : ℕ) (call : TransactionId → Search → Option Search) (u v : TransactionId)
      (st : List TransactionId) (s : Search)
      → Returns f call
      → Edge g u v
      → I (u ∷ st) s
      → left s ≤ f
      → length (u ∷ st) + f ≤ w
      → (s' : Search) × (follow w call u v s ≡ some s') × I (u ∷ st) s' × (left s' ≤ left s)
  unfolding follow
  follow-Returns f call u v st s ih e p small deep = elim (Bool-cases (is_pos (count_of s v))) [
    | inl deeper ↦
        let t = set_parent v u s in
        let same = work-set_parent (all_targets g) v u s in
        let less =
          work-enter-lt (all_targets g) v t (mem_all_targets g u v e)
            (unfold set_parent in deeper) in
        let (s', ran, q, le) = ih v (u ∷ st) t (call_ok u v st s p e deeper) (omega arith) deep in
        (s', rw (deeper, follow) ran, q, omega arith)
    | inr done ↦ elim (Bool-cases (on_stack s v)) [
      | inl back ↦
          let (s', ran, q) = report_ok u v st s p e back (omega arith) in
          (
            s',
            rw (done, back, follow) ran,
            q,
            omega (arith, work_of_counts (all_targets g) s s' (report-counts w u v s s' ran)),
          )
      | inr cross ↦ (s, rw (done, cross, follow), p, omega arith)
    ]
  ]

  follow_all-Returns :
      (f : ℕ) (call : TransactionId → Search → Option Search) (u : TransactionId)
      (vs st : List TransactionId) (s : Search)
      → Returns f call
      → ((v : TransactionId) → Memᴰ v vs → Edge g u v)
      → I (u ∷ st) s
      → left s ≤ f
      → length (u ∷ st) + f ≤ w
      → (s' : Search) × (follow_all w call u vs s ≡ some s') × I (u ∷ st) s' × (left s' ≤ left s)
  unfolding follow_all
  follow_all-Returns f call u [] st s ih es p small deep = (s, refl, p, omega arith)
  follow_all-Returns f call u (v ∷ vs) st s ih es p small deep =
      let (t, first, q, le) =
        follow-Returns f call u v st s ih (es v (Memᴰ.head refl)) p small deep in
      let (s', rest, r, le') =
        follow_all-Returns f call u vs st t ih (λ x m. es x (Memᴰ.tail m)) q (omega arith) deep in
      (s', rw (first, follow_all) rest, r, omega arith)

  dfs-Returns : (f : ℕ) → Returns f (dfs w f g)
  unfolding dfs
  dfs-Returns zero v st s p small deep = absurd (omega arith)
  dfs-Returns (suc f) v st s p small deep =
      let (t, inner, q, le) =
        follow_all-Returns f (dfs w f g) v (Map.get_or v [] g) st (enter v s) (dfs-Returns f)
          (λ x m. m) p (omega arith) (omega arith) in
      (leave v t, rw inner, leave_ok v st t q, omega (arith, work-leave (all_targets g) v t))

  search_keys_returns :
      (f : ℕ) (rest : Wfg) (s : Search)
      → I [] s
      → left s < f
      → f ≤ w
      → (s' : Search) × (search_keys w f g rest s ≡ some s') × I [] s'
  unfolding search_keys
  search_keys_returns f [] s p small deep = (s, refl, p)
  search_keys_returns f ((k, vs) ∷ rest) s p small deep =
      let (t, first, q, le) =
        dfs-Returns f k [] s (root_ok k s p) (omega (arith, work-enter-le (all_targets g) k s))
          (omega arith) in
      let (s', later, r) =
        search_keys_returns f rest t q (omega (arith, work-enter-le (all_targets g) k s)) deep in
      (s', rw (first, search_keys) later, r)

-- The fuel that is enough where the walks end: the number of entries that the initial counts allow.
unfoldable pub effort : Wfg → ℕ
unfolding work
effort g = work (all_targets g) (start g)
