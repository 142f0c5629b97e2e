-- ===== src/Detector/Rules.antt =====
-- One rule for what a search keeps, and the reads of its maps after each step.
use mathlib.Core.List.{Memᴰ}
use hawk_txn.Common.{
  ℕ, zero, suc, ◌≡◌, refl, inl, inr, true, false, Option, some, List, [], ◌∷◌, ◌==◌, if◌then◌else◌,
  Bool-cases, subst, some_inj, >>=-eq-some,
}
use hawk_txn.Common.Int.{pos, pred_ℤ, is_pos}
use hawk_txn.Map
use hawk_txn.Map.{get_or-assign}
use hawk_txn.Types.{TransactionId}
use hawk_txn.Detector.{
  Wfg, Search, count_of, on_stack, parent_of, enter, leave, set_parent, report, follow, follow_all,
  dfs, search_keys,
}
use hawk_txn.Detector.Graph.{Edge}

pub count_of-enter :
    (u v : TransactionId) (s : Search)
    → count_of (enter u s) v ≡ (if u == v then pred_ℤ (count_of s u) else count_of s v)
unfolding enter
count_of-enter u v s = get_or-assign u v (pos 0) (pred_ℤ (count_of s u)) s.visited_count

pub on_stack-enter :
    (u v : TransactionId) (s : Search)
    → on_stack (enter u s) v ≡ (if u == v then true else on_stack s v)
unfolding enter
on_stack-enter u v s = get_or-assign u v false true s.recursion_stack

pub on_stack-leave :
    (u v : TransactionId) (s : Search)
    → on_stack (leave u s) v ≡ (if u == v then false else on_stack s v)
unfolding leave
on_stack-leave u v s = get_or-assign u v false false s.recursion_stack

pub parent_of-set :
    (v u x : TransactionId) (s : Search)
    → parent_of (set_parent v u s).parent x ≡ (if v == x then u else parent_of s.parent x)
unfolding set_parent
parent_of-set v u x s = get_or-assign v x 0 u s.parent

module _ {ℓ} (w : ℕ) (g : Wfg) (P : Search → Type ℓ)
    (enter_keeps : (u : TransactionId) (s : Search) → P s → P (enter u s))
    (leave_keeps : (u : TransactionId) (s : Search) → P s → P (leave u s))
    (parent_keeps : (u v : TransactionId) (s : Search) → Edge g u v → P s → P (set_parent v u s))
    (report_keeps : (u v : TransactionId) (s s' : Search)
      → Edge g u v
      → P s
      → report w u v s ≡ some s'
      → P s') where
  follow_keeps :
      (call : TransactionId → Search → Option Search) (u v : TransactionId) (s s' : Search)
      → ((x : TransactionId) (t t' : Search) → P t → call x t ≡ some t' → P t')
      → Edge g u v
      → P s
      → follow w call u v s ≡ some s'
      → P s'
  unfolding follow
  follow_keeps call u v s s' ih e p h = elim (Bool-cases (is_pos (count_of s v))) [
    | inl deeper ↦ ih v (set_parent v u s) s' (parent_keeps u v s e p) (rw (deeper, follow) at h)
    | inr done ↦ elim (Bool-cases (on_stack s v)) [
      | inl back ↦ report_keeps u v s s' e p (rw (done, back, follow) at h)
      | inr cross ↦ subst P (some_inj (rw (done, cross, follow) at h)) p
    ]
  ]

  pub follow_all_keeps :
      (call : TransactionId → Search → Option Search) (u : TransactionId) (vs : List TransactionId)
      (s s' : Search)
      → ((x : TransactionId) (t t' : Search) → P t → call x t ≡ some t' → P t')
      → ((v : TransactionId) → Memᴰ v vs → Edge g u v)
      → P s
      → follow_all w call u vs s ≡ some s'
      → P s'
  unfolding follow_all
  follow_all_keeps call u [] s s' ih es p h = subst P (some_inj h) p
  follow_all_keeps call u (v ∷ vs) s s' ih es p h =
      let (t, first, rest) = >>=-eq-some (follow w call u v s) _ h in
      follow_all_keeps call u vs t s' ih (λ x m. es x (Memᴰ.tail m))
        (follow_keeps call u v s t ih (es v (Memᴰ.head refl)) p first) rest

  -- What each step of a search keeps, a search keeps.
  pub dfs_keeps :
      (fuel : ℕ) (u : TransactionId) (s s' : Search) → P s → dfs w fuel g u s ≡ some s' → P s'
  unfolding dfs
  dfs_keeps zero u s s' p h = absurd (cc h)
  dfs_keeps (suc fuel) u s s' p h =
      let (t, inner, last) =
        >>=-eq-some (follow_all w (dfs w fuel g) u (Map.get_or u [] g) (enter u s)) _ h in
      subst P (some_inj last) (
        leave_keeps u t (
          follow_all_keeps (dfs w fuel g) u (Map.get_or u [] g) (enter u s) t (dfs_keeps fuel)
            (λ v m. m) (enter_keeps u s p) inner))

  pub search_keys_keeps :
      (fuel : ℕ) (rest : Wfg) (s s' : Search) → P s → search_keys w fuel g rest s ≡ some s' → P s'
  unfolding search_keys
  search_keys_keeps fuel [] s s' p h = subst P (some_inj h) p
  search_keys_keeps fuel ((t, vs) ∷ rest) s s' p h =
      let (s1, first, later) = >>=-eq-some (dfs w fuel g t s) _ h in
      search_keys_keeps fuel rest s1 s' (dfs_keeps fuel t s s1 p first) later
