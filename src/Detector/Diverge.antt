-- ===== src/Detector/Diverge.antt =====
-- A class of wait-for graphs on which findCycles of DeadlockDetector.cpp does not return. A
-- transaction that may be entered twice is entered below itself, `parent` then runs in a ring, and
-- the walk to a transaction outside the ring never gets there.
use hawk_txn.Common.{
  ℕ, zero, suc, ◌+◌, ◌≡◌, ◌≢◌, refl, inl, inr, true, false, Option, some, none, List, [], ◌∷◌, ◌++◌,
  ◌==◌, arith, Bool-cases, sym, ap, ◌∙◌, some_inj, >>=-eq-some, ◌>>=◌, length,
}
use hawk_txn.Common.Int.{pos, pred_ℤ, abs_diff}
use hawk_txn.Map
use hawk_txn.Map.{Map, IsUnique, get_or-contains}
use hawk_txn.Types.{TransactionId}
use hawk_txn.Detector.{
  Wfg, Search, count_of, on_stack, parent_of, increment, enter, set_parent, report, follow,
  follow_all, dfs, search_keys, find_cycles, start, walk,
}
use hawk_txn.Detector.Rules.{count_of-enter, on_stack-enter, parent_of-set}
use hawk_txn.Detector.Start.{start_count}
use hawk_txn.Detector.Total.Degrees.{waiters, get_or-in_degrees, get_or-out_degrees}

-- In a ring of two parents the walk to a third transaction never ends.
walk_ring :
    (fuel : ℕ) (parent : Map TransactionId) (a b v : TransactionId) (cycle : List TransactionId)
    (freq : Map ℕ)
    → parent_of parent a ≡ b
    → parent_of parent b ≡ a
    → a ≢ v
    → b ≢ v
    → walk fuel parent a v cycle freq ≡ none
unfolding walk
walk_ring zero parent a b v cycle freq p q h k = refl
walk_ring (suc fuel) parent a b v cycle freq p q h k =
    let differs : (a == v) ≡ false = ground arith in
    rw (differs, walk, p) (walk_ring fuel parent b a v (cycle ++ a ∷ []) (increment a freq) q p k h)

report_ring :
    (w : ℕ) (a b v : TransactionId) (s : Search)
    → parent_of s.parent a ≡ b
    → parent_of s.parent b ≡ a
    → a ≢ v
    → b ≢ v
    → report w a v s ≡ none
unfolding report
report_ring w a b v s p q h k = rw (walk_ring w s.parent a b v [] s.frequency p q h k)

-- A report leaves the counts, the stack and the parents alone.
report_frame :
    (w : ℕ) (u v : TransactionId) (s s' : Search)
    → report w u v s ≡ some s'
    → (s'.visited_count ≡ s.visited_count)
      × (s'.recursion_stack ≡ s.recursion_stack)
      × (s'.parent ≡ s.parent)
unfolding report
report_frame w u v s s' h =
    let (out, walked, last) = >>=-eq-some (walk w s.parent u v [] s.frequency) _ h in
    let e = some_inj last in
    (
      sym (ap (λ t. t.visited_count) e),
      sym (ap (λ t. t.recursion_stack) e),
      sym (ap (λ t. t.parent) e),
    )

none_first : (m : Option Search) (f : Search → Option Search) → m ≡ none → (m >>= f) ≡ none
none_first m f e = rw e

none_then :
    (m : Option Search) (f : Search → Option Search)
    → ((s : Search) → m ≡ some s → f s ≡ none)
    → (m >>= f) ≡ none
none_then none f h = refl
none_then (some s) f h = h s refl

follow_back :
    (w : ℕ) (call : TransactionId → Search → Option Search) (u v : TransactionId) (s : Search)
    → count_of s v ≡ pos 0
    → on_stack s v ≡ true
    → follow w call u v s ≡ report w u v s
unfolding follow
follow_back w call u v s c o = rw (c, o, follow)

follow_deeper :
    (w n : ℕ) (call : TransactionId → Search → Option Search) (u v : TransactionId) (s : Search)
    → count_of s v ≡ pos (suc n)
    → follow w call u v s ≡ call v (set_parent v u s)
unfolding follow
follow_deeper w n call u v s c = rw (c, follow)

-- A dfs that has no result in its loop has none.
dfs-none :
    (w f : ℕ) (g : Wfg) (u : TransactionId) (s : Search)
    → ((fuel : ℕ) → follow_all w (dfs w fuel g) u (Map.get_or u [] g) (enter u s) ≡ none)
    → dfs w f g u s ≡ none
unfolding dfs
dfs-none w zero g u s h = refl
dfs-none w (suc f) g u s h = rw (h f)

-- Transaction 2 waits for 3 and 1, and 3 waits for 2.
module _ (w : ℕ) (g : Wfg) (two : Map.get_or 2 [] g ≡ 3 ∷ 1 ∷ [])
    (three : Map.get_or 3 [] g ≡ 2 ∷ []) where
  -- Transaction 2 once more, below 3, which is below 2.
  again :
      (f : ℕ) (s : Search)
      → count_of s 1 ≡ pos 0
      → count_of s 3 ≡ pos 0
      → on_stack s 1 ≡ true
      → on_stack s 3 ≡ true
      → parent_of s.parent 2 ≡ 3
      → parent_of s.parent 3 ≡ 2
      → dfs w f g 2 s ≡ none
  unfolding follow_all
  again f s c1 c3 o1 o3 p2 p3 = dfs-none w f g 2 s λ fuel. rw two (
      none_then _ _ λ t h.
        let back =
          follow_back w (dfs w fuel g) 2 3 (enter 2 s) (count_of-enter 2 3 s ∙ c3)
            (on_stack-enter 2 3 s ∙ o3) in
        let (cs, os, ps) = report_frame w 2 3 (enter 2 s) t (sym back ∙ h) in
        let c1' = ap (Map.get_or 1 (pos 0)) cs ∙ count_of-enter 2 1 s ∙ c1 in
        let o1' = ap (Map.get_or 1 false) os ∙ on_stack-enter 2 1 s ∙ o1 in
        none_first _ _ (
          follow_back w (dfs w fuel g) 2 1 t c1' o1'
          ∙ report_ring w 2 3 1 t (ap (λ p. parent_of p 2) ps ∙ unfold enter in p2)
              (ap (λ p. parent_of p 3) ps ∙ unfold enter in p3) (omega arith) (omega arith)))

  -- Transaction 3 below 2: it can enter 2 a second time.
  from_3 :
      (f : ℕ) (s : Search)
      → count_of s 1 ≡ pos 0
      → count_of s 2 ≡ pos 1
      → count_of s 3 ≡ pos 1
      → on_stack s 1 ≡ true
      → parent_of s.parent 3 ≡ 2
      → dfs w f g 3 s ≡ none
  unfolding follow_all
  from_3 f s c1 c2 c3 o1 p3 = dfs-none w f g 3 s λ fuel.
      let t = set_parent 2 3 (enter 3 s) in
      let c = count_of-enter 3 2 s ∙ c2 in
      rw three (
        none_first _ _ (
          follow_deeper w 0 (dfs w fuel g) 3 2 (enter 3 s) c
          ∙ again fuel t (unfold set_parent in count_of-enter 3 1 s ∙ c1)
              (unfold set_parent in count_of-enter 3 3 s ∙ ap pred_ℤ c3)
              (unfold set_parent in on_stack-enter 3 1 s ∙ o1)
              (unfold set_parent in on_stack-enter 3 3 s) (parent_of-set 2 3 2 (enter 3 s))
              (parent_of-set 2 3 3 (enter 3 s) ∙ unfold enter in p3)))

  -- Transaction 2 below 1.
  from_2 :
      (f : ℕ) (s : Search)
      → count_of s 1 ≡ pos 0
      → count_of s 2 ≡ pos 2
      → count_of s 3 ≡ pos 1
      → on_stack s 1 ≡ true
      → dfs w f g 2 s ≡ none
  unfolding follow_all
  from_2 f s c1 c2 c3 o1 = dfs-none w f g 2 s λ fuel.
      let t = set_parent 3 2 (enter 2 s) in
      rw two (
        none_first _ _ (
          follow_deeper w 0 (dfs w fuel g) 2 3 (enter 2 s) (count_of-enter 2 3 s ∙ c3)
          ∙ from_3 fuel t (unfold set_parent in count_of-enter 2 1 s ∙ c1)
              (unfold set_parent in count_of-enter 2 2 s ∙ ap pred_ℤ c2)
              (unfold set_parent in count_of-enter 2 3 s ∙ c3)
              (unfold set_parent in on_stack-enter 2 1 s ∙ o1) (parent_of-set 3 2 3 (enter 2 s))))

  from_1 :
      (f : ℕ) (s : Search)
      → Map.get_or 1 [] g ≡ 2 ∷ []
      → count_of s 1 ≡ pos 1
      → count_of s 2 ≡ pos 2
      → count_of s 3 ≡ pos 1
      → dfs w f g 1 s ≡ none
  unfolding follow_all
  from_1 f s first c1 c2 c3 = dfs-none w f g 1 s λ fuel.
      let t = set_parent 2 1 (enter 1 s) in
      rw first (
        none_first _ _ (
          follow_deeper w 1 (dfs w fuel g) 1 2 (enter 1 s) (count_of-enter 1 2 s ∙ c2)
          ∙ from_2 fuel t (unfold set_parent in count_of-enter 1 1 s ∙ ap pred_ℤ c1)
              (unfold set_parent in count_of-enter 1 2 s ∙ c2)
              (unfold set_parent in count_of-enter 1 3 s ∙ c3)
              (unfold set_parent in on_stack-enter 1 1 s)))

start_degrees :
    (g : Wfg) (v : TransactionId) (n m : ℕ)
    → IsUnique g
    → Map.contains v g ≡ true
    → length (Map.get_or v [] g) ≡ n
    → waiters v g ≡ m
    → count_of (start g) v ≡ pos (abs_diff n m + 1)
start_degrees g v n m u key out in_count =
    ground (arith, start_count g v, get_or-out_degrees v g [] u, get_or-in_degrees v g [])

search_keys-none :
    (w fuel : ℕ) (g : Wfg) (t : TransactionId) (vs : List TransactionId) (rest : Wfg) (s : Search)
    → dfs w fuel g t s ≡ none
    → search_keys w fuel g ((t, vs) ∷ rest) s ≡ none
unfolding search_keys
search_keys-none w fuel g t vs rest s e = rw e

key_of_target :
    (rest : Wfg) (v : TransactionId) {x : TransactionId} {xs : List TransactionId}
    → Map.get_or v [] rest ≡ x ∷ xs
    → Map.contains v ((1, 2 ∷ []) ∷ rest) ≡ true
key_of_target rest v e = elim (Bool-cases (Map.contains v rest)) [
  | inl there ↦ ground (arith, there)
  | inr gone ↦ absurd (cc (sym e ∙ get_or-contains v [] rest gone))
]

-- Let each transaction stand once in the graph, 1 wait for 2, 2 for 3 and for 1, and 3 for 2, and
-- let one more transaction wait for 2 and no other for 1 or 3. Then, if the search begins at 1,
-- no fuel is enough, whatever the rest of the graph.
pub find_cycles_diverges :
    (rest : Wfg) (w fuel : ℕ)
    → IsUnique ((1, 2 ∷ []) ∷ rest)
    → Map.get_or 2 [] rest ≡ 3 ∷ 1 ∷ []
    → Map.get_or 3 [] rest ≡ 2 ∷ []
    → waiters 1 rest ≡ 1
    → waiters 2 rest ≡ 2
    → waiters 3 rest ≡ 1
    → find_cycles w fuel ((1, 2 ∷ []) ∷ rest) ≡ none
unfolding find_cycles
find_cycles_diverges rest w fuel u two three w1 w2 w3 =
    let g : Wfg = (1, 2 ∷ []) ∷ rest in
    let stuck =
      from_1 w g two three fuel (start g) refl (start_degrees g 1 1 1 u refl refl (omega arith))
        (start_degrees g 2 2 3 u (key_of_target rest 2 two) (ap length two) (omega arith))
        (start_degrees g 3 1 1 u (key_of_target rest 3 three) (ap length three) (omega arith)) in
    rw (search_keys-none w fuel g 1 (2 ∷ []) rest (start g) stuck)
