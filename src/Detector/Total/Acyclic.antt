-- ===== src/Detector/Total/Acyclic.antt =====
-- Without a deadlock in the graph, findCycles of DeadlockDetector.cpp returns and reports nothing.
use mathlib.Core.List.{Memᴰ}
use mathlib.Core.List.Memᴰ
use hawk_txn.Common.{
  ℕ, ◌≤◌, ◌<◌, ◌≡◌, inl, inr, true, some, List, [], ◌∷◌, ◌==◌, arith, Bool-cases, sym, ap, subst,
}
use hawk_txn.Map.{Map}
use hawk_txn.Types.{TransactionId}
use hawk_txn.Detector.{Wfg, Search, on_stack, enter, leave, set_parent, find_cycles, start}
use hawk_txn.Detector.Graph.{Edge, Walk, one, more, Walk-trans, IsAcyclic}
use hawk_txn.Detector.Rules.{on_stack-enter, on_stack-leave}
use hawk_txn.Detector.Start.{start-IsBlank}
use hawk_txn.Detector.Total.{effort, search_keys_returns}

module _ (g : Wfg) where
  -- Each transaction of the stack waits for the one above it.
  abbrev Trail : List TransactionId → Type 0
  Trail [] = Unit
  Trail (x ∷ []) = Unit
  Trail (x ∷ y ∷ r) = Edge g y x × Trail (y ∷ r)

  Trail-Walk :
      (u : TransactionId) (st : List TransactionId) (v : TransactionId)
      → Trail (u ∷ st)
      → Memᴰ v st
      → Walk g v u
  Trail-Walk u [] v t m = absurd (Memᴰ.not-nil m)
  Trail-Walk u (y ∷ r) v t m = elim (Memᴰ.cases_cons m) [
    | inl here ↦ subst (λ z. Walk g z u) (sym here) (one t.0)
    | inr there ↦ Walk-trans (Trail-Walk y r v t.1 there) (one t.0)
  ]

  record Stacked (st : List TransactionId) (s : Search) : Type 0 where
    trail : Trail st
    marked : (x : TransactionId) → on_stack s x ≡ true → Memᴰ x st
    quiet : s.cycles ≡ []

  enter-marked :
      (v : TransactionId) (st : List TransactionId) (s : Search)
      → ((x : TransactionId) → on_stack s x ≡ true → Memᴰ x st)
      → (x : TransactionId) → on_stack (enter v s) x ≡ true
      → Memᴰ x (v ∷ st)
  enter-marked v st s marks x h = elim (Bool-cases (v == x)) [
    | inl same ↦ Memᴰ.head (ground arith)
    | inr other ↦ Memᴰ.tail (marks x (ground (arith, on_stack-enter v x s)))
  ]

  leave-marked :
      (u : TransactionId) (st : List TransactionId) (s : Search)
      → ((x : TransactionId) → on_stack s x ≡ true → Memᴰ x (u ∷ st))
      → (x : TransactionId) → on_stack (leave u s) x ≡ true
      → Memᴰ x st
  leave-marked u st s marks x h = elim (Bool-cases (u == x)) [
    | inl same ↦ absurd (ground (arith, on_stack-leave u x s))
    | inr other ↦ elim (Memᴰ.cases_cons (marks x (ground (arith, on_stack-leave u x s)))) [
      | inl e ↦ absurd (ground arith)
      | inr m ↦ m
    ]
  ]

  back-Edge-Walk :
      (u v : TransactionId) (st : List TransactionId)
      → Trail (u ∷ st)
      → Edge g u v
      → Memᴰ v (u ∷ st)
      → Walk g v v
  back-Edge-Walk u v st t e m = elim (Memᴰ.cases_cons m) [
    | inl here ↦ subst (λ z. Walk g z v) (sym here) (one e)
    | inr there ↦ more (Trail-Walk u st v t there) e
  ]

  -- If no transaction waits for itself, directly or through others, the search returns, given at
  -- least `effort g` + 1 as fuel and no less for its walks, and reports no cycle.
  pub find_cycles_acyclic :
      (w fuel : ℕ)
      → IsAcyclic g
      → effort g < fuel
      → fuel ≤ w
      → (frequency : Map ℕ) × (find_cycles w fuel g ≡ some ([], frequency))
  unfolding find_cycles effort set_parent enter leave
  find_cycles_acyclic w fuel acyclic enough deep =
      let b = start-IsBlank g in
      let (s, ran, q) =
        search_keys_returns w g Stacked
          (λ u v st t p e _. record {
            trail = (e, p.trail);
            marked = enter-marked v (u ∷ st) (set_parent v u t) p.marked;
            quiet = p.quiet;
          })
          (λ u t p. record { trail = tt; marked = enter-marked u [] t p.marked; quiet = p.quiet })
          (λ u st t p. record {
            trail = trail_rest u st p.trail;
            marked = leave-marked u st t p.marked;
            quiet = p.quiet;
          })
          (λ u v st t p e back _.
            absurd (acyclic v (back-Edge-Walk u v st p.trail e (p.marked v back))))
          fuel g (start g)
          (record { trail = tt; marked = λ x h. absurd (cc (b.stack x, h)); quiet = b.none_found })
          enough deep in
      (s.frequency, rw ran (ap (λ c. some (c, s.frequency)) q.quiet))
    where
      trail_rest : (u : TransactionId) (st : List TransactionId) → Trail (u ∷ st) → Trail st
      trail_rest u [] t = tt
      trail_rest u (y ∷ r) t = t.1
