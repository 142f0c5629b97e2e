-- ===== src/Detector/Complete.antt =====
-- DeadlockDetector.cpp overlooks no deadlock altogether: a search that reports nothing has put
-- the transactions in an order in which each comes after all that it waits for.
use mathlib.Core.List.{Memᴰ, reverse}
use mathlib.Core.List.Memᴰ
use hawk_txn.Common.{
  ℕ, zero, suc, ◌≡◌, refl, inl, inr, ◌⊎◌, ◌≢◌, true, false, Option, some, List, [], ◌∷◌, ◌++◌, ◌==◌,
  arith, Bool-cases, List-cases, ap, ◌∙◌, subst, some_inj, >>=-eq-some,
}
use hawk_txn.Common.Int.{is_pos}
use hawk_txn.Map
use hawk_txn.Map.{Map, get_or-assign}
use hawk_txn.Types.{TransactionId}
use hawk_txn.Detector.{
  Wfg, Search, count_of, on_stack, enter, leave, set_parent, report, follow, follow_all, dfs,
  search_keys, walk, find_cycles, start,
}
use hawk_txn.Detector.Graph.{Edge, Walk, one, more, IsAcyclic}
use hawk_txn.Detector.Rules.{
  count_of-enter, on_stack-enter, on_stack-leave, dfs_keeps, follow_all_keeps, search_keys_keeps,
}
use hawk_txn.Detector.Start.{start_count_pos}

-- Everything that a transaction of the list waits for stands behind it.
Topo : Wfg → List TransactionId → Type 0
Topo g [] = Unit
Topo g (w ∷ o) = ((v : TransactionId) → Edge g w v → Memᴰ v o) × Topo g o

topo_closed :
    (g : Wfg) (o : List TransactionId) (y x : TransactionId)
    → Topo g o
    → Memᴰ y o
    → Edge g y x
    → Memᴰ x o
unfolding Topo
topo_closed g [] y x t m e = absurd (Memᴰ.not-nil m)
topo_closed g (w ∷ o) y x t m e = elim (Memᴰ.cases_cons m) [
  | inl here ↦ Memᴰ.tail (t.0 x (subst (λ z. Edge g z x) here e))
  | inr there ↦ Memᴰ.tail (topo_closed g o y x t.1 there e)
]

topo_walk :
    {g : Wfg} {w : TransactionId} {o : List TransactionId} {x : TransactionId}
    → Walk g w x
    → Topo g (w ∷ o)
    → Memᴰ x o
unfolding Topo
topo_walk {x} (one e) t = t.0 x e
topo_walk {g} {o} {x} (more {v} p e) t = topo_closed g o v x t.1 (topo_walk p t) e

Topo-acyclic :
    (g : Wfg) (o : List TransactionId) (v : TransactionId) → Topo g o → Memᴰ v o → ¬ Walk g v v
unfolding Topo
Topo-acyclic g [] v t m p = Memᴰ.not-nil m
Topo-acyclic g (w ∷ o) v t m p = elim (Memᴰ.cases_cons m) [
  | inl here ↦ let q = subst (λ z. Walk g z z) here p in Topo-acyclic g o w t.1 (topo_walk q t) q
  | inr there ↦ Topo-acyclic g o v t.1 there p
]

key_of_edge : (g : Wfg) (u v : TransactionId) → Edge g u v → Memᴰ u (Map.keys g)
key_of_edge [] u v m = absurd (Memᴰ.not-nil m)
key_of_edge ((k, vs) ∷ g) u v m = elim (Bool-cases (k == u)) [
  | inl here ↦ Memᴰ.head (ground arith)
  | inr there ↦ Memᴰ.tail (key_of_edge g u v (rw there at m))
]

key_of_walk : (g : Wfg) {u v : TransactionId} → Walk g u v → Memᴰ u (Map.keys g)
key_of_walk g {u} (one {v} e) = key_of_edge g u v e
key_of_walk g (more p e) = key_of_walk g p

module _ (w : ℕ) (g : Wfg) where
  -- A transaction that cannot be entered any more is on the stack or in the order.
  record Clean (o : List TransactionId) (s : Search) : Type 0 where
    topo : Topo g o
    covered :
        (u v : TransactionId)
        → Edge g u v
        → is_pos (count_of s v) ≡ false
        → (on_stack s v ≡ true) ⊎ Memᴰ v o

  abbrev Ext : List TransactionId → List TransactionId → Type 0
  Ext o o' = (x : TransactionId) → Memᴰ x o → Memᴰ x o'

  -- A call that reports nothing puts its transaction in the order.
  abbrev Orders : (TransactionId → Search → Option Search) → Type 0
  Orders call =
      (x : TransactionId) (s s' : Search) (o : List TransactionId)
      → Clean o s
      → call x s ≡ some s'
      → s'.cycles ≡ []
      → (o' : List TransactionId) × Clean o' s' × Ext o o' × Memᴰ x o'

  report_found : (u v : TransactionId) (s s' : Search) → report w u v s ≡ some s' → s'.cycles ≢ []
  unfolding report
  report_found u v s s' h e =
      let (out, walked, last) = >>=-eq-some (walk w s.parent u v [] s.frequency) _ h in
      snoc_nil s.cycles (reverse out.0) (ap (λ t. t.cycles) (some_inj last) ∙ e)
    where
      snoc_nil : (cs : List (List TransactionId)) (c : List TransactionId) → cs ++ c ∷ [] ≢ []
      snoc_nil [] c p = cc
      snoc_nil (d ∷ cs) c p = cc

  -- Cycles once found stay.
  follow_all_found :
      (fuel : ℕ) (u : TransactionId) (vs : List TransactionId) (s s' : Search)
      → ((v : TransactionId) → Memᴰ v vs → Edge g u v)
      → follow_all w (dfs w fuel g) u vs s ≡ some s'
      → s'.cycles ≡ []
      → s.cycles ≡ []
  unfolding enter leave set_parent
  follow_all_found fuel u vs s s' es h e = elim (List-cases s.cycles) [
    | inl empty ↦ empty
    | inr (c, cs, q) ↦ absurd (
        follow_all_keeps w g (λ t. t.cycles ≢ []) (λ _ _ p. p) (λ _ _ p. p) (λ _ _ _ _ p. p)
          (λ a b t t' _ _ r. report_found a b t t' r) (dfs w fuel g) u vs s s'
          (dfs_keeps w g (λ t. t.cycles ≢ []) (λ _ _ p. p) (λ _ _ p. p) (λ _ _ _ _ p. p)
            (λ a b t t' _ _ r. report_found a b t t' r) fuel)
          es (λ p. cc) h e)
  ]

  follow-Orders :
      (call : TransactionId → Search → Option Search) (u v : TransactionId) (s s' : Search)
      (o : List TransactionId)
      → Orders call
      → Edge g u v
      → Clean o s
      → follow w call u v s ≡ some s'
      → s'.cycles ≡ []
      → (o' : List TransactionId) × Clean o' s' × Ext o o' × Memᴰ v o'
  unfolding follow set_parent
  follow-Orders call u v s s' o ih e p h none_found = elim (Bool-cases (is_pos (count_of s v))) [
    | inl deeper ↦
        ih v (set_parent v u s) s' o (record { topo = p.topo; covered = p.covered })
          (rw (deeper, follow) at h) none_found
    | inr done ↦ elim (Bool-cases (on_stack s v)) [
      | inl back ↦ absurd (report_found u v s s' (rw (done, back, follow) at h) none_found)
      | inr cross ↦
          let same = some_inj (rw (done, cross, follow) at h) in
          (
            o,
            subst (Clean o) same p,
            λ x m. m,
            elim (p.covered u v e done) [ inl on ↦ absurd (cc (on, cross)) | inr m ↦ m ],
          )
    ]
  ]

  follow_all-Orders :
      (fuel : ℕ) (u : TransactionId) (vs : List TransactionId) (s s' : Search)
      (o : List TransactionId)
      → Orders (dfs w fuel g)
      → ((v : TransactionId) → Memᴰ v vs → Edge g u v)
      → Clean o s
      → follow_all w (dfs w fuel g) u vs s ≡ some s'
      → s'.cycles ≡ []
      → (o' : List TransactionId) × Clean o' s'
        × Ext o o'
        × ((v : TransactionId) → Memᴰ v vs → Memᴰ v o')
  unfolding follow_all
  follow_all-Orders fuel u [] s s' o ih es p h none_found =
      (o, subst (Clean o) (some_inj h) p, λ x m. m, λ v m. absurd (Memᴰ.not-nil m))
  follow_all-Orders fuel u (v ∷ vs) s s' o ih es p h none_found =
      let (t, first, rest) = >>=-eq-some (follow w (dfs w fuel g) u v s) _ h in
      let later = λ (x : TransactionId) (m : Memᴰ x vs). es x (Memᴰ.tail m) in
      let quiet = follow_all_found fuel u vs t s' later rest none_found in
      let (o1, p1, up1, m1) =
        follow-Orders (dfs w fuel g) u v s t o ih (es v (Memᴰ.head refl)) p first quiet in
      let (o2, p2, up2, m2) = follow_all-Orders fuel u vs t s' o1 ih later p1 rest none_found in
      (
        o2,
        p2,
        λ x m. up2 x (up1 x m),
        λ x m. elim (Memᴰ.cases_cons m) [
          | inl here ↦ up2 x (Memᴰ.cast here m1)
          | inr there ↦ m2 x there
        ],
      )

  enter-Clean :
      (u : TransactionId) (s : Search) (o : List TransactionId) → Clean o s → Clean o (enter u s)
  enter-Clean u s o p = record {
    topo = p.topo;
    covered = λ x v e c. elim (Bool-cases (u == v)) [
      | inl same ↦ inl (on_stack-enter u v s ∙ rw same refl)
      | inr other ↦ elim (p.covered x v e (ground (arith, count_of-enter u v s))) [
        | inl on ↦ inl (on_stack-enter u v s ∙ rw other on)
        | inr m ↦ inr m
      ]
    ];
  }

  leave-Clean :
      (u : TransactionId) (s : Search) (o : List TransactionId)
      → ((v : TransactionId) → Edge g u v → Memᴰ v o)
      → Clean o s
      → Clean (u ∷ o) (leave u s)
  unfolding Topo leave
  leave-Clean u s o targets p = record {
    topo = (targets, p.topo);
    covered = λ x v e c. elim (Bool-cases (u == v)) [
      | inl same ↦ inr (Memᴰ.head (ground arith))
      | inr other ↦ elim (p.covered x v e c) [
        | inl on ↦ inl (on_stack-leave u v s ∙ rw other on)
        | inr m ↦ inr (Memᴰ.tail m)
      ]
    ];
  }

  dfs-Orders : (fuel : ℕ) → Orders (dfs w fuel g)
  unfolding dfs
  dfs-Orders zero u s s' o p h none_found = absurd (cc h)
  dfs-Orders (suc fuel) u s s' o p h none_found =
      let (t, inner, last) =
        >>=-eq-some (follow_all w (dfs w fuel g) u (Map.get_or u [] g) (enter u s)) _ h in
      let same = some_inj last in
      let quiet : t.cycles ≡ [] = unfold leave in ap (λ x. x.cycles) same ∙ none_found in
      let (o1, p1, up, targets) =
        follow_all-Orders fuel u (Map.get_or u [] g) (enter u s) t o (dfs-Orders fuel) (λ v m. m)
          (enter-Clean u s o p) inner quiet in
      (
        u ∷ o1,
        subst (Clean (u ∷ o1)) same (leave-Clean u t o1 targets p1),
        λ x m. Memᴰ.tail (up x m),
        Memᴰ.head refl,
      )

  search_keys_found :
      (fuel : ℕ) (rest : Wfg) (s s' : Search)
      → search_keys w fuel g rest s ≡ some s'
      → s'.cycles ≡ []
      → s.cycles ≡ []
  unfolding enter leave set_parent
  search_keys_found fuel rest s s' h e = elim (List-cases s.cycles) [
    | inl empty ↦ empty
    | inr (c, cs, q) ↦ absurd (
        search_keys_keeps w g (λ t. t.cycles ≢ []) (λ _ _ p. p) (λ _ _ p. p) (λ _ _ _ _ p. p)
          (λ a b t t' _ _ r. report_found a b t t' r) fuel rest s s' (λ p. cc) h e)
  ]

  search_keys_orders :
      (fuel : ℕ) (rest : Wfg) (s s' : Search) (o : List TransactionId)
      → Clean o s
      → search_keys w fuel g rest s ≡ some s'
      → s'.cycles ≡ []
      → (o' : List TransactionId) × Clean o' s'
        × Ext o o'
        × ((v : TransactionId) → Memᴰ v (Map.keys rest) → Memᴰ v o')
  unfolding search_keys
  search_keys_orders fuel [] s s' o p h e =
      (o, subst (Clean o) (some_inj h) p, λ x m. m, λ v m. absurd (Memᴰ.not-nil m))
  search_keys_orders fuel ((k, vs) ∷ rest) s s' o p h e =
      let (t, first, later) = >>=-eq-some (dfs w fuel g k s) _ h in
      let quiet = search_keys_found fuel rest t s' later e in
      let (o1, p1, up1, m1) = dfs-Orders fuel k s t o p first quiet in
      let (o2, p2, up2, m2) = search_keys_orders fuel rest t s' o1 p1 later e in
      (
        o2,
        p2,
        λ x m. up2 x (up1 x m),
        λ x m. elim (Memᴰ.cases_cons m) [
          | inl here ↦ up2 x (Memᴰ.cast here m1)
          | inr there ↦ m2 x there
        ],
      )

  start-Clean : Clean [] (start g)
  unfolding Topo
  start-Clean = record { topo = tt; covered = λ u v e c. absurd (cc (start_count_pos g u v e, c)) }

  -- If findCycles returns and reports no cycle, there is no deadlock in the graph.
  pub find_cycles_complete :
      (fuel : ℕ) (frequency : Map ℕ) → find_cycles w fuel g ≡ some ([], frequency) → IsAcyclic g
  unfolding find_cycles
  find_cycles_complete fuel frequency h v p =
      let (s, searched, last) = >>=-eq-some (search_keys w fuel g g (start g)) _ h in
      let e : s.cycles ≡ [] = ap (λ r. r.0) (some_inj last) in
      let (o, q, _, m) = search_keys_orders fuel g (start g) s [] start-Clean searched e in
      Topo-acyclic g o v q.topo (m v (key_of_walk g p)) p
