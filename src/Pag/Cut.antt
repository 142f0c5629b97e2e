-- ===== src/Pag/Cut.antt =====
-- The zones that greedySCCcut of PAGManager.cpp makes.
use mathlib.Core.List.{append_assoc, append-nil}
use hawk_txn.Common.{
  ℕ, suc, ◌≡◌, refl, Bool, true, false, ◌||◌, some, List, [], ◌∷◌, ◌++◌, ◌==◌, if◌then◌else◌, arith,
  Bool-cases, ap₂, ap, elem-append, sym, ◌∙◌, inl, inr, ◌>>=◌, elem, leb,
}
use hawk_txn.Common.Int.{pos, negsuc}
use hawk_txn.Map
use hawk_txn.Map.{Map, IsUnique, get_or-assign, contains-assign}
use hawk_txn.Detector.Start.{targeted, targeted_of_Edge}
use hawk_txn.Types.{NodeId}
use hawk_txn.Pag.{
  Pag, Tarjan, disc_of, stacked, mark, mark_new, mark_all, empty_tarjan, min_leader, Cut, keep_sccs,
  nodes_of, isolate, greedy_scc_cut,
}
use hawk_txn.Pag.Search.{Idle, singletons, search_all_lem}

-- While the first loop runs.
record Fresh (s : Tarjan) : Type 0 where
  unvisited : (x : NodeId) → Map.contains x s.disc ≡ true → disc_of s x ≡ negsuc 0
  flags : (x : NodeId) → stacked s x ≡ false
  stack : s.stack ≡ []
  sccs : s.sccs ≡ []

-- The entries of `s` and those of `p` are entries of `t`.
abbrev Covers : (NodeId → Bool) → Tarjan → Tarjan → Type 0
Covers p s t = (x : NodeId) → p x || Map.contains x s.disc ≡ true → Map.contains x t.disc ≡ true

mark_lem :
    (v : NodeId) (s : Tarjan) → Fresh s → Fresh (mark v s) × Covers (λ x. v == x) s (mark v s)
unfolding mark
mark_lem v s f = (
  record {
    unvisited = λ x h.
        get_or-assign v x (pos 0) (negsuc 0) s.disc
        ∙ ground (arith, contains-assign v x (negsuc 0) s.disc, f.unvisited x);
    flags = λ x. get_or-assign v x false false s.on_stack ∙ ground (arith, f.flags x);
    stack = f.stack;
    sccs = f.sccs;
  },
  λ x h. contains-assign v x (negsuc 0) s.disc ∙ h,
)

mark_new_lem :
    (vs : List NodeId) (s : Tarjan)
    → Fresh s
    → Fresh (mark_new vs s) × Covers (λ x. elem x vs) s (mark_new vs s)
unfolding mark_new
mark_new_lem [] s f = (f, λ x h. h)
mark_new_lem (v ∷ vs) s f = elim (Bool-cases (Map.contains v s.disc)) [
  | inl old ↦
      let (fs, cover) = mark_new_lem vs s f in
      rw (old, mark_new) (fs, λ x h. cover x (ground (arith, old)))
  | inr new ↦
      let (one, first) = mark_lem v s f in
      let (fs, cover) = mark_new_lem vs (mark v s) one in
      rw (new, mark_new) (fs, λ x h. cover x (ground (arith, first x)))
]

mark_all_lem :
    (g : Pag) (s : Tarjan)
    → Fresh s
    → Fresh (mark_all g s) × Covers (λ x. targeted g x || Map.contains x g) s (mark_all g s)
unfolding mark_all
mark_all_lem [] s f = (f, λ x h. h)
mark_all_lem ((u, vs) ∷ g) s f =
    let (one, first) = mark_lem u s f in
    let (two, second) = mark_new_lem vs (mark u s) one in
    let (fs, cover) = mark_all_lem g (mark_new vs (mark u s)) two in
    (fs, λ x h. cover x (ground (arith, first x, second x)))

keep_singletons :
    (threshold : ℕ) (g : Pag) (zones : List (List NodeId)) (leaders : List NodeId)
    → keep_sccs threshold (singletons g) (zones, leaders)
      ≡ some (
          if leb threshold 1
          then (zones ++ singletons g, leaders ++ Map.keys g)
          else (zones, leaders))
unfolding keep_sccs min_leader
keep_singletons threshold [] zones leaders = ground (arith, append-nil zones, append-nil leaders)
keep_singletons threshold ((u, vs) ∷ g) zones leaders = elim (Bool-cases (leb threshold 1)) [
  | inl kept ↦
      rw (kept, keep_sccs)
        (keep_singletons threshold g (zones ++ (u ∷ []) ∷ []) (leaders ++ u ∷ [])
          ∙ rw (
            kept,
            append_assoc zones ((u ∷ []) ∷ []) (singletons g),
            append_assoc leaders (u ∷ []) (Map.keys g),
          ))
  | inr cut ↦ rw (cut, keep_sccs) (keep_singletons threshold g zones leaders ∙ rw cut)
]

isolate_covered :
    (g : Pag) (covered : List NodeId) (cut : Cut)
    → ((x : NodeId) → Map.contains x g ≡ true → elem x covered ≡ true)
    → isolate g covered cut ≡ cut
unfolding isolate
isolate_covered [] covered cut h = refl
isolate_covered ((u, vs) ∷ g) covered cut h =
    rw (h u (ground arith), isolate) (isolate_covered g covered cut (λ x p. h x (ground arith)))

isolate_all :
    (g : Pag) (covered : List NodeId) (zones : List (List NodeId)) (leaders : List NodeId)
    → IsUnique g
    → ((x : NodeId) → Map.contains x g ≡ true → elem x covered ≡ false)
    → isolate g covered (zones, leaders) ≡ (zones ++ singletons g, leaders ++ Map.keys g)
unfolding isolate
isolate_all [] covered zones leaders q h =
    ap₂ (λ a b. (a, b)) (sym (append-nil zones)) (sym (append-nil leaders))
isolate_all ((u, vs) ∷ g) covered zones leaders q h =
    rw (h u (ground arith), isolate)
      (isolate_all g (covered ++ u ∷ []) (zones ++ (u ∷ []) ∷ []) (leaders ++ u ∷ []) q.1
          (λ x p. ground (arith, elem-append x covered (u ∷ []), h x))
        ∙ rw (
          append_assoc zones ((u ∷ []) ∷ []) (singletons g),
          append_assoc leaders (u ∷ []) (Map.keys g),
        ))

nodes_of-singletons : (g : Pag) (x : NodeId) → elem x (nodes_of (singletons g)) ≡ Map.contains x g
nodes_of-singletons [] x = refl
nodes_of-singletons ((u, vs) ∷ g) x = ground (arith, nodes_of-singletons g x)

cut_singletons :
    (pag : Pag) (threshold : ℕ)
    → IsUnique pag
    → (keep_sccs threshold (singletons pag) ([], [])
        >>= (λ cut. some (isolate pag (nodes_of cut.0) (cut.0, cut.1))))
      ≡ some (singletons pag, Map.keys pag)
cut_singletons pag threshold u = elim (Bool-cases (leb threshold 1)) [
  | inl kept ↦
      rw (keep_singletons threshold pag [] [], kept)
        (ap some (
          isolate_covered pag (nodes_of (singletons pag)) (singletons pag, Map.keys pag)
            (λ x h. nodes_of-singletons pag x ∙ h)))
  | inr cut ↦
      rw (keep_singletons threshold pag [] [], cut)
        (ap some (isolate_all pag [] [] [] u (λ x h. refl)))
]

-- Whatever the graph, in which each node stands once, and whatever the threshold, the zones are the
-- waiting nodes one by one, each its own leader, in the order of the map; fuel 1 is enough.
pub greedy_scc_cut-singletons :
    (fuel : ℕ) (pag : Pag) (threshold : ℕ)
    → IsUnique pag
    → greedy_scc_cut (suc fuel) pag threshold ≡ some (singletons pag, Map.keys pag)
unfolding greedy_scc_cut
greedy_scc_cut-singletons fuel pag threshold u =
    let (fs, cover) = mark_all_lem pag empty_tarjan fresh_empty in
    let start : Idle pag (mark_all pag empty_tarjan) = record {
      marked = λ x v m. cover v (ground (arith, targeted_of_Edge pag x v m));
      flags = fs.flags;
      stack = fs.stack;
    } in
    let (s, ran, found) =
      search_all_lem fuel pag pag (mark_all pag empty_tarjan) start u
        (λ x h. fs.unvisited x (cover x (ground arith))) in
    let sccs : s.sccs ≡ singletons pag = found ∙ ap (λ l. l ++ singletons pag) fs.sccs in
    rw ran (rw sccs (cut_singletons pag threshold u))
  where
    fresh_empty : Fresh empty_tarjan
    fresh_empty = record {
      unvisited = λ x e. absurd (cc e);
      flags = λ x. refl;
      stack = refl;
      sccs = refl;
    }
