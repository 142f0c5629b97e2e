-- ===== src/Pag/Search.antt =====
-- findSCCsDFS of PAGManager.cpp after the first loop of greedySCCcut, which has stored -1 for every
-- node: the search takes a node that has an entry for one that it has visited.
use mathlib.Core.List.{Memᴰ, append_assoc, append-nil}
use hawk_txn.Common.{
  ℕ, suc, ◌+◌, ◌≡◌, refl, Bool, true, false, Option, some, List, [], ◌∷◌, ◌++◌, ◌==◌, if◌then◌else◌,
  arith, Bool-cases, ==_refl, ap₂, ap, sym, ◌∙◌, inl, inr,
}
use hawk_txn.Common.Int.{ℤ, pos, negsuc, min_ℤ, eq_ℤ}
use hawk_txn.Map
use hawk_txn.Map.{Map, IsUnique, key_apart, get_or-assign, contains-assign}
use hawk_txn.Types.{NodeId}
use hawk_txn.Pag.{
  Pag, Tarjan, disc_of, low_of, stacked, visit, lower, explore, explore_all, pop_scc, close_scc,
  find_sccs_dfs, search_all,
}

-- Every neighbour of the graph has an entry in `disc`.
abbrev pub Marked : Pag → Tarjan → Type 0
Marked g s = (u v : NodeId) → Memᴰ v (Map.get_or u [] g) → Map.contains v s.disc ≡ true

-- Inside the search from `u`, which has found nothing but `u`.
record Alone (g : Pag) (u : NodeId) (d : ℤ) (t : Tarjan) : Type 0 where
  marked : Marked g t
  flags : (x : NodeId) → stacked t x ≡ u == x
  found : disc_of t u ≡ d
  lowest : low_of t u ≡ d

min_self : (d : ℤ) → min_ℤ d d ≡ d
min_self (pos n) = ground arith
min_self (negsuc n) = ground arith

eq_ℤ_refl : (d : ℤ) → eq_ℤ d d ≡ true
eq_ℤ_refl (pos n) = ground arith
eq_ℤ_refl (negsuc n) = ground arith

-- A search keeps what is not in `low`.
record Same (s t : Tarjan) : Type 0 where
  disc : t.disc ≡ s.disc
  stack : t.stack ≡ s.stack
  on_stack : t.on_stack ≡ s.on_stack
  sccs : t.sccs ≡ s.sccs
  time : t.time ≡ s.time

module _ (g : Pag) (call : NodeId → Tarjan → Option Tarjan) (u : NodeId) (d : ℤ) where
  explore-Alone :
      (v : NodeId) (t : Tarjan)
      → Alone g u d t
      → Memᴰ v (Map.get_or u [] g)
      → (t' : Tarjan) × (explore call u v t ≡ some t') × Alone g u d t' × Same t t'
  unfolding explore lower
  explore-Alone v t a m = elim (Bool-cases (u == v)) [
    | inl own ↦
        let e : u ≡ v = ground arith in
        (
          lower u (disc_of t v) t,
          rw (a.marked u v m, a.flags v ∙ own, explore),
          record {
            marked = a.marked;
            flags = a.flags;
            found = a.found;
            lowest =
                get_or-assign u u (pos 0) (min_ℤ (low_of t u) (disc_of t v)) t.low
                ∙ rw (==_refl u)
                    (ap₂ min_ℤ a.lowest (ap (disc_of t) (sym e) ∙ a.found) ∙ min_self d);
          },
          record { disc = refl; stack = refl; on_stack = refl; sccs = refl; time = refl },
        )
    | inr other ↦ (
      t,
      rw (a.marked u v m, a.flags v ∙ other, explore),
      a,
      record { disc = refl; stack = refl; on_stack = refl; sccs = refl; time = refl },
    )
  ]

  explore_all-Alone :
      (vs : List NodeId) (t : Tarjan)
      → Alone g u d t
      → ((v : NodeId) → Memᴰ v vs → Memᴰ v (Map.get_or u [] g))
      → (t' : Tarjan) × (explore_all call u vs t ≡ some t') × Alone g u d t' × Same t t'
  unfolding explore_all
  explore_all-Alone [] t a m =
      (t, refl, a, record { disc = refl; stack = refl; on_stack = refl; sccs = refl; time = refl })
  explore_all-Alone (v ∷ vs) t a m =
      let (t1, ran, b, same) = explore-Alone v t a (m v (Memᴰ.head refl)) in
      let (t2, later, c, same') = explore_all-Alone vs t1 b (λ x n. m x (Memᴰ.tail n)) in
      (
        t2,
        rw (ran, explore_all) later,
        c,
        record {
          disc = same'.disc ∙ same.disc;
          stack = same'.stack ∙ same.stack;
          on_stack = same'.on_stack ∙ same.on_stack;
          sccs = same'.sccs ∙ same.sccs;
          time = same'.time ∙ same.time;
        },
      )

pop_own :
    (u : NodeId) (flags : Map Bool)
    → pop_scc u (u ∷ []) flags [] ≡ some ([], Map.assign u false flags, u ∷ [])
unfolding pop_scc
pop_own u flags = rw (==_refl u)

close_own :
    (u : NodeId) (t : Tarjan)
    → t.stack ≡ u ∷ []
    → eq_ℤ (low_of t u) (disc_of t u) ≡ true
    → close_scc u t
      ≡ some (record t {
        stack = [];
        on_stack = Map.assign u false t.on_stack;
        sccs = t.sccs ++ (u ∷ []) ∷ [];
      })
unfolding close_scc
close_own u t e c = rw (c, close_scc) (rw (e, pop_own u t.on_stack))

-- Between two searches.
pub record Idle (g : Pag) (s : Tarjan) : Type 0 where
  pub marked : Marked g s
  pub flags : (x : NodeId) → stacked s x ≡ false
  pub stack : s.stack ≡ []

-- A search stores its first node as a component of its own, and visits nothing else.
find_sccs_dfs_lem :
    (g : Pag) (fuel : ℕ) (u : NodeId) (s : Tarjan)
    → Idle g s
    → (s' : Tarjan) × (find_sccs_dfs (suc fuel) g u s ≡ some s')
      × Idle g s'
      × (s'.sccs ≡ s.sccs ++ (u ∷ []) ∷ [])
      × ((x : NodeId) → disc_of s' x ≡ (if u == x then pos (s.time + 1) else disc_of s x))
unfolding find_sccs_dfs visit close_scc
find_sccs_dfs_lem g fuel u s i =
    let d = pos (s.time + 1) in
    let start : Alone g u d (visit u s) = record {
      marked = λ x v m. contains-assign u v d s.disc ∙ ground (arith, i.marked x v m);
      flags = λ x. get_or-assign u x false true s.on_stack ∙ ground (arith, i.flags x);
      found = get_or-assign u u (pos 0) d s.disc ∙ rw (==_refl u);
      lowest = get_or-assign u u (pos 0) d s.low ∙ rw (==_refl u);
    } in
    let (t, ran, a, same) =
      explore_all-Alone g (find_sccs_dfs fuel g) u d (Map.get_or u [] g) (visit u s) start
        (λ v m. m) in
    let closes : eq_ℤ (low_of t u) (disc_of t u) ≡ true = ap₂ eq_ℤ a.lowest a.found ∙ eq_ℤ_refl d in
    (
      record t {
        stack = [];
        on_stack = Map.assign u false t.on_stack;
        sccs = t.sccs ++ (u ∷ []) ∷ [];
      },
      rw ran (close_own u t (same.stack ∙ ap (λ l. u ∷ l) i.stack) closes),
      record {
        marked = a.marked;
        flags = λ x. get_or-assign u x false false t.on_stack ∙ ground (arith, a.flags x);
        stack = refl;
      },
      ap (λ l. l ++ (u ∷ []) ∷ []) same.sccs,
      λ x. ap (λ m. Map.get_or x (pos 0) m) same.disc ∙ get_or-assign u x (pos 0) d s.disc,
    )

abbrev pub singletons : Pag → List (List NodeId)
singletons [] = []
singletons ((u, vs) ∷ g) = (u ∷ []) ∷ singletons g

pub search_all_lem :
    (fuel : ℕ) (g rest : Pag) (s : Tarjan)
    → Idle g s
    → IsUnique rest
    → ((x : NodeId) → Map.contains x rest ≡ true → disc_of s x ≡ negsuc 0)
    → (s' : Tarjan) × (search_all (suc fuel) g rest s ≡ some s')
      × (s'.sccs ≡ s.sccs ++ singletons rest)
unfolding search_all
search_all_lem fuel g [] s i u fresh = (s, refl, sym (append-nil s.sccs))
search_all_lem fuel g ((k, vs) ∷ rest) s i u fresh =
    let new : eq_ℤ (disc_of s k) (negsuc 0) ≡ true =
      ap (λ z. eq_ℤ z (negsuc 0)) (fresh k (ground arith)) in
    let (t, ran, j, found, discs) = find_sccs_dfs_lem g fuel k s i in
    let later : (x : NodeId) → Map.contains x rest ≡ true → disc_of t x ≡ negsuc 0 =
      λ x h. discs x ∙ rw (key_apart k x rest u.0 h) (fresh x (ground arith)) in
    let (s', searched, all) = search_all_lem fuel g rest t j u.1 later in
    (
      s',
      rw (new, search_all) (rw ran searched),
      all
          ∙ ap (λ l. l ++ singletons rest) found
          ∙ append_assoc s.sccs ((k ∷ []) ∷ []) (singletons rest),
    )
