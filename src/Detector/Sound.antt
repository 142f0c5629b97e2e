-- ===== src/Detector/Sound.antt =====
-- DeadlockDetector.cpp reports deadlocks only, and counts how often each transaction stands in one.
use mathlib.Core.List.{reverse, reverse-append}
use hawk_txn.Common.{
  ℕ, zero, suc, ◌+◌, ◌≡◌, refl, inl, inr, ◌⊎◌, ◌≢◌, false, some, none, List, [], ◌∷◌, ◌++◌, ◌==◌,
  if◌then◌else◌, arith, Bool-cases, sym, ap, ◌∙◌, subst, some_inj, >>=-eq-some, head?, last?, All,
  All-append,
}
use hawk_txn.Map
use hawk_txn.Map.{Map, get_or-assign}
use hawk_txn.Types.{TransactionId}
use hawk_txn.Detector.{
  Wfg, Search, parent_of, increment, enter, leave, set_parent, report, search_keys, walk,
  find_cycles, start,
}
use hawk_txn.Detector.Graph.{Edge, Links, IsCycle}
use hawk_txn.Detector.Start.{IsBlank, start-IsBlank}
use hawk_txn.Detector.Rules.{parent_of-set, search_keys_keeps}

reverse_snoc :
    (xs : List TransactionId) (x : TransactionId) → reverse (xs ++ x ∷ []) ≡ x ∷ reverse xs
reverse_snoc xs x = reverse-append xs (x ∷ [])

-- From the transaction 0, which has no parent, the walk never ends.
walk_zero :
    (fuel : ℕ) (parent : Map TransactionId) (v : TransactionId) (cycle : List TransactionId)
    (freq : Map ℕ)
    → parent_of parent 0 ≡ 0
    → v ≢ 0
    → walk fuel parent 0 v cycle freq ≡ none
unfolding walk
walk_zero zero parent v cycle freq e h = refl
walk_zero (suc fuel) parent v cycle freq e h =
    let differs : (0 == v) ≡ false = ground arith in
    rw (differs, walk, e) (walk_zero fuel parent v (cycle ++ 0 ∷ []) (increment 0 freq) e h)

-- A transaction's parent waits for it.
abbrev ParentsWait : Wfg → Map TransactionId → Type 0
ParentsWait g parent =
    (x : TransactionId) → (parent_of parent x ≡ 0) ⊎ Edge g (parent_of parent x) x

walk-Links :
    (fuel : ℕ) (g : Wfg) (parent : Map TransactionId) (curr v u : TransactionId)
    (cycle : List TransactionId) (freq : Map ℕ) (out : List TransactionId × Map ℕ)
    → ParentsWait g parent
    → parent_of parent 0 ≡ 0
    → v ≢ 0
    → Links g (curr ∷ reverse cycle)
    → last? (curr ∷ reverse cycle) ≡ some u
    → walk fuel parent curr v cycle freq ≡ some out
    → Links g (reverse out.0) × (head? (reverse out.0) ≡ some v) × (last? (reverse out.0) ≡ some u)
unfolding walk
walk-Links zero g parent curr v u cycle freq out ps root nz l e h = absurd (cc h)
walk-Links (suc fuel) g parent curr v u cycle freq out ps root nz l e h =
    elim (Bool-cases (curr == v)) [
      | inl same ↦
          let o : (cycle ++ v ∷ []) ≡ out.0 = ap (λ p. p.0) (some_inj (rw (same, walk) at h)) in
          let r : reverse out.0 ≡ curr ∷ reverse cycle =
            ap reverse (sym o) ∙ reverse_snoc cycle v ∙ ground arith in
          rw r (l, ground arith, e)
      | inr other ↦ elim (ps curr) [
        | inl top ↦
            let stuck =
              walk_zero fuel parent v (cycle ++ curr ∷ []) (increment curr freq) root nz in
            absurd (cc (sym (rw (other, top, walk) at h) ∙ stuck))
        | inr edge ↦
            walk-Links fuel g parent (parent_of parent curr) v u (cycle ++ curr ∷ [])
              (increment curr freq) out ps root nz (rw (reverse_snoc cycle curr) (edge, l))
              (rw (reverse_snoc cycle curr) e) (rw (other, walk) at h)
      ]
    ]

-- How often a transaction stands in the cycles.
abbrev pub occurrences : TransactionId → List TransactionId → ℕ
occurrences x [] = 0
occurrences x (y ∷ ys) = (if y == x then 1 else 0) + occurrences x ys

abbrev pub occurrences_all : TransactionId → List (List TransactionId) → ℕ
occurrences_all x [] = 0
occurrences_all x (c ∷ cs) = occurrences x c + occurrences_all x cs

occurrences-append :
    (x : TransactionId) (ys zs : List TransactionId)
    → occurrences x (ys ++ zs) ≡ occurrences x ys + occurrences x zs
occurrences-append x [] zs = omega arith
occurrences-append x (y ∷ ys) zs = omega (arith, occurrences-append x ys zs)

occurrences_all-append :
    (x : TransactionId) (cs ds : List (List TransactionId))
    → occurrences_all x (cs ++ ds) ≡ occurrences_all x cs + occurrences_all x ds
occurrences_all-append x [] ds = omega arith
occurrences_all-append x (c ∷ cs) ds = omega (arith, occurrences_all-append x cs ds)

occurrences-reverse :
    (x : TransactionId) (ys : List TransactionId) → occurrences x (reverse ys) ≡ occurrences x ys
occurrences-reverse x [] = refl
occurrences-reverse x (y ∷ ys) = omega (
  arith,
  ap (occurrences x) (reverse-append (y ∷ []) ys),
  occurrences-append x (reverse ys) (y ∷ []),
  occurrences-reverse x ys,
)

pub get_or-increment :
    (v x : TransactionId) (freq : Map ℕ)
    → Map.get_or x 0 (increment v freq) ≡ (if v == x then 1 else 0) + Map.get_or x 0 freq
get_or-increment v x freq = ground (arith, get_or-assign v x 0 (Map.get_or v 0 freq + 1) freq)

walk_counts :
    (fuel : ℕ) (parent : Map TransactionId) (curr v x : TransactionId) (cycle : List TransactionId)
    (freq : Map ℕ) (out : List TransactionId × Map ℕ)
    → walk fuel parent curr v cycle freq ≡ some out
    → Map.get_or x 0 out.1 + occurrences x cycle ≡ Map.get_or x 0 freq + occurrences x out.0
unfolding walk
walk_counts zero parent curr v x cycle freq out h = absurd (cc h)
walk_counts (suc fuel) parent curr v x cycle freq out h = elim (Bool-cases (curr == v)) [
  | inl same ↦
      let o = some_inj (rw (same, walk) at h) in
      omega (
        arith,
        ap (λ p. occurrences x p.0) o,
        ap (λ p. Map.get_or x 0 p.1) o,
        get_or-increment v x freq,
        occurrences-append x cycle (v ∷ []),
      )
  | inr other ↦ omega (
    arith,
    walk_counts fuel parent (parent_of parent curr) v x (cycle ++ curr ∷ []) (increment curr freq)
        out (rw (other, walk) at h),
    get_or-increment curr x freq,
    occurrences-append x cycle (curr ∷ []),
  )
]

-- What holds of every state of a search.
pub record Sofar (g : Wfg) (s : Search) : Type 0 where
  pub parents : ParentsWait g s.parent
  pub root : parent_of s.parent 0 ≡ 0
  pub deadlocks : All (IsCycle g) s.cycles
  pub counted : (x : TransactionId) → Map.get_or x 0 s.frequency ≡ occurrences_all x s.cycles

pub IsBlank-Sofar : (g : Wfg) (s : Search) → IsBlank s → Sofar g s
IsBlank-Sofar g s b = record {
  parents = λ x. inl (b.parents x);
  root = b.parents 0;
  deadlocks = subst (All (IsCycle g)) (sym b.none_found) tt;
  counted = λ x. b.frequencies x ∙ ap (occurrences_all x) (sym b.none_found);
}

module _ (w : ℕ) (g : Wfg) (no_zero : (u : TransactionId) → ¬ Edge g u 0) where
  set_parent-Sofar :
      (u v : TransactionId) (s : Search) → Edge g u v → Sofar g s → Sofar g (set_parent v u s)
  unfolding set_parent
  set_parent-Sofar u v s e p = record {
    parents = λ x. elim (Bool-cases (v == x)) [
      | inl same ↦
          let vx : v ≡ x = ground arith in
          inr (
            subst (λ y. Edge g y x) (sym (parent_of-set v u x s ∙ rw same refl))
              (subst (Edge g u) vx e))
      | inr other ↦
          let same = parent_of-set v u x s ∙ rw other refl in
          subst (λ y. (y ≡ 0) ⊎ Edge g y x) (sym same) (p.parents x)
    ];
    root = elim (Bool-cases (v == 0)) [
      | inl z ↦ let v0 : v ≡ 0 = ground arith in absurd (no_zero u (subst (Edge g u) v0 e))
      | inr nz ↦ parent_of-set v u 0 s ∙ rw nz p.root
    ];
    deadlocks = p.deadlocks;
    counted = p.counted;
  }

  report-Sofar :
      (u v : TransactionId) (s s' : Search)
      → Edge g u v
      → Sofar g s
      → report w u v s ≡ some s'
      → Sofar g s'
  unfolding report
  report-Sofar u v s s' e p h =
      let (out, walked, last) = >>=-eq-some (walk w s.parent u v [] s.frequency) _ h in
      let nz : v ≢ 0 = λ z. no_zero u (subst (Edge g u) z e) in
      let (links, head, end) =
        walk-Links w g s.parent u v u [] s.frequency out p.parents p.root nz tt refl walked in
      subst (Sofar g) (some_inj last) (record {
        parents = p.parents;
        root = p.root;
        deadlocks =
            All-append (IsCycle g) s.cycles (reverse out.0 ∷ []) p.deadlocks (
              record { first = v; last = u; head = head; end = end; links = links; closes = e },
              tt,
            );
        counted = λ x. omega (
          arith,
          p.counted x,
          walk_counts w s.parent u v x [] s.frequency out walked,
          occurrences_all-append x s.cycles (reverse out.0 ∷ []),
          occurrences-reverse x out.0,
        );
      })

  search_keys-Sofar :
      (fuel : ℕ) (rest : Wfg) (s s' : Search)
      → Sofar g s
      → search_keys w fuel g rest s ≡ some s'
      → Sofar g s'
  unfolding enter leave
  search_keys-Sofar fuel rest s s' p h =
      search_keys_keeps w g (Sofar g)
        (λ u t q. record {
          parents = q.parents;
          root = q.root;
          deadlocks = q.deadlocks;
          counted = q.counted;
        })
        (λ u t q. record {
          parents = q.parents;
          root = q.root;
          deadlocks = q.deadlocks;
          counted = q.counted;
        })
        set_parent-Sofar report-Sofar fuel rest s s' p h

  -- If 0 is no transaction, every cycle that findCycles returns is a deadlock of the graph, and the
  -- frequency of a transaction is the number of its places in the returned cycles.
  pub find_cycles_sound :
      (fuel : ℕ) (cycles : List (List TransactionId)) (frequency : Map ℕ)
      → find_cycles w fuel g ≡ some (cycles, frequency)
      → All (IsCycle g) cycles
        × ((x : TransactionId) → Map.get_or x 0 frequency ≡ occurrences_all x cycles)
  unfolding find_cycles
  find_cycles_sound fuel cycles frequency h =
      let (s, searched, last) = >>=-eq-some (search_keys w fuel g g (start g)) _ h in
      let p = search_keys-Sofar fuel g (start g) s (IsBlank-Sofar g _ (start-IsBlank g)) searched in
      let same = some_inj last in
      (
        subst (All (IsCycle g)) (ap (λ r. r.0) same) p.deadlocks,
        λ x.
            ap (λ r. Map.get_or x 0 r.1) (sym same)
            ∙ p.counted x
            ∙ ap (λ r. occurrences_all x r.0) same,
      )
