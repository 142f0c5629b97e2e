-- ===== src/Resolve/Victim.antt =====
-- Whom selectVictim of DistributedDBNode.cpp picks, and that every cycle found gets its victim.
use hawk_txn.Common.{
  All, All-mono, ℕ, ◌≤◌, ◌≡◌, refl, true, false, some, List, [], ◌∷◌, ◌==◌, elem, is_empty, head?,
  arith, Bool-cases, ap, sym, ◌∙◌, inl, inr, subst, ==_refl, some_inj,
}
use hawk_txn.Map
use hawk_txn.Map.{Map, contains-find?, contains-true, get_or-contains}
use hawk_txn.Types.{TransactionId}
use hawk_txn.Detector.{compare_transaction_priority}
use hawk_txn.Resolve.{candidates_of, insert_candidate, sort_candidates, select_victim}

-- The first candidate comes before the second, by the rule for victims: it is in more cycles, or in as
-- many and has the smaller id; or they are the same.
abbrev pub Before : TransactionId × ℕ → TransactionId × ℕ → Type 0
Before a b = (b.1 ≤ a.1) × (b.1 ≡ a.1 → a.0 ≤ b.0)

compare-Before : (a b : TransactionId × ℕ) → compare_transaction_priority a b ≡ true → Before a b
unfolding compare_transaction_priority
compare-Before a b h = (ground arith, λ e. ground arith)

compare-other : (a b : TransactionId × ℕ) → compare_transaction_priority a b ≡ false → Before b a
unfolding compare_transaction_priority
compare-other a b h = (ground arith, λ e. ground arith)

-- The first of the list comes before all of it.
abbrev Led : List (TransactionId × ℕ) → Type 0
Led [] = Unit
Led (c ∷ cs) = All (Before c) cs × Led cs

insert-All :
    (P : TransactionId × ℕ → Type 0) (c : TransactionId × ℕ) (cs : List (TransactionId × ℕ))
    → P c
    → All P cs
    → All P (insert_candidate c cs)
unfolding insert_candidate
insert-All P c [] p h = (p, tt)
insert-All P c (d ∷ ds) p h = elim (Bool-cases (compare_transaction_priority d c)) [
  | inl first ↦ rw (first, insert_candidate) (h.0, insert-All P c ds p h.1)
  | inr later ↦ rw (later, insert_candidate) (p, h)
]

insert-Led :
    (c : TransactionId × ℕ) (cs : List (TransactionId × ℕ)) → Led cs → Led (insert_candidate c cs)
unfolding insert_candidate
insert-Led c [] l = (tt, tt)
insert-Led c (d ∷ ds) l = elim (Bool-cases (compare_transaction_priority d c)) [
  | inl first ↦
      rw (first, insert_candidate)
        (insert-All (Before d) c ds (compare-Before d c first) l.0, insert-Led c ds l.1)
  | inr later ↦
      let here = compare-other d c later in
      rw (later, insert_candidate)
        (
          (
            here,
            All-mono (Before d) (Before c) ds
                (λ x b. (omega (arith, here.0, b.0), λ e. ground (arith, here.1, b.1, here.0, b.0)))
                l.0,
          ),
          l,
        )
]

sort-Led : (cs : List (TransactionId × ℕ)) → Led (sort_candidates cs)
unfolding sort_candidates
sort-Led [] = tt
sort-Led (c ∷ cs) = insert-Led c (sort_candidates cs) (sort-Led cs)

insert-All-back :
    (P : TransactionId × ℕ → Type 0) (c : TransactionId × ℕ) (cs : List (TransactionId × ℕ))
    → All P (insert_candidate c cs)
    → P c × All P cs
unfolding insert_candidate
insert-All-back P c [] h = h
insert-All-back P c (d ∷ ds) h = elim (Bool-cases (compare_transaction_priority d c)) [
  | inl first ↦
      let g = rw (first, insert_candidate) at h in
      let (p, rest) = insert-All-back P c ds g.1 in (p, (g.0, rest))
  | inr later ↦ rw (later, insert_candidate) at h
]

sort-All :
    (P : TransactionId × ℕ → Type 0) (cs : List (TransactionId × ℕ))
    → (All P cs → All P (sort_candidates cs)) × (All P (sort_candidates cs) → All P cs)
unfolding sort_candidates
sort-All P [] = ((λ h. h), (λ h. h))
sort-All P (c ∷ cs) =
    let (to, from) = sort-All P cs in
    (
      λ h. insert-All P c (sort_candidates cs) h.0 (to h.1),
      λ h. let (p, rest) = insert-All-back P c (sort_candidates cs) h in (p, from rest),
    )

insert-head :
    (c : TransactionId × ℕ) (cs : List (TransactionId × ℕ))
    → (d : TransactionId × ℕ) × (head? (insert_candidate c cs) ≡ some d)
unfolding insert_candidate
insert-head c [] = (c, refl)
insert-head c (d ∷ ds) = elim (Bool-cases (compare_transaction_priority d c)) [
  | inl first ↦ (d, rw (first, insert_candidate) refl)
  | inr later ↦ (c, rw (later, insert_candidate) refl)
]

Before-refl : (c : TransactionId × ℕ) → Before c c
Before-refl c = (omega arith, λ e. omega arith)

head-Led :
    (cs : List (TransactionId × ℕ)) (c : TransactionId × ℕ)
    → Led cs
    → head? cs ≡ some c
    → All (Before c) cs
head-Led [] c l h = tt
head-Led (d ∷ ds) c l h = subst (λ x. All (Before x) (d ∷ ds)) (some_inj h) (Before-refl d, l.0)

head-All :
    (P : TransactionId × ℕ → Type 0) (cs : List (TransactionId × ℕ)) (c : TransactionId × ℕ)
    → All P cs
    → head? cs ≡ some c
    → P c
head-All P [] c a h = absurd (cc h)
head-All P (d ∷ ds) c a h = subst P (some_inj h) a.0

-- The candidates are the members with their frequencies.
pub record Listed (freq : Map ℕ) (ts : List TransactionId) (cs : List (TransactionId × ℕ))
    : Type 1 where
  pub from_members : All (λ c. (elem c.0 ts ≡ true) × (Map.find? c.0 freq ≡ some c.1)) cs
  pub to_members :
      (P : TransactionId × ℕ → Type 0) (t : TransactionId) (n : ℕ)
      → All P cs
      → elem t ts ≡ true
      → Map.find? t freq ≡ some n
      → P (t, n)

candidates-Listed :
    (freq : Map ℕ) (ts : List TransactionId)
    → ((t : TransactionId) → elem t ts ≡ true → Map.contains t freq ≡ true)
    → (cs : List (TransactionId × ℕ)) × (candidates_of freq ts ≡ some cs) × Listed freq ts cs
unfolding candidates_of
candidates-Listed freq [] known =
    ([], refl, record { from_members = tt; to_members = λ P t n a m f. absurd (cc m) })
candidates-Listed freq (x ∷ ts) known =
    let (n, there) = contains-true x freq (known x (ground (arith, ==_refl x))) in
    let (cs, ran, l) = candidates-Listed freq ts (λ t m. known t (ground (arith, m))) in
    (
      (x, n) ∷ cs,
      rw (there, candidates_of) (rw ran refl),
      record {
        from_members = (
          (ground (arith, ==_refl x), there),
          All-mono _ _ cs (λ c h. (ground (arith, h.0), h.1)) l.from_members,
        );
        to_members = λ P t k a m f. elim (Bool-cases (x == t)) [
          | inl same ↦
              let e : x ≡ t = ground arith in
              let count : n ≡ k = some_inj (sym there ∙ ap (λ i. Map.find? i freq) e ∙ f) in
              subst (λ i. P (t, i)) count (subst (λ i. P (i, n)) e a.0)
          | inr other ↦ l.to_members P t k a.1 (ground (arith, m)) f
        ];
      },
    )

-- If the cycle has members, each with a frequency, the victim is one of them, none of them has a higher
-- frequency, and none with the same frequency has a smaller id.
pub select_victim_lem :
    (cycle : List TransactionId) (freq : Map ℕ)
    → is_empty cycle ≡ false
    → ((t : TransactionId) → elem t cycle ≡ true → Map.contains t freq ≡ true)
    → (v : TransactionId) × (n : ℕ) × (select_victim cycle freq ≡ some v)
      × (elem v cycle ≡ true)
      × (Map.find? v freq ≡ some n)
      × ((t : TransactionId) (k : ℕ)
          → elem t cycle ≡ true
          → Map.find? t freq ≡ some k
          → (k ≤ n) × (k ≡ n → v ≤ t))
unfolding select_victim
select_victim_lem [] freq full known = absurd (cc full)
select_victim_lem (x ∷ ts) freq full known =
    let (cs, ran, l) = candidates-Listed freq (x ∷ ts) known in
    let (c, top) = sorted_head cs l in
    let sorted = sort-All (λ d. (elem d.0 (x ∷ ts) ≡ true) × (Map.find? d.0 freq ≡ some d.1)) cs in
    let (member, count) = head-All _ (sort_candidates cs) c (sorted.0 l.from_members) top in
    let ahead = (sort-All (Before c) cs).1 (head-Led (sort_candidates cs) c (sort-Led cs) top) in
    (
      c.0,
      c.1,
      rw (ran, select_victim) (rw top refl),
      member,
      count,
      λ t k m f. l.to_members (Before c) t k ahead m f,
    )
  where
    sorted_head :
        (cs : List (TransactionId × ℕ))
        → Listed freq (x ∷ ts) cs
        → (c : TransactionId × ℕ) × (head? (sort_candidates cs) ≡ some c)
    sorted_head [] l = absurd (
        let (n, there) = contains-true x freq (known x (ground (arith, ==_refl x))) in
        l.to_members (λ c. ⊥) x n tt (ground (arith, ==_refl x)) there)
    sorted_head (c ∷ cs) l = unfold sort_candidates in insert-head c (sort_candidates cs)
