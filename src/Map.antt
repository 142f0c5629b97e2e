-- ===== src/Map.antt =====
-- `std::unordered_map` with identifiers for keys, as an association list whose order is the
-- order of iteration. The library leaves that order open, and so do the theorems: they
-- hold of every list.
use mathlib.Core.List.{append-nil}
use hawk_txn.Common.{
  ℕ, ◌≡◌, refl, Bool, true, false, ◌||◌, Option, none, some, List, [], ◌∷◌, ◌++◌, arith, ◌==◌,
  if◌then◌else◌, inl, inr, Bool-cases, ap, sym, ◌∙◌,
}

abbrev pub Map {ℓ} : Type ℓ → Type ℓ
Map V = List (ℕ × V)

module _ {ℓ} {V : Type ℓ} where
  abbrev pub keys : Map V → List ℕ
  keys [] = []
  keys ((k, v) ∷ m) = k ∷ keys m

  -- `find`, and `at` where the key is there
  abbrev pub find? : ℕ → Map V → Option V
  find? k [] = none
  find? k ((j, v) ∷ m) = if j == k then some v else find? k m

  -- `count`
  abbrev pub contains : ℕ → Map V → Bool
  contains k [] = false
  contains k ((j, v) ∷ m) = j == k || contains k m

  -- `m[k]` read with the value that `operator[]` creates
  abbrev pub get_or : ℕ → V → Map V → V
  get_or k d [] = d
  get_or k d ((j, v) ∷ m) = if j == k then v else get_or k d m

  -- `m[k] = v`
  unfoldable pub assign : ℕ → V → Map V → Map V
  assign k v [] = (k, v) ∷ []
  assign k v ((j, w) ∷ m) = if j == k then (k, v) ∷ m else (j, w) ∷ assign k v m

  -- `erase(k)`
  unfoldable pub erase : ℕ → Map V → Map V
  erase k [] = []
  erase k ((j, w) ∷ m) = if j == k then erase k m else (j, w) ∷ erase k m

  pub find?-assign :
      (k j : ℕ) (v : V) (m : Map V)
      → find? j (assign k v m) ≡ (if k == j then some v else find? j m)
  unfolding assign
  find?-assign k j v [] = refl
  find?-assign k j v ((i, w) ∷ m) = ground (arith, find?-assign k j v m)

  pub get_or-assign :
      (k j : ℕ) (d v : V) (m : Map V)
      → get_or j d (assign k v m) ≡ (if k == j then v else get_or j d m)
  unfolding assign
  get_or-assign k j d v [] = refl
  get_or-assign k j d v ((i, w) ∷ m) = ground (arith, get_or-assign k j d v m)

  pub find?-erase :
      (k j : ℕ) (m : Map V) → find? j (erase k m) ≡ (if k == j then none else find? j m)
  unfolding erase
  find?-erase k j [] = ground arith
  find?-erase k j ((i, w) ∷ m) = ground (arith, find?-erase k j m)

  pub contains-find? : (k : ℕ) (m : Map V) (v : V) → find? k m ≡ some v → contains k m ≡ true
  contains-find? k [] v h = ground arith
  contains-find? k ((i, w) ∷ m) v h = ground (arith, contains-find? k m v)

  pub find?-contains : (k : ℕ) (m : Map V) → contains k m ≡ false → find? k m ≡ none
  find?-contains k [] h = refl
  find?-contains k ((i, w) ∷ m) h = ground (arith, find?-contains k m)

  pub contains-true : (k : ℕ) (m : Map V) → contains k m ≡ true → (v : V) × (find? k m ≡ some v)
  contains-true k [] h = absurd (ground arith)
  contains-true k ((i, w) ∷ m) h = elim (Bool-cases (i == k)) [
    | inl e ↦ (w, rw e)
    | inr e ↦ let (v, p) = contains-true k m (ground arith) in (v, rw e p)
  ]

-- Every key stands once.
abbrev pub IsUnique {ℓ} : {V : Type ℓ} → Map V → Type 0
IsUnique [] = Unit
IsUnique ((k, v) ∷ m) = (contains k m ≡ false) × IsUnique m

module _ {ℓ} {V : Type ℓ} where
  pub contains-assign :
      (k j : ℕ) (v : V) (m : Map V) → contains j (assign k v m) ≡ k == j || contains j m
  unfolding assign
  contains-assign k j v [] = refl
  contains-assign k j v ((i, w) ∷ m) = ground (arith, contains-assign k j v m)

  pub contains-erase : (k j : ℕ) (m : Map V) → contains j m ≡ false → contains j (erase k m) ≡ false
  unfolding erase
  contains-erase k j [] h = refl
  contains-erase k j ((i, w) ∷ m) h = ground (arith, contains-erase k j m)

  pub assign-IsUnique : (k : ℕ) (v : V) (m : Map V) → IsUnique m → IsUnique (assign k v m)
  unfolding assign
  assign-IsUnique k v [] u = (refl, tt)
  assign-IsUnique k v ((i, w) ∷ m) u =
      ground (arith, assign-IsUnique k v m u.1, contains-assign k i v m)

  pub erase-IsUnique : (k : ℕ) (m : Map V) → IsUnique m → IsUnique (erase k m)
  unfolding erase
  erase-IsUnique k [] u = tt
  erase-IsUnique k ((i, w) ∷ m) u = ground (arith, erase-IsUnique k m u.1, contains-erase k i m)

  pub get_or-erase :
      (k j : ℕ) (d : V) (m : Map V) → get_or j d (erase k m) ≡ (if k == j then d else get_or j d m)
  unfolding erase
  get_or-erase k j d [] = ground arith
  get_or-erase k j d ((i, w) ∷ m) = ground (arith, get_or-erase k j d m)

  pub get_or-contains : (k : ℕ) (d : V) (m : Map V) → contains k m ≡ false → get_or k d m ≡ d
  get_or-contains k d [] h = refl
  get_or-contains k d ((i, w) ∷ m) h = ground (arith, get_or-contains k d m)

-- `m[k].push_back(v)`
module _ {ℓ} {V : Type ℓ} where
  abbrev pub push_back : ℕ → V → Map (List V) → Map (List V)
  push_back k v m = assign k (get_or k [] m ++ v ∷ []) m

  pub get_or-push_back :
      (k j : ℕ) (v : V) (m : Map (List V))
      → get_or j [] (push_back k v m) ≡ get_or j [] m ++ (if k == j then v ∷ [] else [])
  get_or-push_back k j v m = elim (Bool-cases (k == j)) [
    | inl same ↦
        let e : k ≡ j = ground arith in
        get_or-assign k j [] (get_or k [] m ++ v ∷ []) m
        ∙ rw same (ap (λ i. get_or i [] m ++ v ∷ []) e)
    | inr other ↦
        get_or-assign k j [] (get_or k [] m ++ v ∷ []) m
        ∙ rw other (sym (append-nil (get_or j [] m)))
  ]

pub key_apart {ℓ} :
    {V : Type ℓ} (k x : ℕ) (m : Map V)
    → contains k m ≡ false
    → contains x m ≡ true
    → (k == x) ≡ false
key_apart k x m out there = elim (Bool-cases (k == x)) [
  | inr other ↦ other
  | inl same ↦ let e : k ≡ x = ground arith in absurd (cc (ap (λ i. contains i m) e, out, there))
]
