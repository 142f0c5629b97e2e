-- ===== src/Random/Outcomes.antt =====
-- What a chain of draws from an engine gives.
use hawk_txn.Common.{ℕ, ◌≤◌, ◌≡◌, refl, Bool, true, false, Option, some}
use hawk_txn.Random.{Engine, Drawing, then_draw}

-- A drawing ends, with a value for which `P` holds, and leaves the engine on the same stream.
pub record Ends {X : Type 0} (P : X → Type 0) (stream : ℕ → ℕ) (r : Option (X × Engine))
    : Type 0 where
  pub value : X
  pub rest : Engine
  pub ends : r ≡ some (value, rest)
  pub same : rest.stream ≡ stream
  pub holds : P value

abbrev pub Within : ℕ → ℕ → ℕ → Type 0
Within low high x = (low ≤ x) × (x ≤ high)

pub then-Ends :
    {X Y : Type 0} {P : X → Type 0} {Q : Y → Type 0} {s : ℕ → ℕ} {r : Option (X × Engine)}
    {f : X → Drawing Y}
    → Ends P s r
    → ((x : X) (g : Engine) → g.stream ≡ s → P x → Ends Q s (f x g))
    → Ends Q s (then_draw r f)
then-Ends {f = f} e h =
    let next = h e.value e.rest e.same e.holds in
    record {
      value = next.value;
      rest = next.rest;
      ends = rw e.ends next.ends;
      same = next.same;
      holds = next.holds;
    }

pub ret-Ends :
    {X : Type 0} {P : X → Type 0} {s : ℕ → ℕ} (x : X) (g : Engine)
    → g.stream ≡ s
    → P x
    → Ends P s (some (x, g))
ret-Ends x g h p = record { value = x; rest = g; ends = refl; same = h; holds = p }

pub Ends-mono :
    {X : Type 0} {P Q : X → Type 0} {s : ℕ → ℕ} {r : Option (X × Engine)}
    → ((x : X) → P x → Q x)
    → Ends P s r
    → Ends Q s r
Ends-mono f e = record {
  value = e.value;
  rest = e.rest;
  ends = e.ends;
  same = e.same;
  holds = f e.value e.holds;
}

-- A branch, between results and between drawings.
pub if-Ends :
    {X : Type 0} {P : X → Type 0} {s : ℕ → ℕ} (b : Bool) {r r' : Option (X × Engine)}
    → (b ≡ true → Ends P s r)
    → (b ≡ false → Ends P s r')
    → Ends P s (elim b [ true ↦ r | false ↦ r' ])
if-Ends true h h' = h refl
if-Ends false h h' = h' refl

pub branch-Ends :
    {X : Type 0} {P : X → Type 0} {s : ℕ → ℕ} (b : Bool) (d d' : Drawing X) (g : Engine)
    → Ends P s (d g)
    → Ends P s (d' g)
    → Ends P s ((elim b as (λ b. Drawing X) [ true ↦ d | false ↦ d' ]) g)
branch-Ends true d d' g h h' = h
branch-Ends false d d' g h h' = h'

pub choice-Ends :
    {X : Type 0} {P : X → Type 0} {s : ℕ → ℕ} (b : Bool) (d d' : Drawing X) (g : Engine)
    → (b ≡ true → Ends P s (d g))
    → (b ≡ false → Ends P s (d' g))
    → Ends P s ((elim b as (λ b. Drawing X) [ true ↦ d | false ↦ d' ]) g)
choice-Ends true d d' g h h' = h refl
choice-Ends false d d' g h h' = h' refl
