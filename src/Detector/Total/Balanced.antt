-- ===== src/Detector/Total/Balanced.antt =====
-- findCycles of DeadlockDetector.cpp on graphs where each transaction waits for as many as wait
-- for it: no transaction is entered below itself, and every walk along `parent` ends.
use mathlib.Core.List.{Memᴰ, reverse}
use mathlib.Core.List.Memᴰ
use hawk_txn.Common.{
  ℕ, zero, suc, ◌≤◌, ◌<◌, ◌≡◌, refl, inl, inr, true, false, some, List, [], ◌∷◌, ◌++◌, ◌==◌, arith,
  Bool-cases, ◌∙◌, length,
}
use hawk_txn.Common.Int.{ℤ, pos, pred_ℤ, is_pos}
use hawk_txn.Map
use hawk_txn.Map.{Map, get_or-assign, get_or-contains, IsUnique}
use hawk_txn.Types.{TransactionId}
use hawk_txn.Detector.{
  Wfg, Search, count_of, on_stack, parent_of, increment, enter, leave, set_parent, report,
  find_cycles, start, walk,
}
use hawk_txn.Detector.Rules.{on_stack-enter, on_stack-leave, count_of-enter, parent_of-set}
use hawk_txn.Detector.Start.{start-IsBlank, start-Counts}
use hawk_txn.Detector.Total.Degrees.{IsBalanced, get_or-in_degrees, get_or-out_degrees}
use hawk_txn.Detector.Total.{effort, search_keys_returns}

-- Each transaction of the stack is the parent of the one above it.
abbrev Chain : Map TransactionId → List TransactionId → Type 0
Chain parent [] = Unit
Chain parent (x ∷ []) = Unit
Chain parent (x ∷ y ∷ r) = (parent_of parent x ≡ y) × Chain parent (y ∷ r)

chain_assign :
    (parent : Map TransactionId) (v u : TransactionId) (st : List TransactionId)
    → ¬ Memᴰ v st
    → Chain parent st
    → Chain (Map.assign v u parent) st
chain_assign parent v u [] fresh c = tt
chain_assign parent v u (x ∷ []) fresh c = tt
chain_assign parent v u (x ∷ y ∷ r) fresh c =
    let differs : (v == x) ≡ false = elim (Bool-cases (v == x)) [
      | inl same ↦ absurd (fresh (Memᴰ.head (ground arith)))
      | inr other ↦ other
    ] in
    (
      get_or-assign v x 0 u parent ∙ rw differs (c.0),
      chain_assign parent v u (y ∷ r) (λ m. fresh (Memᴰ.tail m)) c.1,
    )

-- The walk from the top of the stack to one of its entries ends within the stack.
chain_walk :
    (fuel : ℕ) (parent : Map TransactionId) (curr : TransactionId) (st : List TransactionId)
    (v : TransactionId) (cycle : List TransactionId) (freq : Map ℕ)
    → Chain parent (curr ∷ st)
    → Memᴰ v (curr ∷ st)
    → length (curr ∷ st) ≤ fuel
    → (out : List TransactionId × Map ℕ) × (walk fuel parent curr v cycle freq ≡ some out)
unfolding walk
chain_walk zero parent curr st v cycle freq c m le = absurd (omega arith)
chain_walk (suc fuel) parent curr [] v cycle freq c m le =
    let e : v ≡ curr = Memᴰ.eq_of_singleton m in ((cycle ++ v ∷ [], increment v freq), ground arith)
chain_walk (suc fuel) parent curr (y ∷ r) v cycle freq c m le = elim (Bool-cases (curr == v)) [
  | inl same ↦ ((cycle ++ v ∷ [], increment v freq), rw (same, walk))
  | inr other ↦ elim (Memᴰ.cases_cons m) [
    | inl here ↦ absurd (ground arith)
    | inr there ↦
        let (out, e) =
          chain_walk fuel parent y r v (cycle ++ curr ∷ []) (increment curr freq) c.1 there
            (omega arith) in
        (out, rw (other, walk, c.0) e)
  ]
]

record Stacked (st : List TransactionId) (s : Search) : Type 0 where
  chain : Chain s.parent st
  marked : (x : TransactionId) → on_stack s x ≡ true → Memᴰ x st
  spent : (x : TransactionId) → Memᴰ x st → is_pos (count_of s x) ≡ false
  small : (x : TransactionId) → is_pos (pred_ℤ (count_of s x)) ≡ false

pred_small : (z : ℤ) → is_pos (pred_ℤ z) ≡ false → is_pos (pred_ℤ (pred_ℤ z)) ≡ false
pred_small z h = ground arith

pred_spent : (z : ℤ) → is_pos z ≡ false → is_pos (pred_ℤ z) ≡ false
pred_spent z h = ground arith

-- Entering a transaction puts it on the stack, and uses its only entry up.
enter-Stacked :
    (v : TransactionId) (st : List TransactionId) (s : Search)
    → Chain s.parent (v ∷ st)
    → Stacked st s
    → Stacked (v ∷ st) (enter v s)
enter-Stacked v st s c p = record {
  chain = unfold enter in c;
  marked = λ x h. elim (Bool-cases (v == x)) [
    | inl same ↦ Memᴰ.head (ground arith)
    | inr other ↦ Memᴰ.tail (p.marked x (ground (arith, on_stack-enter v x s)))
  ];
  spent = λ x m. elim (Bool-cases (v == x)) [
    | inl same ↦ ground (arith, count_of-enter v x s, p.small v)
    | inr other ↦ elim (Memᴰ.cases_cons m) [
      | inl here ↦ absurd (ground arith)
      | inr there ↦ ground (arith, count_of-enter v x s, p.spent x there)
    ]
  ];
  small =
      λ x. ground (arith, count_of-enter v x s, p.small x, p.small v, pred_small (count_of s v));
}

set_parent-Stacked :
    (v u : TransactionId) (st : List TransactionId) (s : Search)
    → ¬ Memᴰ v st
    → Stacked st s
    → Stacked st (set_parent v u s)
unfolding set_parent
set_parent-Stacked v u st s fresh p = record {
  chain = chain_assign s.parent v u st fresh p.chain;
  marked = p.marked;
  spent = p.spent;
  small = p.small;
}

leave-Stacked :
    (u : TransactionId) (st : List TransactionId) (s : Search)
    → Stacked (u ∷ st) s
    → Stacked st (leave u s)
leave-Stacked u st s p = record {
  chain = unfold leave in chain_rest u st p.chain;
  marked = λ x h. elim (Bool-cases (u == x)) [
    | inl same ↦ absurd (ground (arith, on_stack-leave u x s))
    | inr other ↦ elim (Memᴰ.cases_cons (p.marked x (ground (arith, on_stack-leave u x s)))) [
      | inl e ↦ absurd (ground arith)
      | inr m ↦ m
    ]
  ];
  spent = λ x m. unfold leave in p.spent x (Memᴰ.tail m);
  small = λ x. unfold leave in p.small x;
}
  where
    chain_rest :
        (x : TransactionId) (r : List TransactionId) → Chain s.parent (x ∷ r) → Chain s.parent r
    chain_rest x [] c = tt
    chain_rest x (y ∷ r) c = c.1

call-Stacked :
    (u v : TransactionId) (st : List TransactionId) (s : Search)
    → Stacked (u ∷ st) s
    → is_pos (count_of s v) ≡ true
    → Stacked (v ∷ u ∷ st) (enter v (set_parent v u s))
call-Stacked u v st s p deeper =
    let fresh : ¬ Memᴰ v (u ∷ st) = λ m. cc (p.spent v m, deeper) in
    let q = set_parent-Stacked v u (u ∷ st) s fresh p in
    enter-Stacked v (u ∷ st) (set_parent v u s) (parent_of-set v u v s ∙ ground arith, q.chain) q

report-Stacked :
    (w : ℕ) (u v : TransactionId) (st : List TransactionId) (s : Search)
    → Stacked (u ∷ st) s
    → on_stack s v ≡ true
    → length (u ∷ st) ≤ w
    → (s' : Search) × (report w u v s ≡ some s') × Stacked (u ∷ st) s'
unfolding report
report-Stacked w u v st s p back deep =
    let (out, e) = chain_walk w s.parent u st v [] s.frequency p.chain (p.marked v back) deep in
    (
      record s { cycles = s.cycles ++ reverse out.0 ∷ []; frequency = out.1 },
      rw e refl,
      record { chain = p.chain; marked = p.marked; spent = p.spent; small = p.small },
    )

start_small :
    (g : Wfg) (x : TransactionId)
    → IsUnique g
    → IsBalanced g
    → is_pos (pred_ℤ (count_of (start g) x)) ≡ false
start_small g x u b = elim (Bool-cases (Map.contains x (start g).visited_count)) [
  | inl entry ↦ ground (
    arith,
    start-Counts g x entry,
    get_or-out_degrees x g [] u,
    get_or-in_degrees x g [],
    get_or-contains x [] g,
    b x,
  )
  | inr none_yet ↦ ground (arith, get_or-contains x (pos 0) (start g).visited_count none_yet)
]

-- If each transaction stands once in the graph and waits for as many as wait for it, findCycles
-- returns, given at least `effort g` + 1 as fuel and no less for its walks.
pub find_cycles_balanced :
    (g : Wfg) (w fuel : ℕ)
    → IsUnique g
    → IsBalanced g
    → effort g < fuel
    → fuel ≤ w
    → (cycles : List (List TransactionId)) × (frequency : Map ℕ) × (find_cycles w fuel g
        ≡ some (cycles, frequency))
unfolding find_cycles effort
find_cycles_balanced g w fuel u balanced enough deep =
    let b = start-IsBlank g in
    let (s, ran, q) =
      search_keys_returns w g Stacked (λ a v st t p _ d. call-Stacked a v st t p d)
        (λ a t p. enter-Stacked a [] t tt p) leave-Stacked
        (λ a v st t p _ back le. report-Stacked w a v st t p back le) fuel g (start g)
        (record {
          chain = tt;
          marked = λ x h. absurd (cc (b.stack x, h));
          spent = λ x m. absurd (Memᴰ.not-nil m);
          small = λ x. start_small g x u balanced;
        })
        enough deep in
    (s.cycles, s.frequency, rw ran)
