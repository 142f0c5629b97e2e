-- ===== src/Detector.antt =====
-- DeadlockDetector.h and DeadlockDetector.cpp: the depth-first search for cycles in a wait-for
-- graph. The maps that the search passes by reference are the fields of `Search`. A map read by
-- `operator[]` gives 0, or false, where it has no entry. `dfs` and the walk along `parent` take
-- fuel, `none` when it runs out.
pub mod Graph
pub mod Rules
pub mod Start
pub mod Sound
pub mod Complete
pub mod Total
pub mod Diverge
pub mod Tests
use mathlib.Core.List.{reverse}
use hawk_txn.Common.{
  ℕ, zero, suc, ◌+◌, Bool, true, false, Option, none, some, List, [], ◌∷◌, ◌++◌, ◌==◌, length, ltb,
  if◌then◌else◌, ◌>>=◌,
}
use hawk_txn.Common.Int.{ℤ, pos, pred_ℤ, is_pos, abs_diff}
use hawk_txn.Map
use hawk_txn.Map.{Map}
use hawk_txn.Types.{TransactionId}

abbrev pub Wfg : Type 0
Wfg = Map (List TransactionId)

pub record Search : Type 0 where
  pub visited_count : Map ℤ
  pub recursion_stack : Map Bool
  pub parent : Map TransactionId
  pub cycles : List (List TransactionId)
  pub frequency : Map ℕ

abbrev pub count_of : Search → TransactionId → ℤ
count_of s v = Map.get_or v (pos 0) s.visited_count

abbrev pub on_stack : Search → TransactionId → Bool
on_stack s v = Map.get_or v false s.recursion_stack

abbrev pub parent_of : Map TransactionId → TransactionId → TransactionId
parent_of parent v = Map.get_or v 0 parent

-- `frequency[v]++`
abbrev pub increment : TransactionId → Map ℕ → Map ℕ
increment v m = Map.assign v (Map.get_or v 0 m + 1) m

-- `while (curr != v)`: the transactions on the way from `curr` up to `v`, in the order of the walk.
unfoldable pub walk :
    ℕ
    → Map TransactionId
    → TransactionId
    → TransactionId
    → List TransactionId
    → Map ℕ
    → Option (List TransactionId × Map ℕ)
walk zero parent curr v cycle freq = none
walk (suc fuel) parent curr v cycle freq = elim (curr == v) [
  | true ↦ some (cycle ++ v ∷ [], increment v freq)
  | false ↦ walk fuel parent (parent_of parent curr) v (cycle ++ curr ∷ []) (increment curr freq)
]

-- A back edge from `u` to `v`: the cycle found is stored from `v` to `u`.
unfoldable pub report : ℕ → TransactionId → TransactionId → Search → Option Search
unfolding walk
report w u v s = do
  (cycle, freq) ← walk w s.parent u v [] s.frequency
  some (record s { cycles = s.cycles ++ reverse cycle ∷ []; frequency = freq })

unfoldable pub enter : TransactionId → Search → Search
enter u s = record s {
  visited_count = Map.assign u (pred_ℤ (count_of s u)) s.visited_count;
  recursion_stack = Map.assign u true s.recursion_stack;
}

unfoldable pub leave : TransactionId → Search → Search
leave u s = record s { recursion_stack = Map.assign u false s.recursion_stack }

unfoldable pub set_parent : TransactionId → TransactionId → Search → Search
set_parent v u s = record s { parent = Map.assign v u s.parent }

-- The body of the loop over the targets; `call` is the recursive call.
unfoldable pub follow :
    ℕ
    → (TransactionId → Search → Option Search)
    → TransactionId
    → TransactionId
    → Search
    → Option Search
follow w call u v s = elim (is_pos (count_of s v)) [
  | true ↦ call v (set_parent v u s)
  | false ↦ elim (on_stack s v) [ true ↦ report w u v s | false ↦ some s ]
]

unfoldable pub follow_all :
    ℕ
    → (TransactionId → Search → Option Search)
    → TransactionId
    → List TransactionId
    → Search
    → Option Search
follow_all w call u [] s = some s
follow_all w call u (v ∷ vs) s = do s' ← follow w call u v s; follow_all w call u vs s'

-- DeadlockDetector::dfs, with fuel `w` for each walk along `parent`.
unfoldable pub dfs : ℕ → ℕ → Wfg → TransactionId → Search → Option Search
dfs w zero graph u s = none
dfs w (suc fuel) graph u s = do
  s' ← follow_all w (dfs w fuel graph) u (Map.get_or u [] graph) (enter u s)
  some (leave u s')

-- The first loop of findCycles: `out_degree` and `in_degree`.
unfoldable pub out_degrees : Wfg → Map ℕ → Map ℕ
out_degrees [] d = d
out_degrees ((u, vs) ∷ g) d = out_degrees g (Map.assign u (length vs) d)

unfoldable pub count_targets : List TransactionId → Map ℕ → Map ℕ
count_targets [] d = d
count_targets (v ∷ vs) d = count_targets vs (increment v d)

unfoldable pub in_degrees : Wfg → Map ℕ → Map ℕ
unfolding count_targets
in_degrees [] d = d
in_degrees ((u, vs) ∷ g) d = in_degrees g (count_targets vs d)

-- `std::abs(out_degree[t] - in_degree[t]) + 1`
abbrev pub initial_count : Map ℕ → Map ℕ → TransactionId → ℤ
initial_count outs ins t = pos (abs_diff (Map.get_or t 0 outs) (Map.get_or t 0 ins) + 1)

unfoldable pub init_node : (TransactionId → ℤ) → TransactionId → Search → Search
init_node count t s = record {
  visited_count = Map.assign t (count t) s.visited_count;
  recursion_stack = Map.assign t false s.recursion_stack;
  parent = Map.assign t 0 s.parent;
  cycles = s.cycles;
  frequency = Map.assign t 0 s.frequency;
}

-- The second loop, over the keys.
unfoldable pub init_keys : (TransactionId → ℤ) → Wfg → Search → Search
unfolding init_node
init_keys count [] s = s
init_keys count ((t, vs) ∷ g) s = init_keys count g (init_node count t s)

-- The third loop, over the targets that have no entry yet.
unfoldable pub init_target : (TransactionId → ℤ) → TransactionId → Search → Search
unfolding init_node
init_target count v s = if Map.contains v s.visited_count then s else init_node count v s

unfoldable pub init_targets : (TransactionId → ℤ) → List TransactionId → Search → Search
unfolding init_target
init_targets count [] s = s
init_targets count (v ∷ vs) s = init_targets count vs (init_target count v s)

unfoldable pub init_all_targets : (TransactionId → ℤ) → Wfg → Search → Search
unfolding init_targets
init_all_targets count [] s = s
init_all_targets count ((t, vs) ∷ g) s = init_all_targets count g (init_targets count vs s)

abbrev pub empty_search : Search
empty_search = record {
  visited_count = [];
  recursion_stack = [];
  parent = [];
  cycles = [];
  frequency = [];
}

unfoldable pub start : Wfg → Search
unfolding out_degrees in_degrees init_keys init_all_targets
start graph =
    let count = initial_count (out_degrees graph []) (in_degrees graph []) in
    init_all_targets count graph (init_keys count graph empty_search)

-- The last loop: a search from every key.
unfoldable pub search_keys : ℕ → ℕ → Wfg → Wfg → Search → Option Search
search_keys w fuel graph [] s = some s
search_keys w fuel graph ((t, vs) ∷ rest) s = do
  s' ← dfs w fuel graph t s
  search_keys w fuel graph rest s'

-- DeadlockDetector::findCycles
unfoldable pub find_cycles : ℕ → ℕ → Wfg → Option (List (List TransactionId) × Map ℕ)
unfolding start search_keys
find_cycles w fuel graph = do
  s ← search_keys w fuel graph graph (start graph)
  some (s.cycles, s.frequency)

-- compareTransactionPriority
unfoldable pub compare_transaction_priority : TransactionId × ℕ → TransactionId × ℕ → Bool
compare_transaction_priority a b = if a.1 == b.1 then ltb a.0 b.0 else ltb b.1 a.1
