-- ===== src/Pag.antt =====
-- PAGManager.h and PAGManager.cpp: the graph of nodes that wait for nodes, and its cut into
-- detection zones. The maps that the search passes by reference are the fields of `Tarjan`; a
-- map read by `operator[]` gives 0, or false, where it has no entry. The recursion takes fuel, and
-- `none` is fuel that ran out, a pop of the empty stack or the first entry of an empty component.
pub mod Generate
pub mod Search
pub mod Cut
pub mod Tests
use mathlib.Core.List.{reverse}
use hawk_txn.Common.{
  ℕ, zero, suc, ◌+◌, Bool, true, false, Option, none, some, List, [], ◌∷◌, ◌++◌, ◌==◌, length, ltb,
  leb, if◌then◌else◌, ◌>>=◌, elem,
}
use hawk_txn.Common.Int.{ℤ, pos, negsuc, min_ℤ, eq_ℤ}
use hawk_txn.Map
use hawk_txn.Map.{Map}
use hawk_txn.Types.{NodeId, WfdEdge}

abbrev pub Pag : Type 0
Pag = Map (List NodeId)

-- The body of the loop of generatePAG.
unfoldable pub add_edge : WfdEdge → Pag → Pag
add_edge e pag =
    if e.waiting_node_id == e.holding_node_id
    then pag
    else Map.push_back e.waiting_node_id e.holding_node_id pag

unfoldable pub add_edges : List WfdEdge → Pag → Pag
unfolding add_edge
add_edges [] pag = pag
add_edges (e ∷ es) pag = add_edges es (add_edge e pag)

-- generatePAG
unfoldable pub generate_pag : List WfdEdge → Pag
unfolding add_edges
generate_pag es = add_edges es []

pub record Tarjan : Type 0 where
  pub disc : Map ℤ
  pub low : Map ℤ
  -- the top is the head
  pub stack : List NodeId
  pub on_stack : Map Bool
  pub sccs : List (List NodeId)
  pub time : ℕ

abbrev pub disc_of : Tarjan → NodeId → ℤ
disc_of s v = Map.get_or v (pos 0) s.disc

abbrev pub low_of : Tarjan → NodeId → ℤ
low_of s v = Map.get_or v (pos 0) s.low

abbrev pub stacked : Tarjan → NodeId → Bool
stacked s v = Map.get_or v false s.on_stack

-- The first three statements of findSCCsDFS.
unfoldable pub visit : NodeId → Tarjan → Tarjan
visit u s = record {
  disc = Map.assign u (pos (s.time + 1)) s.disc;
  low = Map.assign u (pos (s.time + 1)) s.low;
  stack = u ∷ s.stack;
  on_stack = Map.assign u true s.on_stack;
  sccs = s.sccs;
  time = s.time + 1;
}

-- `low[u] = std::min(low[u], z)`
unfoldable pub lower : NodeId → ℤ → Tarjan → Tarjan
lower u z s = record s { low = Map.assign u (min_ℤ (low_of s u) z) s.low }

-- The body of the loop over the neighbours; `call` is the recursive call.
unfoldable pub explore :
    (NodeId → Tarjan → Option Tarjan) → NodeId → NodeId → Tarjan → Option Tarjan
unfolding lower
explore call u v s = elim (Map.contains v s.disc) [
  | false ↦ do s' ← call v s; some (lower u (low_of s' v) s')
  | true ↦ some (if stacked s v then lower u (disc_of s v) s else s)
]

unfoldable pub explore_all :
    (NodeId → Tarjan → Option Tarjan) → NodeId → List NodeId → Tarjan → Option Tarjan
explore_all call u [] s = some s
explore_all call u (v ∷ vs) s = do s' ← explore call u v s; explore_all call u vs s'

-- `while (true)`: the component is popped down to `u`.
unfoldable pub pop_scc :
    NodeId → List NodeId → Map Bool → List NodeId → Option (List NodeId × Map Bool × List NodeId)
pop_scc u [] on_stack scc = none
pop_scc u (n ∷ st) on_stack scc =
    let rest = pop_scc u st (Map.assign n false on_stack) (scc ++ n ∷ []) in
    if n == u then some (st, Map.assign n false on_stack, scc ++ n ∷ []) else rest

-- The last statement of findSCCsDFS.
unfoldable pub close_scc : NodeId → Tarjan → Option Tarjan
unfolding pop_scc
close_scc u s = elim (eq_ℤ (low_of s u) (disc_of s u)) [
  | true ↦ do
    (st, flags, scc) ← pop_scc u s.stack s.on_stack []
    some (record s { stack = st; on_stack = flags; sccs = s.sccs ++ reverse scc ∷ [] })
  | false ↦ some s
]

-- findSCCsDFS
unfoldable pub find_sccs_dfs : ℕ → Pag → NodeId → Tarjan → Option Tarjan
find_sccs_dfs zero graph u s = none
find_sccs_dfs (suc fuel) graph u s = do
  s' ← explore_all (find_sccs_dfs fuel graph) u (Map.get_or u [] graph) (visit u s)
  close_scc u s'

-- The first loop of greedySCCcut.
unfoldable pub mark : NodeId → Tarjan → Tarjan
mark v s = record s {
  disc = Map.assign v (negsuc 0) s.disc;
  on_stack = Map.assign v false s.on_stack;
}

unfoldable pub mark_new : List NodeId → Tarjan → Tarjan
unfolding mark
mark_new [] s = s
mark_new (v ∷ vs) s = mark_new vs (if Map.contains v s.disc then s else mark v s)

unfoldable pub mark_all : Pag → Tarjan → Tarjan
unfolding mark mark_new
mark_all [] s = s
mark_all ((u, vs) ∷ g) s = mark_all g (mark_new vs (mark u s))

abbrev pub empty_tarjan : Tarjan
empty_tarjan = record { disc = []; low = []; stack = []; on_stack = []; sccs = []; time = 0 }

-- Its second loop: a search from every key that is still at -1.
unfoldable pub search_all : ℕ → Pag → Pag → Tarjan → Option Tarjan
search_all fuel graph [] s = some s
search_all fuel graph ((u, vs) ∷ rest) s = elim (eq_ℤ (disc_of s u) (negsuc 0)) [
  | true ↦ do s' ← find_sccs_dfs fuel graph u s; search_all fuel graph rest s'
  | false ↦ search_all fuel graph rest s
]

-- The smallest of `leader` and the rest of its component.
unfoldable pub min_leader : NodeId → List NodeId → NodeId
min_leader leader [] = leader
min_leader leader (n ∷ ns) = min_leader (if ltb n leader then n else leader) ns

abbrev pub Cut : Type 0
Cut = List (List NodeId) × List NodeId

-- Its third loop: the components of at least the threshold's size.
unfoldable pub keep_sccs : ℕ → List (List NodeId) → Cut → Option Cut
unfolding min_leader
keep_sccs threshold [] cut = some cut
keep_sccs threshold (scc ∷ sccs) (zones, leaders) = elim (leb threshold (length scc)) [
  | false ↦ keep_sccs threshold sccs (zones, leaders)
  | true ↦ elim scc [
    | [] ↦ none
    | n ∷ ns ↦ keep_sccs threshold sccs (zones ++ (n ∷ ns) ∷ [], leaders ++ min_leader n ns ∷ [])
  ]
]

-- `covered_nodes`
abbrev pub nodes_of : List (List NodeId) → List NodeId
nodes_of [] = []
nodes_of (z ∷ zs) = z ++ nodes_of zs

-- Its last loop: a zone of its own for every key that no zone covers.
unfoldable pub isolate : Pag → List NodeId → Cut → Cut
isolate [] covered cut = cut
isolate ((u, vs) ∷ rest) covered (zones, leaders) =
    if elem u covered
    then isolate rest covered (zones, leaders)
    else isolate rest (covered ++ u ∷ []) (zones ++ (u ∷ []) ∷ [], leaders ++ u ∷ [])

-- greedySCCcut; the threshold is the `size_t` that the `int` is converted to.
unfoldable pub greedy_scc_cut : ℕ → Pag → ℕ → Option Cut
unfolding mark_all search_all keep_sccs isolate
greedy_scc_cut fuel pag threshold = do
  s ← search_all fuel pag pag (mark_all pag empty_tarjan)
  (zones, leaders) ← keep_sccs threshold s.sccs ([], [])
  some (isolate pag (nodes_of zones) (zones, leaders))
