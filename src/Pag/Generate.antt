-- ===== src/Pag/Generate.antt =====
-- What generatePAG of PAGManager.cpp collects.
use mathlib.Core.List.{append_assoc, append-nil}
use hawk_txn.Common.{
  ◌≡◌, true, false, List, [], ◌∷◌, ◌++◌, ◌==◌, if◌then◌else◌, arith, Bool-cases, inl, inr, ap, sym,
  ◌∙◌,
}
use hawk_txn.Map
use hawk_txn.Map.{IsUnique, get_or-push_back, assign-IsUnique}
use hawk_txn.Types.{NodeId, WfdEdge}
use hawk_txn.Pag.{Pag, add_edge, add_edges, generate_pag}

-- The nodes other than `n` that `n` waits for, in the order of the edges.
abbrev pub waited_for : NodeId → List WfdEdge → List NodeId
waited_for n [] = []
waited_for n (e ∷ es) =
    if e.waiting_node_id == n
    then (if e.holding_node_id == n then waited_for n es else e.holding_node_id ∷ waited_for n es)
    else waited_for n es

loop_waited_for :
    (n : NodeId) (e : WfdEdge)
    → (e.waiting_node_id == e.holding_node_id) ≡ true
    → waited_for n (e ∷ []) ≡ []
loop_waited_for n e h = elim (Bool-cases (e.waiting_node_id == n)) [
  | inl own ↦ let held : (e.holding_node_id == n) ≡ true = ground arith in rw (own, held)
  | inr other ↦ rw other
]

cross_waited_for :
    (n : NodeId) (e : WfdEdge)
    → (e.waiting_node_id == e.holding_node_id) ≡ false
    → (if e.waiting_node_id == n then e.holding_node_id ∷ [] else []) ≡ waited_for n (e ∷ [])
cross_waited_for n e h = elim (Bool-cases (e.waiting_node_id == n)) [
  | inl own ↦ let held : (e.holding_node_id == n) ≡ false = ground arith in rw (own, held)
  | inr other ↦ rw other
]

add_edge_lem :
    (n : NodeId) (e : WfdEdge) (pag : Pag)
    → Map.get_or n [] (add_edge e pag) ≡ Map.get_or n [] pag ++ waited_for n (e ∷ [])
unfolding add_edge
add_edge_lem n e pag = elim (Bool-cases (e.waiting_node_id == e.holding_node_id)) [
  | inl loop ↦ rw (loop, loop_waited_for n e loop, append-nil (Map.get_or n [] pag))
  | inr cross ↦ rw cross (
      get_or-push_back e.waiting_node_id n e.holding_node_id pag
      ∙ ap (λ l. Map.get_or n [] pag ++ l) (cross_waited_for n e cross))
]

waited_for-append :
    (n : NodeId) (e : WfdEdge) (es : List WfdEdge)
    → waited_for n (e ∷ es) ≡ waited_for n (e ∷ []) ++ waited_for n es
waited_for-append n e es = ground arith

add_edges_lem :
    (n : NodeId) (es : List WfdEdge) (pag : Pag)
    → Map.get_or n [] (add_edges es pag) ≡ Map.get_or n [] pag ++ waited_for n es
unfolding add_edges
add_edges_lem n [] pag = sym (append-nil (Map.get_or n [] pag))
add_edges_lem n (e ∷ es) pag =
    add_edges_lem n es (add_edge e pag)
    ∙ ap (λ l. l ++ waited_for n es) (add_edge_lem n e pag)
    ∙ append_assoc (Map.get_or n [] pag) (waited_for n (e ∷ [])) (waited_for n es)
    ∙ ap (λ l. Map.get_or n [] pag ++ l) (sym (waited_for-append n e es))

add_edges-IsUnique : (es : List WfdEdge) (pag : Pag) → IsUnique pag → IsUnique (add_edges es pag)
unfolding add_edges
add_edges-IsUnique [] pag u = u
add_edges-IsUnique (e ∷ es) pag u = add_edges-IsUnique es (add_edge e pag) (
    ground (
      arith,
      assign-IsUnique e.waiting_node_id
          (Map.get_or e.waiting_node_id [] pag ++ e.holding_node_id ∷ []) pag u,
    ))

-- The graph of the sample has each node once, with the other nodes that it waits for in the order
-- of the edges.
pub generate_pag_lem :
    (es : List WfdEdge)
    → IsUnique (generate_pag es)
      × ((n : NodeId) → Map.get_or n [] (generate_pag es) ≡ waited_for n es)
unfolding generate_pag
generate_pag_lem es = (add_edges-IsUnique es [] tt, λ n. add_edges_lem n es [])
