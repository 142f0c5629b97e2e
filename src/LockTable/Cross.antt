-- ===== src/LockTable/Cross.antt =====
-- What collectCrossNodeWFDEdges of LockTable.cpp can find.
use hawk_txn.Common.{
  ◌≡◌, true, some, List, [], ◌∷◌, ◌==◌, arith, Option-cases, sym, ◌∙◌, inl, inr, >>=-eq-some,
  some_inj,
}
use hawk_txn.Types.{NodeId, TransactionId, ResourceId, WfdEdge}
use hawk_txn.Resource.{Holders, get_resource_holders, get_local_resources}
use hawk_txn.Transaction.{Transaction, TransactionManager, get_transaction}
use hawk_txn.LockTable.{front_waiter, cross_edges, cross_resources, collect_cross_node_wfd_edges}

-- Every active transaction has its home on the node.
abbrev pub IsHome : NodeId → TransactionManager → Type 0
IsHome n tm =
    (t : TransactionId) (trans : Transaction)
    → get_transaction tm t ≡ some trans
    → trans.home_node_id ≡ n

module _ (n : NodeId) (tm : TransactionManager) (home : IsHome n tm) where
  cross_edges_home :
      (w : TransactionId) (hs : Holders) (edges found : List WfdEdge)
      → cross_edges tm w hs edges ≡ some found
      → found ≡ edges
  unfolding cross_edges
  cross_edges_home w [] edges found h = sym (some_inj h)
  cross_edges_home w ((x, mode) ∷ hs) edges found h =
      let (waiting, there, h1) = >>=-eq-some (get_transaction tm w) _ h in
      let (held, also, h2) = >>=-eq-some (get_transaction tm x) _ h1 in
      let same : (waiting.home_node_id == held.home_node_id) ≡ true =
        ground (arith, home w waiting there, home x held also) in
      cross_edges_home w hs edges found (rw same at h2)

  cross_resources_home :
      (rs : List ResourceId) (edges found : List WfdEdge)
      → cross_resources tm rs edges ≡ some found
      → found ≡ edges
  unfolding cross_resources
  cross_resources_home [] edges found h = sym (some_inj h)
  cross_resources_home (r ∷ rs) edges found h = elim (Option-cases (front_waiter tm r)) [
    | inl e ↦ cross_resources_home rs edges found (rw (e, cross_resources) at h)
    | inr (w, e) ↦
        let (some_edges, one, rest) =
          >>=-eq-some (cross_edges tm w (get_resource_holders tm.resource_manager r) edges) _
            (rw (e, cross_resources) at h) in
        cross_resources_home rs some_edges found rest ∙ cross_edges_home w _ edges some_edges one
  ]

-- On a node all of whose active transactions have their home there, collectCrossNodeWFDEdges finds
-- no edge, if it does not throw.
pub no_cross_edges :
    (n : NodeId) (tm : TransactionManager) (found : List WfdEdge)
    → IsHome n tm
    → collect_cross_node_wfd_edges tm ≡ some found
    → found ≡ []
unfolding collect_cross_node_wfd_edges
no_cross_edges n tm found home h =
    cross_resources_home n tm home (get_local_resources tm.resource_manager) [] found h
