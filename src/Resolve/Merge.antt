-- ===== src/Resolve/Merge.antt =====
-- What DistributedDBNode.cpp makes of the reported graphs: their sum, its part between active
-- transactions, and an abort for each cycle in it.
use hawk_txn.Common.{
  ◌≡◌, refl, Bool, false, ◌&&◌, ◌||◌, List, [], ◌∷◌, ◌==◌, elem, arith, Bool-cases, ap, sym, ◌∙◌,
  inl, inr,
}
use hawk_txn.Map
use hawk_txn.Map.{Map, IsUnique, get_or-contains}
use hawk_txn.Types.{TransactionId}
use hawk_txn.Detector.{Wfg}
use hawk_txn.LockTable.Edges.{has_edge, has_edge-push_back, same_elem}
use hawk_txn.Resolve.{
  convert_wfg_to_message_format, merge_targets, merge_wfg, prune_targets, prune_graph,
}

merge_targets_lem :
    (k u v : TransactionId) (vs : List TransactionId) (g : Wfg)
    → has_edge (merge_targets k vs g) u v ≡ has_edge g u v || (k == u && elem v vs)
unfolding merge_targets
merge_targets_lem k u v [] g = ground arith
merge_targets_lem k u v (x ∷ vs) g =
    merge_targets_lem k u v vs (Map.push_back k x g)
    ∙ rw (has_edge-push_back k x u v g) (ground arith)

-- One of the pairs lists the edge.
abbrev pub listed : TransactionId → TransactionId → List (TransactionId × List TransactionId) → Bool
listed u v [] = false
listed u v ((k, vs) ∷ ps) = (k == u && elem v vs) || listed u v ps

pub merge_wfg_lem :
    (u v : TransactionId) (ps : List (TransactionId × List TransactionId)) (g : Wfg)
    → has_edge (merge_wfg g ps) u v ≡ has_edge g u v || listed u v ps
unfolding merge_wfg
merge_wfg_lem u v [] g = ground arith
merge_wfg_lem u v ((k, vs) ∷ ps) g =
    merge_wfg_lem u v ps (merge_targets k vs g) ∙ rw (merge_targets_lem k u v vs g) (ground arith)

listed-absent :
    (u v : TransactionId) (g : Wfg)
    → Map.contains u g ≡ false
    → listed u v (convert_wfg_to_message_format g) ≡ false
unfolding convert_wfg_to_message_format
listed-absent u v [] h = refl
listed-absent u v ((k, vs) ∷ g) h = ground (arith, listed-absent u v g, h)

listed-convert :
    (u v : TransactionId) (g : Wfg)
    → IsUnique g
    → listed u v (convert_wfg_to_message_format g) ≡ has_edge g u v
unfolding convert_wfg_to_message_format
listed-convert u v [] q = refl
listed-convert u v ((k, vs) ∷ g) q = elim (Bool-cases (k == u)) [
  | inr other ↦ ground (arith, listed-convert u v g q.1, other)
  | inl here ↦
      let e : k ≡ u = ground arith in
      let gone : Map.contains u g ≡ false = ap (λ i. Map.contains i g) (sym e) ∙ q.0 in
      ground (arith, here, listed-absent u v g gone)
]

-- A report that a node converts and another merges adds exactly the edges of the graph reported, in
-- which each transaction stands once, and loses none of those that were there.
pub merge_report_lem :
    (target g : Wfg) (u v : TransactionId)
    → IsUnique g
    → has_edge (merge_wfg target (convert_wfg_to_message_format g)) u v
      ≡ has_edge target u v || has_edge g u v
merge_report_lem target g u v q =
    merge_wfg_lem u v (convert_wfg_to_message_format g) target
    ∙ ap (λ b. has_edge target u v || b) (listed-convert u v g q)

prune_targets_lem :
    (active : List TransactionId) (k u v : TransactionId) (vs : List TransactionId) (g : Wfg)
    → has_edge (prune_targets active k vs g) u v
      ≡ has_edge g u v || ((k == u && elem v vs) && elem v active)
unfolding prune_targets
prune_targets_lem active k u v [] g = ground arith
prune_targets_lem active k u v (x ∷ vs) g = elim (Bool-cases (elem x active)) [
  | inl counts ↦
      rw (counts, prune_targets)
        (prune_targets_lem active k u v vs (Map.push_back k x g)
          ∙ rw (has_edge-push_back k x u v g) (ground (arith, counts, same_elem x v active)))
  | inr out ↦
      rw (out, prune_targets)
        (prune_targets_lem active k u v vs g ∙ ground (arith, out, same_elem x v active))
]

prune_graph_lem :
    (active : List TransactionId) (u v : TransactionId) (graph g : Wfg)
    → has_edge (prune_graph active graph g) u v
      ≡ has_edge g u v
        || (listed u v (convert_wfg_to_message_format graph) && (elem u active && elem v active))
unfolding prune_graph convert_wfg_to_message_format
prune_graph_lem active u v [] g = ground arith
prune_graph_lem active u v ((k, vs) ∷ graph) g = elim (Bool-cases (elem k active)) [
  | inl counts ↦
      rw (counts, prune_graph)
        (prune_graph_lem active u v graph (prune_targets active k vs g)
          ∙ rw (prune_targets_lem active k u v vs g) (ground (arith, counts, same_elem k u active)))
  | inr out ↦
      rw (out, prune_graph)
        (prune_graph_lem active u v graph g ∙ ground (arith, out, same_elem k u active))
]

-- The graph that checkAndResolveDeadlocks searches has exactly the edges of the aggregated graph, in
-- which each transaction stands once, between transactions that are active on this node.
pub prune_active_lem :
    (active : List TransactionId) (graph : Wfg) (u v : TransactionId)
    → IsUnique graph
    → has_edge (prune_graph active graph []) u v
      ≡ has_edge graph u v && (elem u active && elem v active)
prune_active_lem active graph u v q =
    prune_graph_lem active u v graph []
    ∙ ap (λ b. b && (elem u active && elem v active)) (listed-convert u v graph q)
