-- ===== src/LockTable.antt =====
-- LockTable.h and LockTable.cpp: the local wait-for graph and the edges between nodes, read off the
-- locks and the transactions of one node. An `at` on a missing transaction, which throws, is `none`.
pub mod Edges
pub mod Waits
pub mod Cross
pub mod Home
pub mod Tests
use hawk_txn.Common.{
  Bool, true, false, not, ◌&&◌, Option, some, none, List, [], ◌∷◌, ◌++◌, ◌==◌, if◌then◌else◌, ◌>>=◌,
  elem,
}
use hawk_txn.Map
use hawk_txn.Map.{Map}
use hawk_txn.Types.{NodeId, TransactionId, ResourceId, WfdEdge}
use hawk_txn.Resource.{
  ResourceManager, Holders, get_resource_holders, get_resource_waiting_queue, get_local_resources,
}
use hawk_txn.Transaction.{
  Transaction, TransactionManager, get_transaction, get_transaction_waiting_for,
}
use hawk_txn.Detector.{Wfg}

-- The transaction at the front of the queue of a resource that has holders, if that is what it
-- waits for.
unfoldable pub front_waiter : TransactionManager → ResourceId → Option TransactionId
front_waiter tm r = elim (get_resource_holders tm.resource_manager r) [
  | [] ↦ none
  | h ∷ hs ↦ elim (get_resource_waiting_queue tm.resource_manager r) [
    | [] ↦ none
    | w ∷ ws ↦ if get_transaction_waiting_for tm w == r then some w else none
  ]
]

-- The loop over the holders.
unfoldable pub add_holders : TransactionId → Holders → Wfg → Wfg
add_holders w [] g = g
add_holders w ((h, mode) ∷ hs) g = add_holders w hs (if h == w then g else Map.push_back w h g)

unfoldable pub add_resources : TransactionManager → List ResourceId → Wfg → Wfg
unfolding front_waiter add_holders
add_resources tm [] g = g
add_resources tm (r ∷ rs) g = elim (front_waiter tm r) [
  | none ↦ add_resources tm rs g
  | some w ↦ add_resources tm rs (add_holders w (get_resource_holders tm.resource_manager r) g)
]

-- buildLocalWaitForGraph
unfoldable pub build_local_wait_for_graph : TransactionManager → Wfg
unfolding add_resources get_local_resources
build_local_wait_for_graph tm = add_resources tm (get_local_resources tm.resource_manager) []

-- The same loops with the test on the active transactions.
unfoldable pub add_active_holders : List TransactionId → TransactionId → Holders → Wfg → Wfg
add_active_holders active w [] g = g
add_active_holders active w ((h, mode) ∷ hs) g =
    add_active_holders active w hs
      (if not (h == w) && elem h active then Map.push_back w h g else g)

unfoldable pub add_active_resources :
    List TransactionId → TransactionManager → List ResourceId → Wfg → Wfg
unfolding front_waiter add_active_holders
add_active_resources active tm [] g = g
add_active_resources active tm (r ∷ rs) g = elim (front_waiter tm r) [
  | none ↦ add_active_resources active tm rs g
  | some w ↦ add_active_resources active tm rs (
      if elem w active
      then add_active_holders active w (get_resource_holders tm.resource_manager r) g
      else g)
]

-- buildAndPruneLocalWaitForGraph
unfoldable pub build_and_prune_local_wait_for_graph : List TransactionId → TransactionManager → Wfg
unfolding add_active_resources get_local_resources
build_and_prune_local_wait_for_graph active tm =
    add_active_resources active tm (get_local_resources tm.resource_manager) []

-- The loop over the holders of collectCrossNodeWFDEdges.
unfoldable pub cross_edges :
    TransactionManager → TransactionId → Holders → List WfdEdge → Option (List WfdEdge)
cross_edges tm w [] edges = some edges
cross_edges tm w ((h, mode) ∷ hs) edges = do
  waiting ← get_transaction tm w
  held ← get_transaction tm h
  cross_edges tm w hs (
      if waiting.home_node_id == held.home_node_id
      then edges
      else (edges
          ++ (record {
            waiting_trans_id = w;
            holding_trans_id = h;
            waiting_node_id = waiting.home_node_id;
            holding_node_id = held.home_node_id;
          })
            ∷ []))

unfoldable pub cross_resources :
    TransactionManager → List ResourceId → List WfdEdge → Option (List WfdEdge)
unfolding front_waiter cross_edges
cross_resources tm [] edges = some edges
cross_resources tm (r ∷ rs) edges = elim (front_waiter tm r) [
  | none ↦ cross_resources tm rs edges
  | some w ↦ do
    edges' ← cross_edges tm w (get_resource_holders tm.resource_manager r) edges
    cross_resources tm rs edges'
]

-- collectCrossNodeWFDEdges
unfoldable pub collect_cross_node_wfd_edges : TransactionManager → Option (List WfdEdge)
unfolding cross_resources get_local_resources
collect_cross_node_wfd_edges tm = cross_resources tm (get_local_resources tm.resource_manager) []
