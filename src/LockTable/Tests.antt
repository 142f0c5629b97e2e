-- ===== src/LockTable/Tests.antt =====
-- Runs of LockTable.cpp on node 1.
use hawk_txn.Common.{
  Bool-cases, inl, inr, ◌≡◌, ◌↔◌, refl, true, some, List, [], ◌∷◌, arith, ◌==◌, some_inj, ap, sym,
}
use hawk_txn.Types.{TransactionId, ResourceId, exclusive, WfdEdge}
use hawk_txn.Resource.{get_local_resources, count_up}
use hawk_txn.Transaction.{
  Transaction, TransactionManager, new_transaction, blocked, get_transaction_waiting_for,
}
use hawk_txn.LockTable.{
  build_local_wait_for_graph, collect_cross_node_wfd_edges, cross_resources, cross_edges,
  front_waiter,
}
use hawk_txn.LockTable.Edges.{has_edge}
use hawk_txn.LockTable.Waits.{WaitsOn, local_graph_lem}
use hawk_txn.LockTable.Cross.{IsHome, no_cross_edges}

abbrev waiting : TransactionId → Transaction
waiting t = record (new_transaction t 1 []) { status = blocked; waiting_for_resource_id = 5 }

-- Transaction 2 waits for 1 on resource 5.
abbrev contended : TransactionManager
contended = record {
  node_id = 1;
  resource_manager = record {
    node_id = 1;
    resource_holders = (5, (1, exclusive) ∷ []) ∷ [];
    resource_waiting_queues = (5, 2 ∷ []) ∷ [];
    notify = true;
  };
  next_transaction_id = 3;
  active_transactions = (1, new_transaction 1 1 []) ∷ (2, waiting 2) ∷ [];
  completed_transaction_latencies = [];
}

local_graph_lem_example :
    (has_edge (build_local_wait_for_graph contended) 2 1 ≡ true)
    ↔ ((r : ResourceId) × WaitsOn contended 2 1 r)
local_graph_lem_example = local_graph_lem contended 2 1 (omega arith)

-- The same without the thousand resources of the node.
found_none : (found : List WfdEdge) × (collect_cross_node_wfd_edges contended ≡ some found)
unfolding collect_cross_node_wfd_edges cross_resources cross_edges front_waiter get_local_resources
    count_up get_transaction_waiting_for
found_none = (_, refl)

contended-IsHome : IsHome 1 contended
contended-IsHome t trans h = elim (Bool-cases (1 == t)) [
  | inl one ↦ ap (λ x. x.home_node_id) (sym (some_inj (rw one at h)))
  | inr other ↦ elim (Bool-cases (2 == t)) [
    | inl two ↦ ap (λ x. x.home_node_id) (sym (some_inj (rw two at (rw other at h))))
    | inr third ↦ absurd (cc (rw third at (rw other at h)))
  ]
]

no_cross_edges_example : found_none.0 ≡ []
no_cross_edges_example = no_cross_edges 1 contended found_none.0 contended-IsHome found_none.1
