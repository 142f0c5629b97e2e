-- ===== src/Adjust.antt =====
-- handlePAGRequest and handlePAGResponse of DistributedDBNode.cpp: the central node samples the edges
-- between nodes and decides whether to draw the detection zones anew. A time is in ticks of the
-- clock, which are nanoseconds. The quotient of two counts is above 1.0 exactly when the first is above
-- the second, as long as the counts are below 2^52, and the test on it is written so.
pub mod Decide
pub mod Tests
use hawk_txn.Common.{
  ℕ, zero, suc, ◌+◌, ◌-◌, ◌/◌, Bool, true, false, Option, some, none, List, [], ◌∷◌, ◌++◌,
  if◌then◌else◌, ◌>>=◌, leb,
}
use hawk_txn.Common.Int.{ℤ, pos, ◌-ℤ◌, lt_ℤ}
use hawk_txn.Types.{NodeId, WfdEdge, scc_cut_threshold}
use hawk_txn.Message.{NetworkMessage, blank, pag_response}
use hawk_txn.Transaction.{TransactionManager}
use hawk_txn.LockTable.{collect_cross_node_wfd_edges}
use hawk_txn.Pag.{generate_pag, greedy_scc_cut}
use hawk_txn.Network.Send.{Network, RpcCall, broadcast_tree_adjustment}

-- `aggregatedPagEdges_`, its counters, and what the last complete round left.
pub record PagState : Type 0 where
  pub aggregated_pag_edges : List WfdEdge
  pub pag_responses_received : ℕ
  pub pag_responses_expected : ℕ
  pub last_tree_adjust_time : ℕ
  pub prev_total_deadlocks_from_zones : ℤ
  pub prev_total_deadlocks_from_central : ℤ

-- The constructor, at some time.
abbrev pub no_samples : ℕ → PagState
no_samples now = record {
  aggregated_pag_edges = [];
  pag_responses_received = 0;
  pag_responses_expected = 0;
  last_tree_adjust_time = now;
  prev_total_deadlocks_from_zones = pos 0;
  prev_total_deadlocks_from_central = pos 0;
}

-- handlePAGRequest; an `at` that throws is `none`.
unfoldable pub handle_pag_request : TransactionManager → NodeId → Option NetworkMessage
unfolding collect_cross_node_wfd_edges
handle_pag_request tm requester = do
  edges ← collect_cross_node_wfd_edges tm
  some (record blank {
    type = pag_response;
    sender_id = tm.node_id;
    receiver_id = requester;
    pag_edges = edges;
  })

abbrev pub check_interval_ms : ℕ
check_interval_ms = 5000

-- `duration_cast<milliseconds>` of the time since the last complete round.
unfoldable pub millis_since : ℕ → ℕ → ℕ
millis_since last now = (now - last) / 1000000

-- The tests that set `shouldAdjustTree`, on the duration and on the deadlocks that are new.
unfoldable pub should_adjust_tree : ℕ → ℤ → ℤ → Bool
should_adjust_tree duration zones central =
    if leb check_interval_ms duration
    then if lt_ℤ (pos 0) zones then lt_ℤ zones central else lt_ℤ (pos 0) central
    else false

-- What is done where it is set.
unfoldable pub adjust_tree : ℕ → Network → NodeId → List WfdEdge → Option (List RpcCall)
unfolding generate_pag greedy_scc_cut broadcast_tree_adjustment
adjust_tree fuel net n edges = do
  (zones, leaders) ← greedy_scc_cut fuel (generate_pag edges) scc_cut_threshold
  some (broadcast_tree_adjustment net n zones leaders)

-- The counters of a complete round; `zones` and `central` are the two totals.
unfoldable pub close_samples : ℕ → ℤ → ℤ → PagState → PagState
close_samples now zones central s = record {
  aggregated_pag_edges = [];
  pag_responses_received = 0;
  pag_responses_expected = s.pag_responses_expected;
  last_tree_adjust_time = now;
  prev_total_deadlocks_from_zones = zones;
  prev_total_deadlocks_from_central = central;
}

-- The decision of a complete round.
unfoldable pub decides : ℕ → ℤ → ℤ → PagState → Bool
unfolding millis_since should_adjust_tree ◌-ℤ◌
decides now zones central s =
    should_adjust_tree (millis_since s.last_tree_adjust_time now)
      (zones -ℤ s.prev_total_deadlocks_from_zones) (central -ℤ s.prev_total_deadlocks_from_central)

unfoldable pub close_samples_if_complete :
    ℕ → ℕ → Network → NodeId → ℤ → ℤ → PagState → Option (PagState × List RpcCall)
unfolding close_samples decides adjust_tree
close_samples_if_complete fuel now net n zones central s =
    elim (leb s.pag_responses_expected s.pag_responses_received) [
      | false ↦ some (s, [])
      | true ↦ elim (decides now zones central s) [
        | false ↦ some (close_samples now zones central s, [])
        | true ↦ do
          calls ← adjust_tree fuel net n s.aggregated_pag_edges
          some (close_samples now zones central s, calls)
      ]
    ]

-- handlePAGResponse; `here` is isCentralizedNode_.
unfoldable pub handle_pag_response :
    ℕ
    → ℕ
    → Bool
    → Network
    → NodeId
    → ℤ
    → ℤ
    → PagState
    → List WfdEdge
    → Option (PagState × List RpcCall)
unfolding close_samples_if_complete
handle_pag_response fuel now here net n zones central s edges =
    if here
    then close_samples_if_complete fuel now net n zones central (record s {
      aggregated_pag_edges = s.aggregated_pag_edges ++ edges;
      pag_responses_received = s.pag_responses_received + 1;
    })
    else some (s, [])
