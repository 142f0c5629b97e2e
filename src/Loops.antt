-- ===== src/Loops.antt =====
-- DistributedDBNode.cpp: one turn of each of the loops that the threads of a node run, beside
-- messageProcessingLoop. The sleep at the start of a turn and the test on `systemRunning` are left out.
-- The durations and the random draws of a turn are inputs.
pub mod Bound
pub mod Tests
use hawk_txn.Common.{
  ℕ, zero, suc, ◌+◌, ◌-◌, Bool, true, false, Option, some, none, List, [], ◌∷◌, ◌++◌, ◌&&◌,
  if◌then◌else◌, ◌>>=◌, ltb, length,
}
use hawk_txn.Common.Int.{ℤ}
use hawk_txn.Types.{NodeId, TransactionId, ResourceId}
use hawk_txn.Message.{
  NetworkMessageType, NetworkMessage, blank, wfg_report, zone_wfg_report, pag_request,
}
use hawk_txn.Resource.{count_up}
use hawk_txn.Transaction.{
  TransactionManager, Outcome, begin_transaction, get_active_transactions,
  try_execute_next_sql_statement,
}
use hawk_txn.Zone.{is_zone_leader}
use hawk_txn.Network.Send.{RpcCall}
use hawk_txn.Collect.{initiate_path_pushing_probes}
use hawk_txn.Node.{Node, Handled, is_centralized_node, send_all, with_manager}

abbrev pub max_concurrent_transactions_per_node : ℕ
max_concurrent_transactions_per_node = 8

-- The loop of transactionPollingLoop that begins transactions, with a list of draws for each.
unfoldable pub begin_each :
    List (List (ResourceId × Bool)) → TransactionManager → TransactionManager
unfolding begin_transaction
begin_each [] tm = tm
begin_each (draws ∷ more) tm = begin_each more (begin_transaction draws tm).0

-- The test around it: the draws are those of the `num_to_start` transactions that it begins, the
-- first ones of the list.
abbrev pub take : ℕ → List (List (ResourceId × Bool)) → List (List (ResourceId × Bool))
take zero ds = []
take (suc n) [] = []
take (suc n) (d ∷ ds) = d ∷ take n ds

unfoldable pub top_up :
    Bool → List (List (ResourceId × Bool)) → TransactionManager → TransactionManager
unfolding begin_each
top_up tpcc draws tm =
    let active_txns = length (get_active_transactions tm) in
    if tpcc
    then tm
    else if ltb active_txns max_concurrent_transactions_per_node
    then begin_each (take (max_concurrent_transactions_per_node - active_txns) draws) tm
    else tm

-- Its loop over the active transactions, each with its duration.
unfoldable pub poll_each : List (TransactionId × ℤ) → Node → Handled
unfolding try_execute_next_sql_statement
poll_each [] s = some (s, [])
poll_each ((t, d) ∷ ts) s = do
  o ← try_execute_next_sql_statement d t s.transaction_manager
  (s', calls) ← with_manager s o.manager o.sent
  (s'', calls') ← poll_each ts s'
  some (s'', calls ++ calls')

abbrev pub with_duration : (TransactionId → ℤ) → List TransactionId → List (TransactionId × ℤ)
with_duration d [] = []
with_duration d (t ∷ ts) = (t, d t) ∷ with_duration d ts

-- transactionPollingLoop
unfoldable pub poll_transactions :
    Bool → List (List (ResourceId × Bool)) → (TransactionId → ℤ) → Node → Handled
unfolding top_up poll_each
poll_transactions tpcc draws d s =
    let tm = top_up tpcc draws s.transaction_manager in
    poll_each (with_duration d (get_active_transactions tm)) (record s { transaction_manager = tm })

-- The requests of a round, one to each node.
abbrev pub request : NetworkMessageType → NodeId → NodeId → NetworkMessage
request type sender receiver = record blank {
  type = type;
  sender_id = sender;
  receiver_id = receiver;
}

unfoldable pub requests : NetworkMessageType → NodeId → List NodeId → List NetworkMessage
requests type sender [] = []
requests type sender (n ∷ ns) = request type sender n ∷ requests type sender ns

-- centralizedDetectLoop
unfoldable pub start_centralized_round : Node → Node × List RpcCall
unfolding count_up requests send_all
start_centralized_round s =
    if is_centralized_node s
    then (
      record s {
        collector = record {
          aggregated_wfg = [];
          wfg_reports_received = 0;
          wfg_reports_expected = s.num_nodes;
        };
      },
      send_all s.network (requests wfg_report s.node_id (count_up s.num_nodes 1)),
    )
    else (s, [])

-- distributedDetectCoordinatorLoop
unfoldable pub start_zone_round : Node → Node × List RpcCall
unfolding requests send_all
start_zone_round s =
    let members = s.detection_zone_manager.my_detection_zone_members in
    if is_zone_leader s.detection_zone_manager
    then (
      record s {
        collector = record {
          aggregated_wfg = [];
          wfg_reports_received = 0;
          wfg_reports_expected = length members;
        };
      },
      send_all s.network (requests zone_wfg_report s.node_id members),
    )
    else (s, [])

-- pagSamplingLoop
unfoldable pub start_sampling : Bool → Node → Node × List RpcCall
unfolding count_up requests send_all
start_sampling hawk s =
    if hawk && is_centralized_node s
    then (
      record s {
        pag_state = record s.pag_state {
          aggregated_pag_edges = [];
          pag_responses_received = 0;
          pag_responses_expected = s.num_nodes;
        };
      },
      send_all s.network (requests pag_request s.node_id (count_up s.num_nodes 1)),
    )
    else (s, [])

-- pathPushingDetectionLoop: the probes go into the node's own queue.
unfoldable pub push_probes : Node → Node
unfolding initiate_path_pushing_probes
push_probes s = record s {
  network = record s.network {
    incoming_queue = s.network.incoming_queue ++ initiate_path_pushing_probes s.transaction_manager;
  };
}
