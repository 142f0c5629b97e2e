-- ===== src/Resolve.antt =====
-- DistributedDBNode.cpp: how a node merges the wait-for graphs that others report, searches them and
-- has the victims aborted. A message in a result is a call of Network::sendMessage, in order. An
-- `at` on a missing key, the first of no candidates, and a search without enough fuel are `none`.
pub mod Victim
pub mod Merge
pub mod Abort
pub mod Probe
pub mod Tests
use hawk_txn.Common.{
  ℕ, zero, suc, Bool, true, false, ◌&&◌, Option, some, none, List, [], ◌∷◌, ◌++◌, ◌==◌,
  if◌then◌else◌, ◌>>=◌, elem, is_empty, head?, length,
}
use hawk_txn.Common.Int.{pos}
use hawk_txn.Map
use hawk_txn.Map.{Map}
use hawk_txn.Types.{NodeId, TransactionId}
use hawk_txn.Message.{NetworkMessage, blank, abort_transaction_signal, deadlock_report_to_client}
use hawk_txn.Transaction.{TransactionManager, get_active_transactions, get_transaction_home_node}
use hawk_txn.Detector.{Wfg, find_cycles, compare_transaction_priority}

-- The loop of selectVictim.
unfoldable pub candidates_of : Map ℕ → List TransactionId → Option (List (TransactionId × ℕ))
candidates_of freq [] = some []
candidates_of freq (t ∷ ts) = do
  n ← Map.find? t freq
  rest ← candidates_of freq ts
  some ((t, n) ∷ rest)

-- `std::sort` by compareTransactionPriority.
unfoldable pub insert_candidate :
    TransactionId × ℕ → List (TransactionId × ℕ) → List (TransactionId × ℕ)
unfolding compare_transaction_priority
insert_candidate c [] = c ∷ []
insert_candidate c (d ∷ ds) =
    if compare_transaction_priority d c then d ∷ insert_candidate c ds else c ∷ d ∷ ds

unfoldable pub sort_candidates : List (TransactionId × ℕ) → List (TransactionId × ℕ)
unfolding insert_candidate
sort_candidates [] = []
sort_candidates (c ∷ cs) = insert_candidate c (sort_candidates cs)

-- selectVictim
unfoldable pub select_victim : List TransactionId → Map ℕ → Option TransactionId
unfolding candidates_of sort_candidates
select_victim cycle freq = do
  cs ← candidates_of freq cycle
  c ← head? (sort_candidates cs)
  some c.0

-- convertWFGToMessageFormat
unfoldable pub convert_wfg_to_message_format : Wfg → List (TransactionId × List TransactionId)
convert_wfg_to_message_format [] = []
convert_wfg_to_message_format ((k, vs) ∷ g) = (k, vs) ∷ convert_wfg_to_message_format g

-- The inner loop of mergeWFG.
unfoldable pub merge_targets : TransactionId → List TransactionId → Wfg → Wfg
merge_targets k [] target = target
merge_targets k (v ∷ vs) target = merge_targets k vs (Map.push_back k v target)

-- mergeWFG
unfoldable pub merge_wfg : Wfg → List (TransactionId × List TransactionId) → Wfg
unfolding merge_targets
merge_wfg target [] = target
merge_wfg target ((k, vs) ∷ source) = merge_wfg (merge_targets k vs target) source

-- The first loop of checkAndResolveDeadlocks: the part of the graph between active transactions.
unfoldable pub prune_targets : List TransactionId → TransactionId → List TransactionId → Wfg → Wfg
prune_targets active k [] g = g
prune_targets active k (v ∷ vs) g =
    prune_targets active k vs (if elem v active then Map.push_back k v g else g)

unfoldable pub prune_graph : List TransactionId → Wfg → Wfg → Wfg
unfolding prune_targets
prune_graph active [] g = g
prune_graph active ((k, vs) ∷ graph) g =
    prune_graph active graph (if elem k active then prune_targets active k vs g else g)

abbrev pub abort_message : NodeId → NodeId → TransactionId → NetworkMessage
abort_message sender home victim = record blank {
  type = abort_transaction_signal;
  sender_id = sender;
  receiver_id = home;
  deadlocked_transactions = victim ∷ [];
}

-- One cycle: its victim is aborted at its home, if this node knows that.
unfoldable pub abort_victim : TransactionManager → TransactionId → List NetworkMessage
abort_victim tm victim =
    if get_transaction_home_node tm victim == 0
    then []
    else abort_message tm.node_id (get_transaction_home_node tm victim) victim ∷ []

unfoldable pub resolve_cycles :
    TransactionManager → Map ℕ → List (List TransactionId) → Option (List NetworkMessage)
unfolding select_victim abort_victim
resolve_cycles tm freq [] = some []
resolve_cycles tm freq (cycle ∷ cycles) = do
  victim ← select_victim cycle freq
  rest ← resolve_cycles tm freq cycles
  some (abort_victim tm victim ++ rest)

-- The report at the end, on the central node.
abbrev pub report_message : NodeId → List (List TransactionId) → NetworkMessage
report_message sender cycles = record blank {
  type = deadlock_report_to_client;
  sender_id = sender;
  receiver_id = 0;
  detected_cycles = cycles;
  deadlock_count = pos (length cycles);
}

-- checkAndResolveDeadlocks
unfoldable pub check_and_resolve_deadlocks :
    ℕ → ℕ → Bool → TransactionManager → Wfg → Option (List NetworkMessage)
unfolding prune_graph resolve_cycles find_cycles
check_and_resolve_deadlocks w fuel central tm graph =
    let pruned = prune_graph (get_active_transactions tm) graph [] in
    elim (is_empty pruned) [
      | true ↦ some []
      | false ↦ do
        (cycles, freq) ← find_cycles w fuel pruned
        aborts ← resolve_cycles tm freq cycles
        some (aborts ++ (if central then report_message tm.node_id cycles ∷ [] else []))
    ]
