-- ===== src/Loops/Tests.antt =====
-- A turn of transactionPollingLoop of DistributedDBNode.cpp.
use hawk_txn.Common.{◌≡◌, refl, Bool, true, false, List, [], ◌∷◌, if◌then◌else◌, ltb, length, arith}
use hawk_txn.Types.{ResourceId}
use hawk_txn.Resource
use hawk_txn.Transaction
use hawk_txn.Transaction.{TransactionManager, get_active_transactions}
use hawk_txn.Loops.{max_concurrent_transactions_per_node, top_up}
use hawk_txn.Loops.Bound.{IsFresh, top_up_lem}

abbrev draws : List (List (ResourceId × Bool))
draws = [] ∷ [] ∷ [] ∷ [] ∷ [] ∷ [] ∷ [] ∷ ((5, true) ∷ []) ∷ []

abbrev idle : TransactionManager
idle = Transaction.init 1 (Resource.init 1)

idle-IsFresh : IsFresh idle
unfolding Transaction.init
idle-IsFresh t le = refl

top_up_lem_example : length (get_active_transactions (top_up false draws idle)) ≡ (
    if ltb (length (get_active_transactions idle)) max_concurrent_transactions_per_node
    then max_concurrent_transactions_per_node
    else length (get_active_transactions idle))
top_up_lem_example = top_up_lem draws idle idle-IsFresh (omega arith)
