-- ===== src/Client.antt =====
-- DistributedDBNode.cpp: the requests of a client to the central node. handleClientCollectWFGRequest
-- has an empty body but for an empty loop.
use hawk_txn.Common.{Bool, List, [], ◌∷◌, ◌++◌, if◌then◌else◌}
use hawk_txn.Common.Int.{pos}
use hawk_txn.Types.{NodeId, TransactionId}
use hawk_txn.Message.{NetworkMessage, blank, deadlock_report_to_client}
use hawk_txn.Transaction.{TransactionManager}
use hawk_txn.Resolve.{abort_victim}
use hawk_txn.Central.{CentralState, central_report}

-- handleClientPrintDeadlockRequest
unfoldable pub handle_client_print_deadlock_request :
    Bool → NodeId → CentralState → NodeId → List NetworkMessage
handle_client_print_deadlock_request central n s client =
    if central
    then central_report n client s.central_detected_cycles s.central_deadlock_count ∷ []
    else []

abbrev pub confirmation_message : NodeId → NodeId → NetworkMessage
confirmation_message sender client = record blank {
  type = deadlock_report_to_client;
  sender_id = sender;
  receiver_id = client;
  deadlock_count = pos 0;
}

-- handleClientResolveDeadlockRequest
unfoldable pub handle_client_resolve_deadlock_request :
    Bool → TransactionManager → TransactionId → NodeId → List NetworkMessage
unfolding abort_victim
handle_client_resolve_deadlock_request central tm victim client =
    if central then abort_victim tm victim ++ confirmation_message tm.node_id client ∷ [] else []
