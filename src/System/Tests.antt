-- ===== src/System/Tests.antt =====
-- A run of two nodes (DistributedDBNode.cpp).
use hawk_txn.Common.{ℕ, ◌≡◌, refl, true, false, some, List, [], ◌∷◌, All}
use hawk_txn.Common.Int.{pos}
use hawk_txn.Map
use hawk_txn.Types.{NodeId, TransactionId, ResourceId, SqlStatement, exclusive, get_owner_node_id}
use hawk_txn.Message.{NetworkMessage}
use hawk_txn.Resource
use hawk_txn.Resource.{acquire_lock, count_up}
use hawk_txn.Transaction
use hawk_txn.Transaction.{
  Transaction, blocked, get_transaction, get_transaction_locks, new_transaction, begin_transaction,
  get_next_transaction_id, generate_random_sql_statements, try_execute_next_sql_statement,
  request_local, request_remote, get_transaction_home_node,
}
use hawk_txn.Resolve.{abort_victim}
use hawk_txn.Client.{handle_client_print_deadlock_request, handle_client_resolve_deadlock_request}
use hawk_txn.Zone
use hawk_txn.Collect.{initiate_path_pushing_probes, probes_for}
use hawk_txn.Network.{convert_to_proto_message, convert_from_proto_message, body_of, read_body}
use hawk_txn.Network.Send
use hawk_txn.Network.Send.{
  init_server, connect_to_server, connect_from, connect_to_peers, handle_rpc, send_abort_command,
  send_message, peer_rpc, client_rpc, call_if,
}
use hawk_txn.Node
use hawk_txn.Node.{send_all, process_message, dispatch}
use hawk_txn.Loops.{push_probes}
use hawk_txn.System.{
  System, start_nodes, Event, listens, connects, run_command, connect, abort, client, receive,
  begins, polls, probes, processes, commands, turn, step, run, deliver,
}
use hawk_txn.System.Sends.{arrives}
use hawk_txn.System.Run.{only_requests_arrive, no_conflicts_anywhere, blocked_forever}

-- Two nodes that have been connected. At node 1 transaction 1 locks resource 5, 2 waits for it, and 3 asks node 2 for resource 1500.
abbrev events : List Event
events =
    listens 1
    ∷ listens 2
    ∷ connects 1
    ∷ connects 2
    ∷ begins 1 ((5, true) ∷ [])
    ∷ begins 1 ((5, true) ∷ [])
    ∷ begins 1 ((1500, true) ∷ [])
    ∷ polls 1 (pos 0) 1
    ∷ polls 1 (pos 0) 2
    ∷ polls 1 (pos 0) 3
    ∷ []

reached : (sys : System) × (run (start_nodes 2) events ≡ some sys)
unfolding run step turn start_nodes deliver Node.init Transaction.init Resource.init Zone.init
    Send.init init_server connect_to_peers connect_from receive begin_transaction
    get_next_transaction_id generate_random_sql_statements try_execute_next_sql_statement
    request_local request_remote acquire_lock get_owner_node_id Map.assign send_all send_message
    peer_rpc call_if convert_to_proto_message body_of handle_rpc
reached = (_, refl)

abbrev write : TransactionId → ResourceId → SqlStatement
write t r = record { trans_id = t; home_node_id = 1; resources = r ∷ []; lock_mode = exclusive }

abbrev waiting : Transaction
waiting = record (new_transaction 2 1 (write 2 5 ∷ [])) {
  status = blocked;
  waiting_for_resource_id = 5;
}

waits : get_transaction (reached.0 1).transaction_manager 2 ≡ some waiting
unfolding reached
waits = refl

owned : get_owner_node_id 5 ≡ 1
unfolding get_owner_node_id
owned = refl

locked : Map.find? 5 (get_transaction_locks (reached.0 1).transaction_manager 1) ≡ some exclusive
unfolding reached get_transaction_locks
locked = refl

no_conflicts_anywhere_example : ◌≡◌ {A = ℕ} 1 1
no_conflicts_anywhere_example =
    no_conflicts_anywhere 2 events reached.0 1 1 1 5 exclusive reached.1 owned locked locked

only_requests_arrive_example :
    (sys : System) × (run (start_nodes 2) events ≡ some sys)
    × ((n : NodeId)
        → All (λ m. arrives n m.type ≡ true) (sys n).network.incoming_queue
          × ((sys n).detection_zone_manager ≡ Zone.init n))
only_requests_arrive_example = only_requests_arrive 2 events

-- The request of transaction 3 has arrived at node 2.
request_arrived :
    (m : NetworkMessage) × ((reached.0 2).network.incoming_queue ≡ m ∷ []) × (m.res_id ≡ 1500)
unfolding reached deliver receive handle_rpc convert_from_proto_message read_body
request_arrived = (_, refl, refl)

-- A client has node 1 abort the holder, and the probes of node 1 are pushed.
abbrev later : List Event
later =
    commands 1 connect
    ∷ commands 1 (abort 1)
    ∷ processes 1 (record { walk_fuel = 9; fuel = 9; hawk = false; now = 0; duration = pos 0 })
    ∷ processes 1 (record { walk_fuel = 9; fuel = 9; hawk = false; now = 0; duration = pos 0 })
    ∷ probes 1
    ∷ polls 1 (pos 0) 2
    ∷ []

continued : (sys : System) × (run reached.0 later ≡ some sys)
unfolding reached run step turn deliver run_command client connect_to_server
    handle_client_print_deadlock_request send_abort_command send_message client_rpc call_if
    Send.init convert_to_proto_message body_of receive handle_rpc convert_from_proto_message
    read_body process_message dispatch handle_client_resolve_deadlock_request abort_victim
    get_transaction_home_node send_all push_probes initiate_path_pushing_probes probes_for
    try_execute_next_sql_statement
continued = (_, refl)

blocked_forever_example : get_transaction (continued.0 1).transaction_manager 2 ≡ some waiting
blocked_forever_example =
    blocked_forever 2 events later reached.0 continued.0 1 2 waiting reached.1 waits refl
      continued.1
