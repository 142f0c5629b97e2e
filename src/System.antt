-- ===== src/System.antt =====
-- Nodes that exchange messages: main.cpp starts one DistributedDBNode for each id, each with a new
-- Network, which has no server and no connection. A step is one turn of a thread of one node, or a part
-- of one; the RPCs that it makes arrive at once at the end of the queues of those called, if they have a
-- server. Any order of steps is a run. main.cpp calls neither Network::init nor connectToPeers: its own
-- runs have none of the two steps for them, and with these steps at any time the runs are also those of
-- a program that does call them.
pub mod Sends
pub mod Calm
pub mod Steps
pub mod Rounds
pub mod Run
pub mod Tests
use hawk_txn.Common.{
  ℕ, zero, suc, ◌+◌, Bool, true, false, Option, some, none, List, [], ◌∷◌, ◌++◌, ◌==◌,
  if◌then◌else◌, ◌>>=◌,
}
use hawk_txn.Common.Int.{ℤ}
use hawk_txn.Types.{NodeId, TransactionId, ResourceId, centralized_node_id}
use hawk_txn.Transaction.{
  begin_transaction, add_tpcc_transaction, get_next_transaction_id, new_transaction,
  try_execute_next_sql_statement,
}
use hawk_txn.Network.Send
use hawk_txn.Network.Send.{
  Network, RpcCall, init_server, connect_to_peers, connect_to_server, handle_rpc,
  send_collect_command, send_print_command, send_abort_command,
}
use hawk_txn.Node
use hawk_txn.Node.{Node, Setting, Handled, process_message, with_manager}
use hawk_txn.Loops.{start_centralized_round, start_zone_round, start_sampling, push_probes}

abbrev pub System : Type 0
System = NodeId → Node

abbrev pub put : NodeId → Node → System → System
put n s sys k = if k == n then s else sys k

-- An RPC runs at the node that it calls, and fails where there is no server.
unfoldable pub receive : RpcCall → System → System
unfolding handle_rpc
receive c sys =
    let receiver = sys c.target in
    if receiver.network.server
    then put c.target (record receiver { network = handle_rpc c.message receiver.network }) sys
    else sys

unfoldable pub deliver : List RpcCall → System → System
unfolding receive
deliver [] sys = sys
deliver (c ∷ cs) sys = deliver cs (receive c sys)

-- The nodes as the server mode of main.cpp starts them, `num_nodes` of them.
unfoldable pub start_nodes : ℕ → System
unfolding Node.init Send.init
start_nodes num_nodes n = Node.init n num_nodes (Send.init n num_nodes false) 0

-- What the client mode of main.cpp does on the network.
pub data Command : Type 0 where
  -- at the start
  connect : Command
  collect : Command
  print : Command
  abort : TransactionId → Command

-- The client of main.cpp, connected to a server.
unfoldable pub client : NodeId → ℕ → Network
unfolding connect_to_server Send.init
client server num_nodes = (connect_to_server (Send.init 0 num_nodes true) server).0

-- The RPCs of a command.
unfoldable pub run_command : NodeId → ℕ → Command → List RpcCall
unfolding client connect_to_server Send.init send_collect_command send_print_command
    send_abort_command
run_command server num_nodes connect = (connect_to_server (Send.init 0 num_nodes true) server).1
run_command server num_nodes collect =
    send_collect_command (client server num_nodes) centralized_node_id
run_command server num_nodes print = send_print_command (client server num_nodes)
run_command server num_nodes (abort victim) = send_abort_command (client server num_nodes) victim

pub data Event : Type 0 where
  -- transactionPollingLoop begins a transaction
  begins : NodeId → List (ResourceId × Bool) → Event
  -- tpccWorkloadLoop adds one, which has no statements
  begins_tpcc : NodeId → Event
  -- transactionPollingLoop tries a transaction
  polls : NodeId → ℤ → TransactionId → Event
  -- messageProcessingLoop handles the front of the queue
  processes : NodeId → Setting → Event
  -- the turns of the loops of the detection
  collects : NodeId → Event
  collects_zone : NodeId → Event
  samples : NodeId → Bool → Event
  probes : NodeId → Event
  -- a client of a server carries out a command
  commands : NodeId → Command → Event
  -- Network::init and connectToPeers
  listens : NodeId → Event
  connects : NodeId → Event

-- What a turn at a node leaves there, and the RPCs, delivered.
abbrev pub settle : NodeId → System → Handled → Option System
settle n sys r = do (s, calls) ← r; some (deliver calls (put n s sys))

-- A turn at node `n`.
unfoldable pub turn : Node → Event → Handled
unfolding begin_transaction add_tpcc_transaction get_next_transaction_id
    try_execute_next_sql_statement process_message start_centralized_round start_zone_round
    start_sampling push_probes run_command init_server connect_to_peers
turn s (begins n draws) = with_manager s (begin_transaction draws s.transaction_manager).0 []
turn s (begins_tpcc n) =
    let (tm, t) = get_next_transaction_id s.transaction_manager in
    with_manager s (add_tpcc_transaction (new_transaction t tm.node_id []) tm) []
turn s (polls n d t) = do
  o ← try_execute_next_sql_statement d t s.transaction_manager
  with_manager s o.manager o.sent
turn s (processes n k) = process_message k s s.network.incoming_queue
turn s (collects n) = some (start_centralized_round s)
turn s (collects_zone n) = some (start_zone_round s)
turn s (samples n hawk) = some (start_sampling hawk s)
turn s (probes n) = some (push_probes s, [])
turn s (commands n c) = some (s, run_command n s.num_nodes c)
turn s (listens n) = some (record s { network = init_server s.network }, [])
turn s (connects n) = some (record s { network = connect_to_peers s.network }, [])

abbrev pub place : Event → NodeId
place (begins n draws) = n
place (begins_tpcc n) = n
place (polls n d t) = n
place (processes n k) = n
place (collects n) = n
place (collects_zone n) = n
place (samples n hawk) = n
place (probes n) = n
place (commands n c) = n
place (listens n) = n
place (connects n) = n

unfoldable pub step : System → Event → Option System
unfolding turn
step sys e = settle (place e) sys (turn (sys (place e)) e)

unfoldable pub run : System → List Event → Option System
unfolding step
run sys [] = some sys
run sys (e ∷ es) = do sys' ← step sys e; run sys' es
