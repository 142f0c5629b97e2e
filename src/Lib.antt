-- ===== src/Lib.antt =====
-- HAWK: distributed deadlock detection over a sharded lock service, in C++.
--
-- The nodes of the system each own 1000 resources. A node has a ResourceManager with the locks on
-- its resources and the queues of those who wait, a TransactionManager with the transactions begun
-- there, a LockTable that reads a wait-for graph off the two, a DeadlockDetector that searches such
-- graphs for cycles, and a Network by which the nodes exchange messages. In the mode named HAWK the
-- central node also has a PAGManager, which cuts a graph of nodes into detection zones, and every
-- node a DetectionZoneManager, which remembers the zone that it is in.
--
-- Where each part of the code is:
--   Types      commons.h: identifiers, lock modes, statements, edges, the owner of a resource
--   Random     RandomGenerators.cpp: engines and draws; Outcomes has what chains of draws give
--   Message    commons.h: NetworkMessage and its types
--   Map        std::unordered_map with integer keys
--   Resource   ResourceManager.cpp: acquire_lock is acquireLock, release_all_locks is
--              releaseAllLocks, and so on; Grant, Release and Waiting say what each does, Exclusion
--              has the invariant, and Reach the sequences of calls
--   Transaction  Transaction.h and TransactionManager.cpp: try_execute_next_sql_statement is
--              tryExecuteNextSQLStatement; Tried has the ways through it, Locks and Answers the
--              invariant that ties both records of locks together, Reach the sequences of calls,
--              Begun, Serve, Progress, Life and Ids what a transaction goes
--              through
--   LockTable  LockTable.cpp: Edges and Waits are about the wait-for graphs, Cross about the edges
--              between nodes
--   Detector   DeadlockDetector.cpp: find_cycles is findCycles; Graph has walks and cycles without
--              the search, Sound and Complete what the answer means, Total and Diverge when there
--              is one
--   Pag        PAGManager.cpp: generate_pag and greedy_scc_cut
--   Zone       DetectionZoneManager.cpp
--   Resolve    DistributedDBNode.cpp: merge_wfg is mergeWFG, select_victim is selectVictim, and
--              check_and_resolve_deadlocks and handle_path_pushing_probe are those methods; Victim,
--              Merge, Abort and Probe are about one of them each
--   Collect    DistributedDBNode.cpp: handle_wfg_report is handleWFGReport, handle_zone_wfg_report
--              is handleZoneWFGReport; Round is about a round of reports
--   Central    DistributedDBNode.cpp: handle_central_wfg_report_from_zone is
--              handleCentralWFGReportFromZone; Round is about a round of zone reports
--   Adjust     DistributedDBNode.cpp: handlePAGRequest and handlePAGResponse; Decide is about when
--              the zones are cut anew
--   Client     DistributedDBNode.cpp: handleClientPrintDeadlockRequest and
--              handleClientResolveDeadlockRequest
--   Node       DistributedDBNode.h: the members of a node; dispatch is the switch of
--              messageProcessingLoop, process_message one turn of that loop
--   Loops      DistributedDBNode.cpp: one turn of transactionPollingLoop, centralizedDetectLoop,
--              distributedDetectCoordinatorLoop, pagSamplingLoop and pathPushingDetectionLoop
--   System     the nodes that main.cpp starts, the delivery of their calls, and any interleaving of
--              the turns of their loops
--   Tpcc       tpcc.h, tpcc_transaction.h and tpcc_transaction.cpp: Rows has the tables, Placement
--              getTPCCResourceId, Execute, Updates and Reads the five transactions; Ranges, Refused
--              and Choices what they do. tpcc_data_generator.h and tpcc_data_generator.cpp: Draws and
--              Texts have the random values, Generate the tables, Drawn and the children of
--              Generate what they can be. DistributedDBNode.cpp: Workload is tpccWorkloadLoop
--   SafeQueue  SafeQueue.h; Fifo has the runs of calls
--   Network    protos/network.proto and Network.cpp: the conversions, and in Send what is sent
--
-- How the code is modelled. Every method is a function from the state of its object, which also
-- stands for the locked region of its mutex, so that the order of calls is a list of calls. A map
-- is a list of its entries in the order of iteration, which the theorems leave open; where a
-- theorem needs that no key stands twice, it says so. Identifiers are natural numbers: the program
-- counts them up from 1 and uses 0 for none. The counters that can fall below 0 are integers. No
-- identifier comes near the limit of an int in the runs that the program makes, and overflow is not
-- modelled; for the largest ids, those of TPC-C rows, Ranges has the bound. A double is a value of
-- a type that is a parameter, with the operations that the code applies. What has no defined
-- behaviour in C++ (a read past the end of a vector, the top of an empty stack) and what throws is
-- none.
--
-- Fuel. The recursion of DeadlockDetector::dfs and its walk along the parents take fuel, none being
-- fuel that ran out. `effort` is enough for both where Total has a theorem, and Diverge has graphs
-- for which no fuel is. PAGManager::findSCCsDFS needs 1. The loop of generateRandomWarehouseId
-- needs as many as the draws until one is out of the range, and Drawn has the theorem. All other
-- loops are by recursion on a list.
--
-- A system. Every id has a node, started as main.cpp starts it: with a Network that has no server
-- and no connection. A step is a turn at one node: it handles the front of its queue, begins or
-- tries a transaction, runs a turn of a loop of the detection, gets a command of a client, or has
-- Network::init or connectToPeers called. The program calls neither of the two: its own runs have
-- no such step, and the other runs are those of a program that does call them, at any time. The
-- calls that a step makes are put at the end of the queues of the nodes called at once, where these
-- have a server. A run is a list of steps in any order, which covers what the threads of the
-- processes do, since the parts of a node are used under their mutexes; calls that are lost on the
-- way or overtake one another are not covered.
--
-- Not modelled: the threads, timers and the end of the run (systemRunning); the lines that the
-- client of main.cpp reads and prints, though a System has what its commands send; the
-- distributions of the standard library beyond the range of what they give; the gRPC server beyond
-- its being there, and all printing. A field that the source leaves unset has the value 0 or the
-- empty one. A call of notifyTransactionToRetryAcquire, which the program declares and does not
-- define, is a notification in the result of the call that makes it, and has no further effect.
mod Common
pub mod Map
pub mod Types
pub mod Random
pub mod Resource
pub mod Detector
pub mod Pag
pub mod Zone
pub mod Message
pub mod Transaction
pub mod LockTable
pub mod Network
pub mod Resolve
pub mod Collect
pub mod Central
pub mod Adjust
pub mod Client
pub mod Node
pub mod Loops
pub mod System
pub mod Tpcc
pub mod SafeQueue
