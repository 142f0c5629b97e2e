-- ===== src/Types.antt =====
-- commons.h: the identifiers, the constants of the placement of resources, and the
-- shared types. Identifiers are `int`s that the program only counts up from 1, with 0 for none.
use hawk_txn.Common.{ℕ, ◌+◌, ◌-◌, ◌*◌, ◌/◌, List}

abbrev pub NodeId : Type 0
NodeId = ℕ

abbrev pub TransactionId : Type 0
TransactionId = ℕ

abbrev pub ResourceId : Type 0
ResourceId = ℕ

abbrev pub num_nodes : ℕ
num_nodes = 128

abbrev pub resources_per_node : ℕ
resources_per_node = 1000

abbrev pub total_resources : ℕ
total_resources = num_nodes * resources_per_node

abbrev pub centralized_node_id : NodeId
centralized_node_id = 1

abbrev pub scc_cut_threshold : ℕ
scc_cut_threshold = 2

pub data LockMode : Type 0 where
  shared exclusive : LockMode

pub record SqlStatement : Type 0 where
  pub trans_id : TransactionId
  pub home_node_id : NodeId
  pub resources : List ResourceId
  pub lock_mode : LockMode

-- An edge of the wait-for graph or of the predicted access graph.
pub record WfdEdge : Type 0 where
  pub waiting_trans_id : TransactionId
  pub holding_trans_id : TransactionId
  pub waiting_node_id : NodeId
  pub holding_node_id : NodeId

-- At 0 the `int` quotient -1 / 1000 is 0 too, as the truncated difference gives.
unfoldable pub get_owner_node_id : ResourceId → NodeId
get_owner_node_id res_id = (res_id - 1) / resources_per_node + 1
