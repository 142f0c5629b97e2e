-- ===== src/System/Steps.antt =====
-- One turn of a thread of one node: the node keeps the invariant of Calm, its calls bring the others only
-- messages that change nothing, and a blocked transaction stays as it is.
use hawk_txn.Common.{
  ℕ, zero, suc, ◌==◌, ◌++◌, false, Bool-cases, inl, arith, ==_refl, ◌+◌, ◌≡◌, refl, true, some,
  List, [], ◌∷◌, inr, elem, All, All-mono, ap, ◌∙◌, sym, subst, some_inj, ◌>>=◌, >>=-eq-some,
}
use hawk_txn.Common.Int.{ℤ}
use hawk_txn.Types.{NodeId, TransactionId, SqlStatement}
use hawk_txn.Message.{NetworkMessage}
use hawk_txn.Transaction.{
  Transaction, TransactionManager, is_blocked, store, new_transaction,
  try_execute_next_sql_statement,
}
use hawk_txn.Transaction.Answers.{begin-Agreement, try-Agreement}
use hawk_txn.Transaction.Locks.{Agreement}
use hawk_txn.Transaction.Reach.{try-node}
use hawk_txn.Transaction.Life.{Stays, try-Stays, begin-Stays}
use hawk_txn.LockTable.Home.{Every, Names, store-Every, try-Every}
use hawk_txn.Network.Send.{Network, RpcCall, connect_from, connect_to_peers, init_server}
use hawk_txn.Network.Send.Delivery.{connect_from_lem}
use hawk_txn.Node.{Node, Setting, process_message, with_manager, send_all}
use hawk_txn.System.Sends.{arrives, Harmless, Sendable, send_all-Harmless}
use hawk_txn.System.Calm.{Calm, Begun, dispatch-idle, dispatch-returns}

-- What a turn at node `n` keeps: the invariant, harmless calls, and any transaction that is blocked.
pub record Kept (n : NodeId) (s s' : Node) (calls : List RpcCall) : Type 0 where
  pub calm : Calm n s'
  pub harmless : All Harmless calls
  pub stays :
      (t : TransactionId) (trans : Transaction)
      → is_blocked trans.status ≡ true
      → Stays t trans s.transaction_manager
      → Stays t trans s'.transaction_manager

-- The same, of the result of a turn.
abbrev pub KeptBy : NodeId → Node → Node × List RpcCall → Type 0
KeptBy n s r = Kept n s r.0 r.1

module _ (n : NodeId) (s : Node) (calm : Calm n s) where
  -- A turn that changes only the transaction manager.
  pub with_manager-Kept :
      (tm : TransactionManager) (ms : List NetworkMessage)
      → tm.node_id ≡ n
      → Agreement tm
      → Every (Begun n) tm
      → All (Sendable s.network) ms
      → ((t : TransactionId) (trans : Transaction)
          → is_blocked trans.status ≡ true
          → Stays t trans s.transaction_manager
          → Stays t trans tm)
      → KeptBy n s (record s { transaction_manager = tm }, send_all s.network ms)
  with_manager-Kept tm ms id agreement begun ok stays = record {
    calm = record {
      id = calm.id;
      manager = id;
      agreement = agreement;
      begun = begun;
      zone = calm.zone;
      server = calm.server;
      named = calm.named;
      apart = calm.apart;
      queue = calm.queue;
    };
    harmless = send_all-Harmless s.network ms calm.server ok;
    stays = stays;
  }

  pub begin-Kept :
      (statements : List SqlStatement)
      → Names statements
      → (let tm = s.transaction_manager in
          let t = tm.next_transaction_id in
          KeptBy n s (
            record s {
              transaction_manager =
                  store t
                    (new_transaction t tm.node_id statements)
                    (record tm { next_transaction_id = t + 1 });
            },
            [],
          ))
  unfolding send_all
  begin-Kept statements names =
      let tm = s.transaction_manager in
      let t = tm.next_transaction_id in
      let trans = new_transaction t tm.node_id statements in
      with_manager-Kept (store t trans (record tm { next_transaction_id = t + 1 })) [] calm.manager
        (begin-Agreement statements tm calm.agreement)
        (store-Every (Begun n) t trans (record tm { next_transaction_id = t + 1 }) calm.begun
          (calm.manager, names))
        tt (λ u old b kept. begin-Stays u old trans tm kept)

  pub poll-Kept :
      (d : ℤ) (t : TransactionId) (r : Node × List RpcCall)
      → (try_execute_next_sql_statement d t s.transaction_manager
          >>= (λ o. with_manager s o.manager o.sent))
        ≡ some r
      → KeptBy n s r
  poll-Kept d t r h =
      let (o, ran, e) =
        >>=-eq-some (try_execute_next_sql_statement d t s.transaction_manager) _ h in
      let (begun, sent) = try-Every (Begun n) d t s.transaction_manager o calm.begun ran in
      subst (KeptBy n s) (some_inj e) (
        with_manager-Kept o.manager o.sent (try-node d t s.transaction_manager o ran ∙ calm.manager)
          (try-Agreement d t s.transaction_manager o calm.agreement ran) begun
          (All-mono _ _ o.sent (λ m is_request. inr (ap (arrives m.receiver_id) is_request)) sent)
          (λ u trans b kept. try-Stays d u t trans s.transaction_manager o b kept ran))

  -- A turn that changes neither the transactions nor the zone nor the network.
  pub unchanged :
      (s' : Node) (calls : List RpcCall)
      → s'.node_id ≡ s.node_id
      → s'.transaction_manager ≡ s.transaction_manager
      → s'.detection_zone_manager ≡ s.detection_zone_manager
      → s'.network ≡ s.network
      → All Harmless calls
      → Kept n s s' calls
  unchanged s' calls id manager zone network ok = record {
    calm = record {
      id = id ∙ calm.id;
      manager = ap (λ x. x.node_id) manager ∙ calm.manager;
      agreement = subst Agreement (sym manager) calm.agreement;
      begun = subst (Every (Begun n)) (sym manager) calm.begun;
      zone = zone ∙ calm.zone;
      server = ap (λ x. x.is_client) network ∙ calm.server;
      named = ap (λ x. x.node_id) network ∙ calm.named;
      apart = ap (λ x. elem n x.peer_stubs) network ∙ calm.apart;
      queue =
          subst (λ x. All (λ m. arrives n m.type ≡ true) x.incoming_queue) (sym network) calm.queue;
    };
    harmless = ok;
    stays = λ t trans b kept. subst (Stays t trans) (sym manager) kept;
  }

-- The queue without its front.
taken :
    (n : NodeId) (s : Node) (rest : List NetworkMessage)
    → Calm n s
    → All (λ m. arrives n m.type ≡ true) rest
    → Calm n (record s { network = record s.network { incoming_queue = rest } })
taken n s rest calm ok = record {
  id = calm.id;
  manager = calm.manager;
  agreement = calm.agreement;
  begun = calm.begun;
  zone = calm.zone;
  server = calm.server;
  named = calm.named;
  apart = calm.apart;
  queue = ok;
}

pub process-Kept :
    (n : NodeId) (s : Node) (k : Setting) (queue : List NetworkMessage) (r : Node × List RpcCall)
    → Calm n s
    → All (λ m. arrives n m.type ≡ true) queue
    → process_message k s queue ≡ some r
    → KeptBy n s r
unfolding process_message
process-Kept n s k [] r calm ok h =
    subst (KeptBy n s) (some_inj h) (unchanged n s calm s [] refl refl refl refl tt)
process-Kept n s k (m ∷ rest) r calm ok h =
    let (same, harmless) = dispatch-idle n _ (taken n s rest calm ok.1) k m.type m r.0 r.1 ok.0 h in
    record {
      calm = subst (Calm n) (sym same) (taken n s rest calm ok.1);
      harmless = harmless;
      stays = λ t trans b kept. subst (λ x. Stays t trans x.transaction_manager) (sym same) kept;
    }

pub process-returns :
    (n : NodeId) (s : Node) (k : Setting) (queue : List NetworkMessage)
    → Calm n s
    → All (λ m. arrives n m.type ≡ true) queue
    → (r : Node × List RpcCall) × (process_message k s queue ≡ some r)
unfolding process_message
process-returns n s k [] calm ok = (_, refl)
process-returns n s k (m ∷ rest) calm ok =
    dispatch-returns n _ (taken n s rest calm ok.1) k m.type m ok.0

connect_from-queue :
    (k : ℕ) (i : NodeId) (net : Network)
    → (connect_from k i net).incoming_queue ≡ net.incoming_queue
unfolding connect_from
connect_from-queue zero i net = refl
connect_from-queue (suc k) i net = elim (Bool-cases (i == net.node_id)) [
  | inl own ↦ rw (own, connect_from) (connect_from-queue k (i + 1) net)
  | inr other ↦
      rw (other, connect_from)
        (connect_from-queue k (i + 1) (record net { peer_stubs = net.peer_stubs ++ i ∷ [] }))
]

-- Network::init and connectToPeers give a node no connection to itself and no message.
pub listen-Kept :
    (n : NodeId) (s : Node)
    → Calm n s
    → KeptBy n s (record s { network = init_server s.network }, [])
unfolding init_server
listen-Kept n s calm = record {
  calm = record {
    id = calm.id;
    manager = calm.manager;
    agreement = calm.agreement;
    begun = calm.begun;
    zone = calm.zone;
    server = calm.server;
    named = calm.named;
    apart = calm.apart;
    queue = calm.queue;
  };
  harmless = tt;
  stays = λ t trans b kept. kept;
}

connected :
    (net : Network)
    → net.is_client ≡ false
    → connect_to_peers net ≡ connect_from net.num_nodes 1 net
unfolding connect_to_peers
connected net server = rw server refl

pub connect-Kept :
    (n : NodeId) (s : Node)
    → Calm n s
    → KeptBy n s (record s { network = connect_to_peers s.network }, [])
connect-Kept n s calm =
    let net = s.network in
    let (stubs, home, kind, size) = connect_from_lem net.num_nodes 1 n net in
    let own : (n == net.node_id) ≡ true = ap (λ i. n == i) calm.named ∙ ==_refl n in
    rw (connected net calm.server) (record {
      calm = record {
        id = calm.id;
        manager = calm.manager;
        agreement = calm.agreement;
        begun = calm.begun;
        zone = calm.zone;
        server = kind ∙ calm.server;
        named = home ∙ calm.named;
        apart = stubs ∙ ground (arith, calm.apart, own);
        queue =
            subst (All (λ m. arrives n m.type ≡ true))
              (sym (connect_from-queue net.num_nodes 1 net)) calm.queue;
      };
      harmless = tt;
      stays = λ t trans b kept. kept;
    })
