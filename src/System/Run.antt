-- ===== src/System/Run.antt =====
-- What holds of the nodes that main.cpp starts, in whatever order their threads run.
use hawk_txn.Common.{
  Bool, if◌then◌else◌, ℕ, ◌≡◌, refl, true, false, some, List, [], ◌∷◌, ◌==◌, inl, inr, arith,
  Bool-cases, All, All-append, ap, ◌∙◌, sym, subst, some_inj, >>=-eq-some,
}
use hawk_txn.Map
use hawk_txn.Types.{NodeId, TransactionId, ResourceId, LockMode, exclusive, get_owner_node_id}
use hawk_txn.Transaction.{Transaction, get_transaction, get_transaction_locks, is_blocked}
use hawk_txn.Transaction.Locks.{given_out}
use hawk_txn.Transaction.Reach.{init-Agreement, exclusive_alone}
use hawk_txn.Transaction.Life.{Stays}
use hawk_txn.Zone
use hawk_txn.Network.Send
use hawk_txn.Network.Send.{Network, RpcCall, connect_from, connect_to_peers, handle_rpc}
use hawk_txn.Node
use hawk_txn.Node.{Node}
use hawk_txn.System.{System, put, receive, deliver, start_nodes, Event, place, turn, step, run}
use hawk_txn.System.Sends.{arrives, Harmless}
use hawk_txn.System.Calm.{Calm}
use hawk_txn.System.Rounds.{turn-Kept, turn-returns}

abbrev pub AllCalm : System → Type 0
AllCalm sys = (n : NodeId) → Calm n (sys n)

put-AllCalm :
    (n : NodeId) (s : Node) (sys : System) → AllCalm sys → Calm n s → AllCalm (put n s sys)
put-AllCalm n s sys calm here k = elim (Bool-cases (k == n)) [
  | inr other ↦ rw other (calm k)
  | inl same ↦ let e : k ≡ n = ground arith in rw same (subst (λ i. Calm i s) (sym e) here)
]

if-AllCalm : (b : Bool) (x y : System) → AllCalm x → AllCalm y → AllCalm (if b then x else y)
if-AllCalm true x y hx hy = hx
if-AllCalm false x y hx hy = hy

-- An RPC changes nothing but a queue.
receive-AllCalm : (c : RpcCall) (sys : System) → Harmless c → AllCalm sys → AllCalm (receive c sys)
unfolding receive handle_rpc
receive-AllCalm c sys ok calm =
    let old = calm c.target in
    if-AllCalm (sys c.target).network.server _ sys
      (put-AllCalm c.target _ sys calm (record {
        id = old.id;
        manager = old.manager;
        agreement = old.agreement;
        begun = old.begun;
        zone = old.zone;
        server = old.server;
        named = old.named;
        apart = old.apart;
        queue = All-append _ (sys c.target).network.incoming_queue _ old.queue (ok, tt);
      }))
      calm

put-manager :
    (target n : NodeId) (s : Node) (sys : System)
    → s.transaction_manager ≡ (sys target).transaction_manager
    → (put target s sys n).transaction_manager ≡ (sys n).transaction_manager
put-manager target n s sys same = elim (Bool-cases (n == target)) [
  | inr other ↦ rw other refl
  | inl here ↦
      let e : n ≡ target = ground arith in
      rw here (same ∙ ap (λ i. (sys i).transaction_manager) (sym e))
]

receive-manager :
    (c : RpcCall) (sys : System) (n : NodeId)
    → (receive c sys n).transaction_manager ≡ (sys n).transaction_manager
unfolding receive
receive-manager c sys n = kept (sys c.target).network.server
  where
    kept :
        (b : Bool)
        → ((if b
              then put c.target
                  (record (sys c.target) { network = handle_rpc c.message (sys c.target).network })
                  sys
              else sys)
            n).transaction_manager
          ≡ (sys n).transaction_manager
    kept true = put-manager c.target n _ sys refl
    kept false = refl

deliver-AllCalm :
    (calls : List RpcCall) (sys : System)
    → All Harmless calls
    → AllCalm sys
    → AllCalm (deliver calls sys)
      × ((n : NodeId) → (deliver calls sys n).transaction_manager ≡ (sys n).transaction_manager)
unfolding deliver
deliver-AllCalm [] sys ok calm = (calm, λ n. refl)
deliver-AllCalm (c ∷ cs) sys ok calm =
    let (rest, same) = deliver-AllCalm cs (receive c sys) ok.1 (receive-AllCalm c sys ok.0 calm) in
    (rest, λ n. same n ∙ receive-manager c sys n)

start-AllCalm : (num_nodes : ℕ) → AllCalm (start_nodes num_nodes)
unfolding start_nodes Node.init Send.init
start-AllCalm num_nodes n = record {
  id = refl;
  manager = refl;
  agreement = init-Agreement n;
  begun = λ t trans h. absurd (cc h);
  zone = refl;
  server = refl;
  named = refl;
  apart = refl;
  queue = tt;
}

-- One step keeps the invariant, and a blocked transaction as it is.
step-AllCalm :
    (sys sys' : System) (e : Event)
    → AllCalm sys
    → step sys e ≡ some sys'
    → AllCalm sys'
      × ((n : NodeId) (t : TransactionId) (trans : Transaction)
          → is_blocked trans.status ≡ true
          → Stays t trans (sys n).transaction_manager
          → Stays t trans (sys' n).transaction_manager)
unfolding step
step-AllCalm sys sys' e calm h =
    let n = place e in
    let (r, ran, done) = >>=-eq-some (turn (sys n) e) _ h in
    let kept = turn-Kept n (sys n) (calm n) e r ran in
    let (after, same) =
      deliver-AllCalm r.1 (put n r.0 sys) kept.harmless (put-AllCalm n r.0 sys calm kept.calm) in
    subst
      (λ x.
        AllCalm x
        × ((i : NodeId) (t : TransactionId) (trans : Transaction)
            → is_blocked trans.status ≡ true
            → Stays t trans (sys i).transaction_manager
            → Stays t trans (x i).transaction_manager))
      (some_inj done)
      (
        after,
        λ i t trans b was. subst (Stays t trans) (sym (same i)) (elim (Bool-cases (i == n)) [
          | inr other ↦ rw other was
          | inl here ↦
              let e : i ≡ n = ground arith in
              rw here (
                kept.stays t trans b (subst (λ j. Stays t trans (sys j).transaction_manager) e was))
        ]),
      )

run-AllCalm :
    (es : List Event) (sys sys' : System) → AllCalm sys → run sys es ≡ some sys' → AllCalm sys'
unfolding run
run-AllCalm [] sys sys' calm h = subst AllCalm (some_inj h) calm
run-AllCalm (e ∷ es) sys sys' calm h =
    let (next, ran, rest) = >>=-eq-some (step sys e) _ h in
    run-AllCalm es next sys' (step-AllCalm sys next e calm ran).0 rest

reached-AllCalm :
    (num_nodes : ℕ) (es : List Event) (sys : System)
    → run (start_nodes num_nodes) es ≡ some sys
    → AllCalm sys
reached-AllCalm num_nodes es sys h =
    run-AllCalm es (start_nodes num_nodes) sys (start-AllCalm num_nodes) h

run-returns :
    (es : List Event) (sys : System) → AllCalm sys → (sys' : System) × (run sys es ≡ some sys')
unfolding run step
run-returns [] sys calm = (sys, refl)
run-returns (e ∷ es) sys calm =
    let (r, ran) = turn-returns (place e) (sys (place e)) (calm (place e)) e in
    let next = deliver r.1 (put (place e) r.0 sys) in
    let stepped : step sys e ≡ some next = rw ran refl in
    let (sys', rest) = run-returns es next (step-AllCalm sys next e calm stepped).0 in
    (sys', rw stepped rest)

-- In whatever order the threads of the nodes and the commands of clients run, and whenever, if ever, the
-- networks of the nodes start their server and connect to their peers: every turn returns, and at
-- each node the messages that wait to be handled are only requests for locks, reports to a client,
-- probes, a client's commands to abort and to print, and, except at the central node, messages of type
-- WFG_REPORT. The detection zone of every node stays as its constructor left it.
pub only_requests_arrive :
    (num_nodes : ℕ) (es : List Event)
    → (sys : System) × (run (start_nodes num_nodes) es ≡ some sys)
      × ((n : NodeId)
          → All (λ m. arrives n m.type ≡ true) (sys n).network.incoming_queue
            × ((sys n).detection_zone_manager ≡ Zone.init n))
only_requests_arrive num_nodes es =
    let (sys, ran) = run-returns es (start_nodes num_nodes) (start-AllCalm num_nodes) in
    let calm = reached-AllCalm num_nodes es sys ran in
    (sys, ran, λ n. ((calm n).queue, (calm n).zone))

-- In whatever order the threads of the nodes and the commands of clients run, and whenever, if ever, the
-- networks of the nodes start their server and connect to their peers: if one transaction has an
-- exclusive lock on a resource of its node by its own record, no other transaction of that node has
-- a lock on it.
pub no_conflicts_anywhere :
    (num_nodes : ℕ) (es : List Event) (sys : System) (n : NodeId) (t u : TransactionId)
    (r : ResourceId) (mode : LockMode)
    → run (start_nodes num_nodes) es ≡ some sys
    → get_owner_node_id r ≡ n
    → Map.find? r (get_transaction_locks (sys n).transaction_manager t) ≡ some exclusive
    → Map.find? r (get_transaction_locks (sys n).transaction_manager u) ≡ some mode
    → t ≡ u
no_conflicts_anywhere num_nodes es sys n t u r mode ran own ht hu =
    let calm = reached-AllCalm num_nodes es sys ran n in
    exclusive_alone (sys n).transaction_manager t u r mode calm.agreement (own ∙ sym calm.manager)
      ht hu

run-Stays :
    (es : List Event) (sys sys' : System) (n : NodeId) (t : TransactionId) (trans : Transaction)
    → AllCalm sys
    → is_blocked trans.status ≡ true
    → Stays t trans (sys n).transaction_manager
    → run sys es ≡ some sys'
    → Stays t trans (sys' n).transaction_manager
unfolding run
run-Stays [] sys sys' n t trans calm b was h =
    subst (λ x. Stays t trans (x n).transaction_manager) (some_inj h) was
run-Stays (e ∷ es) sys sys' n t trans calm b was h =
    let (next, ran, rest) = >>=-eq-some (step sys e) _ h in
    let (calm', kept) = step-AllCalm sys next e calm ran in
    run-Stays es next sys' n t trans calm' b (kept n t trans b was) rest

-- Once a transaction of a node is blocked it stays active and as it is, in whatever order the threads of
-- the nodes and the commands of clients run from then on, and whenever, if ever, the networks of the
-- nodes start their server and connect to their peers, before or after.
pub blocked_forever :
    (num_nodes : ℕ) (before after : List Event) (sys sys' : System) (n : NodeId) (t : TransactionId)
    (trans : Transaction)
    → run (start_nodes num_nodes) before ≡ some sys
    → get_transaction (sys n).transaction_manager t ≡ some trans
    → is_blocked trans.status ≡ true
    → run sys after ≡ some sys'
    → get_transaction (sys' n).transaction_manager t ≡ some trans
blocked_forever num_nodes before after sys sys' n t trans started there b ran =
    let calm = reached-AllCalm num_nodes before sys started in
    (run-Stays after sys sys' n t trans calm b
      (there, given_out (sys n).transaction_manager t trans (calm n).agreement there) ran).0
