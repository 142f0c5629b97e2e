-- ===== src/System/Rounds.antt =====
-- The turns of the loops that start rounds of detection (DistributedDBNode.cpp), and every turn at once.
use hawk_txn.Common.{
  ℕ, ◌≡◌, refl, Bool, true, false, not, ◌&&◌, some, List, [], ◌∷◌, ◌==◌, inl, inr, elem, arith,
  Bool-cases, Option-cases, All, All-append, ap, ◌∙◌, sym, subst, some_inj,
}
use hawk_txn.Types.{NodeId, TransactionId, ResourceId, centralized_node_id}
use hawk_txn.Message.{wfg_report, zone_wfg_report, pag_request}
use hawk_txn.Resource.{count_up}
use hawk_txn.Transaction.{
  TransactionManager, get_transaction, is_blocked, begin_transaction, add_tpcc_transaction,
  get_next_transaction_id, generate_random_sql_statements,
}
use hawk_txn.Zone
use hawk_txn.Zone.{DetectionZoneManager, is_zone_leader}
use hawk_txn.Network.{convert_to_proto_message, convert_from_proto_message, body_of, read_body}
use hawk_txn.Network.Send
use hawk_txn.Network.Send.{
  Network, RpcCall, connect_to_server, send_collect_command, send_print_command, send_abort_command,
  send_message, client_rpc, peer_rpc, call_if,
}
use hawk_txn.Collect.{initiate_path_pushing_probes, probes_for}
use hawk_txn.Node.{Node, send_all, is_centralized_node}
use hawk_txn.Loops.{
  requests, start_centralized_round, start_zone_round, start_sampling, push_probes,
}
use hawk_txn.System.{
  Event, begins, begins_tpcc, polls, processes, collects, collects_zone, samples, probes, commands,
  listens, connects, turn, client, run_command, Command, connect, collect, print, abort,
}
use hawk_txn.System.Sends.{arrives, Harmless, Sendable, send_all-Harmless}
use hawk_txn.System.Calm.{Calm}
use hawk_txn.System.Steps.{
  KeptBy, begin-Kept, poll-Kept, unchanged, listen-Kept, connect-Kept, process-Kept,
  process-returns,
}
use hawk_txn.LockTable.Home.{Names, try_returns}

probes_for-type :
    (n : NodeId) (tm : TransactionManager) (ts : List TransactionId)
    → All (λ m. arrives n m.type ≡ true) (probes_for tm ts)
unfolding probes_for
probes_for-type n tm [] = tt
probes_for-type n tm (t ∷ ts) = elim (Option-cases (get_transaction tm t)) [
  | inl gone ↦ rw (gone, probes_for) (probes_for-type n tm ts)
  | inr (trans, there) ↦
      rw (there, probes_for)
        (elim (Bool-cases (is_blocked trans.status)) [
          | inl waits ↦ rw waits (refl, probes_for-type n tm ts)
          | inr active ↦ rw active (probes_for-type n tm ts)
        ])
]

-- A request for a sample has no RPC.
samples_lost :
    (net : Network) (n : NodeId) (ns : List NodeId)
    → net.is_client ≡ false
    → send_all net (requests pag_request n ns) ≡ []
unfolding send_all requests send_message call_if peer_rpc convert_to_proto_message body_of
samples_lost net n [] server = refl
samples_lost net n (i ∷ ns) server = elim (Bool-cases (i == 0 && not net.is_client)) [
  | inl broadcast ↦ rw (broadcast, send_message) (samples_lost net n ns server)
  | inr addressed ↦
      rw (addressed, send_message)
        (rw server (elim (Bool-cases (elem i net.peer_stubs)) [
          | inl known ↦ rw known (samples_lost net n ns server)
          | inr unknown_peer ↦ rw unknown_peer (samples_lost net n ns server)
        ]))
]

module _ (n : NodeId) (s : Node) (calm : Calm n s) where
  -- The requests of the central node for reports go to the others.
  reports-Sendable :
      (ns : List NodeId)
      → (n == centralized_node_id) ≡ true
      → All (Sendable s.network) (requests wfg_report s.node_id ns)
  unfolding requests
  reports-Sendable [] central = tt
  reports-Sendable (i ∷ ns) central = elim (Bool-cases (i == n)) [
    | inl own ↦
        let e : i ≡ n = ground arith in
        (inl (ap (λ x. elem x s.network.peer_stubs) e ∙ calm.apart), reports-Sendable ns central)
    | inr other ↦ (inr (ground (arith, other, central)), reports-Sendable ns central)
  ]

  collects-Kept : KeptBy n s (start_centralized_round s)
  unfolding start_centralized_round
  collects-Kept = elim (Bool-cases (is_centralized_node s)) [
    | inr other ↦
        rw (other, start_centralized_round) (unchanged n s calm s [] refl refl refl refl tt)
    | inl central ↦
        rw (central, start_centralized_round)
          (unchanged n s calm _ _ refl refl refl refl (
            send_all-Harmless s.network _ calm.server (
              reports-Sendable (count_up s.num_nodes 1)
                (ap (λ i. i == centralized_node_id) (sym calm.id) ∙ central))))
  ]

  -- A node asks only itself, the one member of its zone.
  members-Sendable :
      (z : DetectionZoneManager)
      → z ≡ Zone.init n
      → All (Sendable s.network) (requests zone_wfg_report s.node_id z.my_detection_zone_members)
  unfolding requests Zone.init
  members-Sendable z e =
      subst
        (λ x.
          All (Sendable s.network) (requests zone_wfg_report s.node_id x.my_detection_zone_members))
        (sym e) (inl calm.apart, tt)

  collects_zone-Kept : KeptBy n s (start_zone_round s)
  unfolding start_zone_round
  collects_zone-Kept = elim (Bool-cases (is_zone_leader s.detection_zone_manager)) [
    | inr member ↦ rw (member, start_zone_round) (unchanged n s calm s [] refl refl refl refl tt)
    | inl leads ↦
        rw (leads, start_zone_round)
          (unchanged n s calm _ _ refl refl refl refl (
            send_all-Harmless s.network _ calm.server
              (members-Sendable s.detection_zone_manager calm.zone)))
  ]

  samples-Kept : (hawk : Bool) → KeptBy n s (start_sampling hawk s)
  unfolding start_sampling
  samples-Kept hawk = elim (Bool-cases (hawk && is_centralized_node s)) [
    | inr other ↦ rw (other, start_sampling) (unchanged n s calm s [] refl refl refl refl tt)
    | inl central ↦
        rw (central, start_sampling)
          (unchanged n s calm _ _ refl refl refl refl (
            subst (All Harmless)
              (sym (samples_lost s.network s.node_id (count_up s.num_nodes 1) calm.server)) tt))
  ]

  probes-Kept : KeptBy n s (push_probes s, [])
  unfolding push_probes initiate_path_pushing_probes
  probes-Kept = record {
    calm = record {
      id = calm.id;
      manager = calm.manager;
      agreement = calm.agreement;
      begun = calm.begun;
      zone = calm.zone;
      server = calm.server;
      named = calm.named;
      apart = calm.apart;
      queue =
          All-append _ s.network.incoming_queue _ calm.queue
            (probes_for-type n s.transaction_manager _);
    };
    harmless = tt;
    stays = λ t trans b kept. kept;
  }

  -- A client's commands: two are lost, and the others ask for an abort and for a report.
  command-Harmless :
      (server num_nodes : ℕ) (c : Command) → All Harmless (run_command server num_nodes c)
  unfolding run_command client connect_to_server Send.init send_collect_command send_print_command
      send_abort_command send_message client_rpc call_if convert_to_proto_message
      convert_from_proto_message body_of read_body
  command-Harmless server num_nodes connect = (refl, tt)
  command-Harmless server num_nodes collect = tt
  command-Harmless server num_nodes print = tt
  command-Harmless server num_nodes (abort victim) = (refl, tt)

  drawn-Names :
      (t : TransactionId) (i : NodeId) (draws : List (ResourceId × Bool))
      → Names (generate_random_sql_statements t i draws)
  unfolding generate_random_sql_statements
  drawn-Names t i [] = tt
  drawn-Names t i ((r, x) ∷ draws) = ((r, refl), drawn-Names t i draws)

  -- Every turn keeps what Calm says of its node, sends only such messages, and lets blocked
  -- transactions stay as they are.
  pub turn-Kept : (e : Event) (r : Node × List RpcCall) → turn s e ≡ some r → KeptBy n s r
  unfolding turn begin_transaction add_tpcc_transaction get_next_transaction_id send_all
  turn-Kept (begins i draws) r h = subst (KeptBy n s) (some_inj h) (
      begin-Kept n s calm
        (generate_random_sql_statements s.transaction_manager.next_transaction_id
          s.transaction_manager.node_id draws)
        (drawn-Names _ _ draws))
  turn-Kept (begins_tpcc i) r h = subst (KeptBy n s) (some_inj h) (begin-Kept n s calm [] tt)
  turn-Kept (polls i d t) r h = poll-Kept n s calm d t r h
  turn-Kept (processes i k) r h = process-Kept n s k s.network.incoming_queue r calm calm.queue h
  turn-Kept (collects i) r h = subst (KeptBy n s) (some_inj h) collects-Kept
  turn-Kept (collects_zone i) r h = subst (KeptBy n s) (some_inj h) collects_zone-Kept
  turn-Kept (samples i hawk) r h = subst (KeptBy n s) (some_inj h) (samples-Kept hawk)
  turn-Kept (probes i) r h = subst (KeptBy n s) (some_inj h) probes-Kept
  turn-Kept (commands i c) r h =
      subst (KeptBy n s) (some_inj h)
        (unchanged n s calm s _ refl refl refl refl (command-Harmless i s.num_nodes c))
  turn-Kept (listens i) r h = subst (KeptBy n s) (some_inj h) (listen-Kept n s calm)
  turn-Kept (connects i) r h = subst (KeptBy n s) (some_inj h) (connect-Kept n s calm)

  -- Every turn returns.
  pub turn-returns : (e : Event) → (r : Node × List RpcCall) × (turn s e ≡ some r)
  unfolding turn
  turn-returns (begins i draws) = (_, refl)
  turn-returns (begins_tpcc i) = (_, refl)
  turn-returns (polls i d t) =
      let (o, ran) = try_returns d t s.transaction_manager (λ u x h. (calm.begun u x h).1) in
      rw ran (_, refl)
  turn-returns (processes i k) = process-returns n s k s.network.incoming_queue calm calm.queue
  turn-returns (collects i) = (_, refl)
  turn-returns (collects_zone i) = (_, refl)
  turn-returns (samples i hawk) = (_, refl)
  turn-returns (probes i) = (_, refl)
  turn-returns (commands i c) = (_, refl)
  turn-returns (listens i) = (_, refl)
  turn-returns (connects i) = (_, refl)
