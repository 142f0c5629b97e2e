-- ===== src/System/Calm.antt =====
-- The nodes that main.cpp starts only ever exchange messages that change nothing: which messages those
-- are, and that messageProcessingLoop of DistributedDBNode.cpp does nothing with them.
use hawk_txn.Common.{
  ◌≡◌, refl, Bool, true, false, not, ◌&&◌, Option, some, none, List, [], ◌∷◌, ◌==◌, inl, inr, elem,
  arith, Bool-cases, Option-cases, All, All-append, ap, ◌∙◌, sym, subst, some_inj, last?,
}
use hawk_txn.Types.{NodeId, TransactionId, centralized_node_id, SqlStatement}
use hawk_txn.Message.{
  NetworkMessageType, unknown, lock_request, lock_response, release_lock_request,
  release_lock_response, pag_request, pag_response, wfg_report, deadlock_resolution,
  abort_transaction_signal, distributed_detection_init, zone_detection_request, zone_wfg_report,
  central_wfg_report_from_zone, path_pushing_probe, client_collect_wfg_request,
  client_collect_wfg_response, client_print_deadlock_request, client_resolve_deadlock_request,
  deadlock_report_to_client, NetworkMessage,
}
use hawk_txn.Resource.{Holders}
use hawk_txn.Transaction.{get_transaction, get_transaction_home_node, is_blocked}
use hawk_txn.Transaction.Locks.{Agreement}
use hawk_txn.LockTable.Cross.{IsHome}
use hawk_txn.LockTable.Home.{Every, Names, home_here}
use hawk_txn.Zone
use hawk_txn.Network.Send.{RpcCall}
use hawk_txn.Resolve.{abort_victim}
use hawk_txn.Resolve.Probe.{push_probe, handle_path_pushing_probe, no_frequencies}
use hawk_txn.Collect.{handle_wfg_report}
use hawk_txn.Client.{handle_client_print_deadlock_request, handle_client_resolve_deadlock_request}
use hawk_txn.Node.{Node, Setting, dispatch, sends, send_all, is_centralized_node}
use hawk_txn.System.Sends.{arrives, Harmless, Sendable, send_all-Harmless}

-- A transaction as the node begins it: at home, and each statement names a resource.
abbrev pub Begun : NodeId → NodeId → List SqlStatement → Type 0
Begun n home statements = (home ≡ n) × Names statements

-- A node in the system, at its place.
pub record Calm (n : NodeId) (s : Node) : Type 0 where
  pub id : s.node_id ≡ n
  pub manager : s.transaction_manager.node_id ≡ n
  pub agreement : Agreement s.transaction_manager
  pub begun : Every (Begun n) s.transaction_manager
  pub zone : s.detection_zone_manager ≡ Zone.init n
  pub server : s.network.is_client ≡ false
  pub named : s.network.node_id ≡ n
  -- it has no connection to itself
  pub apart : elem n s.network.peer_stubs ≡ false
  pub queue : All (λ m. arrives n m.type ≡ true) s.network.incoming_queue

-- What a handler sends stays harmless.
abbrev pub AllSendable : Node → Option (List NetworkMessage) → Type 0
AllSendable s none = Unit
AllSendable s (some ms) = All (Sendable s.network) ms

module _ (n : NodeId) (s : Node) (calm : Calm n s) where
  own_id : (receiver : NodeId) → receiver ≡ n → elem receiver s.network.peer_stubs ≡ false
  own_id receiver e = ap (λ i. elem i s.network.peer_stubs) e ∙ calm.apart

  home : IsHome n s.transaction_manager
  home t trans h = (calm.begun t trans h).0

  -- An abort goes to the node itself.
  abort-Sendable :
      (victim : TransactionId)
      → All (Sendable s.network) (abort_victim s.transaction_manager victim)
  unfolding abort_victim
  abort-Sendable victim =
      elim (Bool-cases (get_transaction_home_node s.transaction_manager victim == 0)) [
        | inl none_known ↦ rw none_known tt
        | inr known ↦
            rw (known, abort_victim)
              (elim (home_here n s.transaction_manager victim home) [
                | inl zero_home ↦ absurd (ground (arith, known, zero_home))
                | inr here ↦ (inl (own_id _ here), tt)
              ])
      ]

  push-Sendable :
      (central : Bool) (path : List TransactionId) (hs : Holders)
      → AllSendable s (push_probe central s.transaction_manager path hs)
  unfolding push_probe
  push-Sendable central path [] = tt
  push-Sendable central path ((x, mode) ∷ hs) = elim (Bool-cases (elem x path)) [
    | inl cycle ↦ rw (cycle, push_probe) (rw (no_frequencies path x) tt)
    | inr open_path ↦
        rw (open_path, push_probe)
          (elim (Bool-cases (get_transaction_home_node s.transaction_manager x == 0)) [
            | inl unknown_home ↦ rw unknown_home tt
            | inr known ↦ rw known (elim (home_here n s.transaction_manager x home) [
              | inl zero_home ↦ absurd (ground (arith, known, zero_home))
              | inr here ↦ (inl (own_id _ here), tt)
            ])
          ])
  ]

  probe-Sendable :
      (central : Bool) (path : List TransactionId)
      → AllSendable s (handle_path_pushing_probe central s.transaction_manager path)
  unfolding handle_path_pushing_probe
  probe-Sendable central path = elim (Option-cases (last? path)) [
    | inl e ↦ rw (e, handle_path_pushing_probe) tt
    | inr (t, e) ↦
        rw (e, handle_path_pushing_probe)
          (elim (Option-cases (get_transaction s.transaction_manager t)) [
            | inl gone ↦ rw gone tt
            | inr (trans, there) ↦
                rw there
                  (elim (Bool-cases
                    (is_blocked trans.status && not (trans.waiting_for_resource_id == 0))) [
                      | inr idle ↦ rw idle tt
                      | inl waits ↦ rw waits (push-Sendable central path _)
                    ])
          ])
  ]

  resolve-Sendable :
      (victim : TransactionId) (client : NodeId)
      → All (Sendable s.network) (
          handle_client_resolve_deadlock_request
            (is_centralized_node s)
            s.transaction_manager
            victim
            client)
  unfolding handle_client_resolve_deadlock_request
  resolve-Sendable victim client = elim (Bool-cases (is_centralized_node s)) [
    | inr other ↦ rw other tt
    | inl central ↦ rw central (
        All-append _ (abort_victim s.transaction_manager victim) _ (abort-Sendable victim)
          (inr refl, tt))
  ]

  print-Sendable :
      (client : NodeId)
      → All (Sendable s.network) (
          handle_client_print_deadlock_request
            (is_centralized_node s)
            s.node_id
            s.central_state
            client)
  unfolding handle_client_print_deadlock_request
  print-Sendable client = elim (Bool-cases (is_centralized_node s)) [
    | inr other ↦ rw other tt
    | inl central ↦ rw central (inr refl, tt)
  ]

  sends-idle :
      (o : Option (List NetworkMessage)) (s' : Node) (calls : List RpcCall)
      → AllSendable s o
      → sends s o ≡ some (s', calls)
      → (s' ≡ s) × All Harmless calls
  sends-idle none s' calls ok h =
      (ap (λ x. x.0) (sym (some_inj h)), subst (All Harmless) (ap (λ x. x.1) (some_inj h)) tt)
  sends-idle (some ms) s' calls ok h = (
    ap (λ x. x.0) (sym (some_inj h)),
    subst (All Harmless) (ap (λ x. x.1) (some_inj h))
        (send_all-Harmless s.network ms calm.server ok),
  )

  -- The messages that arrive change nothing, and what is sent about them changes nothing elsewhere.
  pub dispatch-idle :
      (k : Setting) (t : NetworkMessageType) (m : NetworkMessage) (s' : Node) (calls : List RpcCall)
      → arrives n t ≡ true
      → dispatch k t m s ≡ some (s', calls)
      → (s' ≡ s) × All Harmless calls
  unfolding dispatch handle_wfg_report send_all
  dispatch-idle k lock_request m s' calls ok h = sends-idle (some []) s' calls tt h
  dispatch-idle k deadlock_report_to_client m s' calls ok h = sends-idle (some []) s' calls tt h
  dispatch-idle k path_pushing_probe m s' calls ok h =
      sends-idle _ s' calls (probe-Sendable (is_centralized_node s) m.path) h
  dispatch-idle k client_resolve_deadlock_request m s' calls ok h =
      sends-idle (some _) s' calls (resolve-Sendable m.victim_trans_id m.sender_id) h
  dispatch-idle k client_print_deadlock_request m s' calls ok h =
      sends-idle (some _) s' calls (print-Sendable m.sender_id) h
  dispatch-idle k wfg_report m s' calls ok h =
      let other : (s.node_id == centralized_node_id) ≡ false =
        ap (λ i. i == centralized_node_id) calm.id ∙ ground (arith, ok) in
      sends-idle (some []) s' calls tt (rw other at h)
  dispatch-idle k unknown m s' calls ok h = absurd (cc ok)
  dispatch-idle k lock_response m s' calls ok h = absurd (cc ok)
  dispatch-idle k release_lock_request m s' calls ok h = absurd (cc ok)
  dispatch-idle k release_lock_response m s' calls ok h = absurd (cc ok)
  dispatch-idle k pag_request m s' calls ok h = absurd (cc ok)
  dispatch-idle k pag_response m s' calls ok h = absurd (cc ok)
  dispatch-idle k deadlock_resolution m s' calls ok h = absurd (cc ok)
  dispatch-idle k abort_transaction_signal m s' calls ok h = absurd (cc ok)
  dispatch-idle k distributed_detection_init m s' calls ok h = absurd (cc ok)
  dispatch-idle k zone_detection_request m s' calls ok h = absurd (cc ok)
  dispatch-idle k zone_wfg_report m s' calls ok h = absurd (cc ok)
  dispatch-idle k central_wfg_report_from_zone m s' calls ok h = absurd (cc ok)
  dispatch-idle k client_collect_wfg_request m s' calls ok h = absurd (cc ok)
  dispatch-idle k client_collect_wfg_response m s' calls ok h = absurd (cc ok)

  sends-returns :
      (o : Option (List NetworkMessage)) → (r : Node × List RpcCall) × (sends s o ≡ some r)
  sends-returns none = (_, refl)
  sends-returns (some ms) = (_, refl)

  pub dispatch-returns :
      (k : Setting) (t : NetworkMessageType) (m : NetworkMessage)
      → arrives n t ≡ true
      → (r : Node × List RpcCall) × (dispatch k t m s ≡ some r)
  unfolding dispatch handle_wfg_report
  dispatch-returns k lock_request m ok = (_, refl)
  dispatch-returns k deadlock_report_to_client m ok = (_, refl)
  dispatch-returns k path_pushing_probe m ok = sends-returns _
  dispatch-returns k client_resolve_deadlock_request m ok = (_, refl)
  dispatch-returns k wfg_report m ok =
      let other : (s.node_id == centralized_node_id) ≡ false =
        ap (λ i. i == centralized_node_id) calm.id ∙ ground (arith, ok) in
      rw other (_, refl)
  dispatch-returns k unknown m ok = absurd (cc ok)
  dispatch-returns k lock_response m ok = absurd (cc ok)
  dispatch-returns k release_lock_request m ok = absurd (cc ok)
  dispatch-returns k release_lock_response m ok = absurd (cc ok)
  dispatch-returns k pag_request m ok = absurd (cc ok)
  dispatch-returns k pag_response m ok = absurd (cc ok)
  dispatch-returns k deadlock_resolution m ok = absurd (cc ok)
  dispatch-returns k abort_transaction_signal m ok = absurd (cc ok)
  dispatch-returns k distributed_detection_init m ok = absurd (cc ok)
  dispatch-returns k zone_detection_request m ok = absurd (cc ok)
  dispatch-returns k zone_wfg_report m ok = absurd (cc ok)
  dispatch-returns k central_wfg_report_from_zone m ok = absurd (cc ok)
  dispatch-returns k client_collect_wfg_request m ok = absurd (cc ok)
  dispatch-returns k client_collect_wfg_response m ok = absurd (cc ok)
  dispatch-returns k client_print_deadlock_request m ok = (_, refl)
