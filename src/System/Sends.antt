-- ===== src/System/Sends.antt =====
-- Which messages leave a node by sendMessage of Network.cpp, and what arrives.
use hawk_txn.Common.{
  ◌≡◌, refl, Bool, true, false, not, ◌&&◌, List, [], ◌∷◌, ◌==◌, ◌⊎◌, inl, inr, elem, Bool-cases,
  All, All-append, ap, ◌∙◌,
}
use hawk_txn.Types.{NodeId, centralized_node_id}
use hawk_txn.Message.{
  NetworkMessageType, unknown, lock_request, lock_response, release_lock_request,
  release_lock_response, pag_request, pag_response, wfg_report, deadlock_resolution,
  abort_transaction_signal, distributed_detection_init, zone_detection_request, zone_wfg_report,
  central_wfg_report_from_zone, path_pushing_probe, client_collect_wfg_request,
  client_collect_wfg_response, client_print_deadlock_request, client_resolve_deadlock_request,
  deadlock_report_to_client, NetworkMessage,
}
use hawk_txn.Network.{
  Payload, convert_to_proto_message, convert_from_proto_message, body_of, read_body,
}
use hawk_txn.Network.Send.{Network, RpcCall, peer_rpc, call_if, send_message}
use hawk_txn.Node.{send_all}

-- The types that a node does not act on, whoever sends them: a request for a lock, which the dispatch
-- leaves out, a report to a client, and a report of a graph to any node but the central one. To them
-- a probe and the two commands of a client that arrive are added, which a node acts on.
abbrev pub arrives : NodeId → NetworkMessageType → Bool
arrives n lock_request = true
arrives n deadlock_report_to_client = true
arrives n path_pushing_probe = true
arrives n client_resolve_deadlock_request = true
arrives n client_print_deadlock_request = true
arrives n wfg_report = not (n == centralized_node_id)
arrives n other = false

-- Every call brings such a message.
abbrev pub Harmless : RpcCall → Type 0
Harmless c = arrives c.target (convert_from_proto_message c.message).type ≡ true

read_body-type :
    (t : NetworkMessageType) (p : Payload) (m : NetworkMessage) → (read_body t p m).type ≡ m.type
unfolding read_body
read_body-type unknown p m = refl
read_body-type lock_request p m = refl
read_body-type lock_response p m = refl
read_body-type release_lock_request p m = refl
read_body-type release_lock_response p m = refl
read_body-type pag_request p m = refl
read_body-type pag_response p m = refl
read_body-type wfg_report p m = refl
read_body-type deadlock_resolution p m = refl
read_body-type abort_transaction_signal p m = refl
read_body-type distributed_detection_init p m = refl
read_body-type zone_detection_request p m = refl
read_body-type zone_wfg_report p m = refl
read_body-type central_wfg_report_from_zone p m = refl
read_body-type path_pushing_probe p m = refl
read_body-type client_collect_wfg_request p m = refl
read_body-type client_collect_wfg_response p m = refl
read_body-type client_print_deadlock_request p m = refl
read_body-type client_resolve_deadlock_request p m = refl
read_body-type deadlock_report_to_client p m = refl

-- A type that arrives is kept by the conversion, and any other that is not has no RPC.
body_of-type :
    (t : NetworkMessageType) (m : NetworkMessage)
    → ((body_of t m).0 ≡ t) ⊎ (peer_rpc (body_of t m).0 ≡ false)
unfolding body_of peer_rpc
body_of-type unknown m = inl refl
body_of-type lock_request m = inl refl
body_of-type lock_response m = inl refl
body_of-type release_lock_request m = inl refl
body_of-type release_lock_response m = inl refl
body_of-type pag_request m = inr refl
body_of-type pag_response m = inl refl
body_of-type wfg_report m = inl refl
body_of-type deadlock_resolution m = inl refl
body_of-type abort_transaction_signal m = inl refl
body_of-type distributed_detection_init m = inl refl
body_of-type zone_detection_request m = inl refl
body_of-type zone_wfg_report m = inl refl
body_of-type central_wfg_report_from_zone m = inl refl
body_of-type path_pushing_probe m = inl refl
body_of-type client_collect_wfg_request m = inr refl
body_of-type client_collect_wfg_response m = inl refl
body_of-type client_print_deadlock_request m = inr refl
body_of-type client_resolve_deadlock_request m = inl refl
body_of-type deadlock_report_to_client m = inl refl

-- A node has no connection to itself: what it sends to its own id is lost.
pub send_self :
    (net : Network) (m : NetworkMessage)
    → net.is_client ≡ false
    → elem m.receiver_id net.peer_stubs ≡ false
    → send_message net m ≡ []
unfolding send_message
send_self net m server apart = elim (Bool-cases (m.receiver_id == 0 && not net.is_client)) [
  | inl broadcast ↦ rw broadcast refl
  | inr addressed ↦ rw (addressed, send_message) (rw server (rw apart refl))
]

call_if-Harmless :
    (b : Bool) (m : NetworkMessage)
    → arrives m.receiver_id m.type ≡ true
    → ((body_of m.type m).0 ≡ m.type) ⊎ (b ≡ false)
    → All Harmless (call_if b m.receiver_id (convert_to_proto_message m))
unfolding call_if convert_to_proto_message convert_from_proto_message
call_if-Harmless false m ok kept = tt
call_if-Harmless true m ok (inr no_rpc) = absurd (cc no_rpc)
call_if-Harmless true m ok (inl kept) = (
  ap (arrives m.receiver_id) (read_body-type (body_of m.type m).0 (body_of m.type m).1 _ ∙ kept)
      ∙ ok,
  tt,
)

pub send-Harmless :
    (net : Network) (m : NetworkMessage)
    → net.is_client ≡ false
    → arrives m.receiver_id m.type ≡ true
    → All Harmless (send_message net m)
unfolding send_message convert_to_proto_message
send-Harmless net m server ok = elim (Bool-cases (m.receiver_id == 0 && not net.is_client)) [
  | inl broadcast ↦ rw broadcast tt
  | inr addressed ↦
      rw (addressed, send_message)
        (rw server (elim (Bool-cases (elem m.receiver_id net.peer_stubs)) [
          | inr unknown_peer ↦ rw unknown_peer tt
          | inl known ↦
              rw known
                (call_if-Harmless (peer_rpc (body_of m.type m).0) m ok (body_of-type m.type m))
        ]))
]

-- Every message of a list is such a one, or is for the node itself.
abbrev pub Sendable : Network → NetworkMessage → Type 0
Sendable net m = (elem m.receiver_id net.peer_stubs ≡ false) ⊎ (arrives m.receiver_id m.type ≡ true)

pub send_all-Harmless :
    (net : Network) (ms : List NetworkMessage)
    → net.is_client ≡ false
    → All (Sendable net) ms
    → All Harmless (send_all net ms)
unfolding send_all
send_all-Harmless net [] server ok = tt
send_all-Harmless net (m ∷ ms) server (inl own, ok) =
    rw (send_self net m server own) (send_all-Harmless net ms server ok)
send_all-Harmless net (m ∷ ms) server (inr fine, ok) =
    All-append Harmless (send_message net m) (send_all net ms) (send-Harmless net m server fine)
      (send_all-Harmless net ms server ok)
