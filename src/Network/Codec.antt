-- ===== src/Network/Codec.antt =====
-- Which of a message's fields the conversions of Network.cpp carry.
use mathlib.Core.List.{append_assoc, append-nil}
use hawk_txn.Common.{
  ℕ, ◌≡◌, refl, true, false, List, [], ◌∷◌, ◌++◌, ◌==◌, arith, Bool-cases, ap, sym, ◌∙◌, inl, inr,
}
use hawk_txn.Map
use hawk_txn.Map.{Map, IsUnique, contains-assign, key_apart}
use hawk_txn.Types.{TransactionId, LockMode, shared, exclusive, WfdEdge}
use hawk_txn.Message.{
  NetworkMessageType, unknown, lock_request, lock_response, release_lock_request,
  release_lock_response, pag_request, pag_response, wfg_report, deadlock_resolution,
  abort_transaction_signal, distributed_detection_init, zone_detection_request, zone_wfg_report,
  central_wfg_report_from_zone, path_pushing_probe, client_collect_wfg_request,
  client_collect_wfg_response, client_print_deadlock_request, client_resolve_deadlock_request,
  deadlock_report_to_client, NetworkMessage, blank,
}
use hawk_txn.Network.{
  to_proto_lock_mode, from_proto_lock_mode, convert_wfg_to_proto, convert_proto_wfg_to_internal,
  read_pairs, write_edges, read_edges, body_of, convert_to_proto_message, read_body,
  convert_from_proto_message,
}

lock_mode_back : (mode : LockMode) → from_proto_lock_mode (to_proto_lock_mode mode) ≡ mode
unfolding from_proto_lock_mode to_proto_lock_mode
lock_mode_back shared = refl
lock_mode_back exclusive = refl

pairs_back :
    (ps : List (TransactionId × List TransactionId)) → read_pairs (convert_wfg_to_proto ps) ≡ ps
unfolding read_pairs convert_wfg_to_proto
pairs_back [] = refl
pairs_back ((k, vs) ∷ ps) = ap (λ l. (k, vs) ∷ l) (pairs_back ps)

edges_back : (es : List WfdEdge) → read_edges (write_edges es) ≡ es
unfolding read_edges write_edges
edges_back [] = refl
edges_back (e ∷ es) = ap (λ l. e ∷ l) (edges_back es)

-- A new key goes to the end.
assign_new :
    {V : Type 0} (k : ℕ) (v : V) (m : Map V)
    → Map.contains k m ≡ false
    → Map.assign k v m ≡ m ++ (k, v) ∷ []
unfolding Map.assign
assign_new k v [] h = refl
assign_new k v ((j, w) ∷ m) h = elim (Bool-cases (j == k)) [
  | inl here ↦ absurd (ground (arith, h))
  | inr there ↦ rw (there, Map.assign) (ap (λ l. (j, w) ∷ l) (assign_new k v m (ground (arith, h))))
]

wfg_back :
    (g m : Map (List TransactionId))
    → IsUnique g
    → ((k : TransactionId) → Map.contains k g ≡ true → Map.contains k m ≡ false)
    → convert_proto_wfg_to_internal (convert_wfg_to_proto g) m ≡ m ++ g
unfolding convert_proto_wfg_to_internal convert_wfg_to_proto
wfg_back [] m u apart = sym (append-nil m)
wfg_back ((k, vs) ∷ g) m u apart =
    wfg_back g (Map.assign k vs m) u.1
      (λ x h. contains-assign k x vs m ∙ rw (key_apart k x g u.0 h) (apart x (ground arith)))
    ∙ ap (λ l. l ++ g) (assign_new k vs m (apart k (ground arith)))
    ∙ append_assoc m ((k, vs) ∷ []) g

-- A message with nothing but its type and its ends.
abbrev pub envelope : NetworkMessageType → NetworkMessage → NetworkMessage
envelope type m = record blank { type = type; sender_id = m.sender_id; receiver_id = m.receiver_id }

-- What a message is meant to carry, by its type: the fields named, and no others. The last three
-- types carry nothing, and arrive as UNKNOWN.
abbrev pub carried : NetworkMessageType → NetworkMessage → NetworkMessage
carried unknown m = envelope unknown m
carried lock_request m = record (envelope lock_request m) {
  trans_id = m.trans_id;
  res_id = m.res_id;
  mode = m.mode;
}
carried lock_response m = record (envelope lock_response m) {
  trans_id = m.trans_id;
  res_id = m.res_id;
  granted = m.granted;
}
carried release_lock_request m = record (envelope release_lock_request m) {
  trans_id = m.trans_id;
  res_id = m.res_id;
}
carried release_lock_response m = record (envelope release_lock_response m) {
  trans_id = m.trans_id;
  res_id = m.res_id;
}
carried pag_response m = record (envelope pag_response m) { pag_edges = m.pag_edges }
carried wfg_report m = record (envelope wfg_report m) { wfg_data = m.wfg_data }
carried deadlock_resolution m = record (envelope deadlock_resolution m) {
  deadlocked_transactions = m.deadlocked_transactions;
}
carried abort_transaction_signal m = record (envelope abort_transaction_signal m) {
  deadlocked_transactions = m.deadlocked_transactions;
}
carried distributed_detection_init m = record (envelope distributed_detection_init m) {
  detection_zones = m.detection_zones;
  detection_zone_leaders = m.detection_zone_leaders;
}
carried zone_detection_request m = record (envelope zone_detection_request m) {
  central_node_id = m.central_node_id;
  zone_members = m.zone_members;
}
carried zone_wfg_report m = record (envelope zone_wfg_report m) {
  wfg_data_pairs = m.wfg_data_pairs;
}
carried central_wfg_report_from_zone m = record (envelope central_wfg_report_from_zone m) {
  wfg_data_pairs = m.wfg_data_pairs;
  detected_cycles = m.detected_cycles;
  deadlock_count = m.deadlock_count;
}
carried path_pushing_probe m = record (envelope path_pushing_probe m) { path = m.path }
carried client_collect_wfg_response m = record (envelope client_collect_wfg_response m) {
  wfg_data = m.wfg_data;
}
carried client_resolve_deadlock_request m = record (envelope client_resolve_deadlock_request m) {
  victim_trans_id = m.victim_trans_id;
}
carried deadlock_report_to_client m = record (envelope deadlock_report_to_client m) {
  detected_cycles = m.detected_cycles;
  deadlock_count = m.deadlock_count;
}
carried pag_request m = envelope unknown m
carried client_collect_wfg_request m = envelope unknown m
carried client_print_deadlock_request m = envelope unknown m

-- By each type: what is written and read back.
read_back :
    (type : NetworkMessageType) (m : NetworkMessage)
    → IsUnique m.wfg_data
    → read_body (body_of type m).0 (body_of type m).1 (envelope (body_of type m).0 m)
      ≡ carried type m
unfolding read_body body_of
read_back unknown m u = refl
read_back lock_request m u = rw (lock_mode_back m.mode)
read_back lock_response m u = refl
read_back release_lock_request m u = refl
read_back release_lock_response m u = refl
read_back pag_request m u = refl
read_back pag_response m u = rw (edges_back m.pag_edges)
read_back wfg_report m u = rw (wfg_back m.wfg_data [] u (λ k h. refl))
read_back deadlock_resolution m u = refl
read_back abort_transaction_signal m u = refl
read_back distributed_detection_init m u = refl
read_back zone_detection_request m u = refl
read_back zone_wfg_report m u = rw (pairs_back m.wfg_data_pairs)
read_back central_wfg_report_from_zone m u = rw (pairs_back m.wfg_data_pairs)
read_back path_pushing_probe m u = refl
read_back client_collect_wfg_request m u = refl
read_back client_collect_wfg_response m u = rw (wfg_back m.wfg_data [] u (λ k h. refl))
read_back client_print_deadlock_request m u = refl
read_back client_resolve_deadlock_request m u = refl
read_back deadlock_report_to_client m u = refl

-- A message written for the wire and read back is its type, its ends and the fields that its type
-- is meant to carry, if each transaction stands once in its graph; a PAG_REQUEST, a
-- CLIENT_COLLECT_WFG_REQUEST and a CLIENT_PRINT_DEADLOCK_REQUEST come back as UNKNOWN.
pub round_trip :
    (m : NetworkMessage)
    → IsUnique m.wfg_data
    → convert_from_proto_message (convert_to_proto_message m) ≡ carried m.type m
unfolding convert_from_proto_message convert_to_proto_message
round_trip m u = read_back m.type m u
