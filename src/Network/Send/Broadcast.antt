-- ===== src/Network/Send/Broadcast.antt =====
-- Whom broadcastTreeAdjustment of Network.cpp reaches.
use hawk_txn.Common.{
  All, All-mono, ◌≡◌, refl, false, ◌&&◌, not, List, [], ◌∷◌, ◌==◌, if◌then◌else◌, elem, arith,
  Bool-cases, ap, ◌∙◌, inl, inr,
}
use hawk_txn.Types.{NodeId}
use hawk_txn.Resource.{count_up}
use hawk_txn.Network.{
  ProtoMessage, convert_to_proto_message, convert_from_proto_message, body_of, read_body,
}
use hawk_txn.Network.Send.{
  Network, RpcCall, connect_from, connect_to_peers, call_if, tree_adjustment, broadcast_to,
  broadcast_tree_adjustment,
}
use hawk_txn.Network.Send.Delivery.{connect_from_lem}

-- The nodes that some calls go to.
abbrev pub targets : List RpcCall → List NodeId
targets [] = []
targets (c ∷ cs) = c.target ∷ targets cs

-- Those of the nodes that are not the network's own and that it has a stub for.
abbrev pub others : Network → List NodeId → List NodeId
others net [] = []
others net (i ∷ is) =
    if not (i == net.node_id) && elem i net.peer_stubs then i ∷ others net is else others net is

elem-others :
    (net : Network) (is : List NodeId) (x : NodeId)
    → elem x (others net is) ≡ elem x is && (not (x == net.node_id) && elem x net.peer_stubs)
elem-others net [] x = ground arith
elem-others net (i ∷ is) x = elim (Bool-cases (i == x)) [
  | inl here ↦
      let e : i ≡ x = ground arith in
      let listed : elem i net.peer_stubs ≡ elem x net.peer_stubs =
        ap (λ j. elem j net.peer_stubs) e in
      ground (arith, elem-others net is x, listed)
  | inr there ↦ ground (arith, elem-others net is x)
]

broadcast_to_lem :
    (net : Network) (p : ProtoMessage) (is : List NodeId)
    → (targets (broadcast_to net p is) ≡ others net is)
      × All (λ c. c.message ≡ p) (broadcast_to net p is)
unfolding broadcast_to call_if
broadcast_to_lem net p [] = (refl, tt)
broadcast_to_lem net p (i ∷ is) =
    let (reached, same) = broadcast_to_lem net p is in
    elim (Bool-cases (not (i == net.node_id) && elem i net.peer_stubs)) [
      | inl goes ↦ rw (goes, broadcast_to) (ap (λ l. i ∷ l) reached, (refl, same))
      | inr stays ↦ rw (stays, broadcast_to) (reached, same)
    ]

-- The broadcast of a connected node, not a client, reaches each of the nodes 1 to `numNodes` but
-- the node itself, and what each of them decodes has the zones and leaders that were broadcast.
pub broadcast_lem :
    (net : Network) (sender : NodeId) (zones : List (List NodeId)) (leaders : List NodeId)
    → net.is_client ≡ false
    → ((x : NodeId)
        → elem x (targets (broadcast_tree_adjustment (connect_to_peers net) sender zones leaders))
          ≡ elem x (count_up net.num_nodes 1) && not (x == net.node_id))
      × All
          (λ c. convert_from_proto_message c.message ≡ tree_adjustment sender zones leaders)
          (broadcast_tree_adjustment (connect_to_peers net) sender zones leaders)
unfolding broadcast_tree_adjustment connect_to_peers convert_from_proto_message
    convert_to_proto_message body_of read_body
broadcast_lem net sender zones leaders server =
    let c = connect_from net.num_nodes 1 net in
    let p = convert_to_proto_message (tree_adjustment sender zones leaders) in
    let joined : connect_to_peers net ≡ c = rw server refl in
    let (reached, same) = broadcast_to_lem c p (count_up c.num_nodes 1) in
    rw joined (
      λ x.
          let (stubs, home, kind, size) = connect_from_lem net.num_nodes 1 x net in
          let range : elem x (count_up c.num_nodes 1) ≡ elem x (count_up net.num_nodes 1) =
            ap (λ n. elem x (count_up n 1)) size in
          let own : (x == c.node_id) ≡ (x == net.node_id) = ap (λ n. x == n) home in
          ap (elem x) reached
          ∙ elem-others c (count_up c.num_nodes 1) x
          ∙ ground (arith, stubs, range, own),
      All-mono _ _ _ (λ call e. ap convert_from_proto_message e) same,
    )
