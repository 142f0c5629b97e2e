-- ===== src/LockTable/Waits.antt =====
-- The local wait-for graph of LockTable.cpp in terms of holders and queues.
use hawk_txn.Common.{
  ◌≡◌, ◌≢◌, ◌↔◌, refl, true, false, some, none, List, [], ◌∷◌, ◌==◌, arith, head?, ◌<◌, List-cases,
  Bool-cases, Option-cases, ap, sym, ◌∙◌, inl, inr, elem, is_empty, ==_refl, some_inj,
}
use hawk_txn.Map
use hawk_txn.Map.{Map, get_or-push_back, contains-true, find?-contains}
use hawk_txn.Types.{TransactionId, ResourceId, get_owner_node_id}
use hawk_txn.Resource.{
  Holders, get_resource_holders, holds, get_resource_waiting_queue, get_local_resources,
}
use hawk_txn.Resource.Waiting.{get_local_resources_lem}
use hawk_txn.Transaction.{TransactionManager, get_transaction_waiting_for}
use hawk_txn.LockTable.{front_waiter, build_local_wait_for_graph}
use hawk_txn.LockTable.Edges.{has_edge, blocks, blocks-none, blocks_one, add_resources_lem}

-- `u` waits for `v` on the resource.
pub record WaitsOn (tm : TransactionManager) (u v : TransactionId) (r : ResourceId) : Type 0 where
  pub owned : get_owner_node_id r ≡ tm.resource_manager.node_id
  pub positive : 0 < r
  pub first : head? (get_resource_waiting_queue tm.resource_manager r) ≡ some u
  pub waiting : get_transaction_waiting_for tm u ≡ r
  pub holder : holds tm.resource_manager v r ≢ none
  pub apart : v ≢ u

blocks_one_iff :
    (tm : TransactionManager) (u v : TransactionId) (rs : List ResourceId)
    → (blocks_one tm u v rs ≡ true)
      ↔ ((r : ResourceId) × (elem r rs ≡ true) × (blocks tm u v r ≡ true))
blocks_one_iff tm u v [] = ((λ h. absurd (cc h)), (λ x. absurd (cc x.1)))
blocks_one_iff tm u v (r ∷ rs) =
    let (to, from) = blocks_one_iff tm u v rs in
    (
      λ h. elim (Bool-cases (blocks tm u v r)) [
        | inl here ↦ (r, ground arith, here)
        | inr there ↦ let (q, listed, b) = to (ground arith) in (q, ground arith, b)
      ],
      λ x. elim (Bool-cases (r == x.0)) [
        | inl same ↦
            let e : x.0 ≡ r = ground arith in
            let here : blocks tm u v r ≡ true = ap (blocks tm u v) (sym e) ∙ x.2 in ground arith
        | inr other ↦ let rest = from (x.0, ground (arith, x.1), x.2) in ground (arith, rest)
      ],
    )

front_waiter-some :
    (tm : TransactionManager) (r : ResourceId) (w : TransactionId)
    → front_waiter tm r ≡ some w
    → (head? (get_resource_waiting_queue tm.resource_manager r) ≡ some w)
      × (get_transaction_waiting_for tm w ≡ r)
unfolding front_waiter
front_waiter-some tm r w h = elim (List-cases (get_resource_holders tm.resource_manager r)) [
  | inl free ↦ absurd (cc (rw (free, front_waiter) at h))
  | inr (k, hs, held) ↦ elim (List-cases (get_resource_waiting_queue tm.resource_manager r)) [
    | inl calm ↦ absurd (cc (rw calm at (rw (held, front_waiter) at h)))
    | inr (x, ws, queue) ↦
        let g = rw queue at (rw (held, front_waiter) at h) in
        elim (Bool-cases (get_transaction_waiting_for tm x == r)) [
          | inr other ↦ absurd (cc (rw other at g))
          | inl here ↦
              let same : x ≡ w = some_inj (rw here at g) in
              (
                ap head? queue ∙ ap some same,
                ap (get_transaction_waiting_for tm) (sym same) ∙ ground (arith, here),
              )
        ]
  ]
]

front_waiter-of :
    (tm : TransactionManager) (r : ResourceId) (w : TransactionId)
    → is_empty (get_resource_holders tm.resource_manager r) ≡ false
    → head? (get_resource_waiting_queue tm.resource_manager r) ≡ some w
    → get_transaction_waiting_for tm w ≡ r
    → front_waiter tm r ≡ some w
unfolding front_waiter
front_waiter-of tm r w held first waits =
    elim (List-cases (get_resource_holders tm.resource_manager r)) [
      | inl free ↦ absurd (cc (held, ap is_empty free))
      | inr (k, hs, e) ↦ elim (List-cases (get_resource_waiting_queue tm.resource_manager r)) [
        | inl calm ↦ absurd (cc (first, ap head? calm))
        | inr (x, ws, queue) ↦
            let same : x ≡ w = some_inj (sym (ap head? queue) ∙ first) in
            let here : (get_transaction_waiting_for tm x == r) ≡ true =
              ap (λ i. get_transaction_waiting_for tm i == r) same
              ∙ ap (λ q. q == r) waits
              ∙ ==_refl r in
            rw (e, front_waiter) (rw queue (rw here (ap some same)))
      ]
    ]

blocks-WaitsOn :
    (tm : TransactionManager) (u v : TransactionId) (r : ResourceId)
    → get_owner_node_id r ≡ tm.resource_manager.node_id
    → 0 < r
    → blocks tm u v r ≡ true
    → WaitsOn tm u v r
blocks-WaitsOn tm u v r own pos_r h = elim (Option-cases (front_waiter tm r)) [
  | inl e ↦ absurd (cc (blocks-none tm u v r e, h))
  | inr (w, e) ↦
      let g = rw (e, blocks) at h in
      let (first, waits) = front_waiter-some tm r w e in
      let same : w ≡ u = ground (arith, g) in
      let (mode, there) =
        contains-true v (get_resource_holders tm.resource_manager r) (ground (arith, g)) in
      record {
        owned = own;
        positive = pos_r;
        first = first ∙ ap some same;
        waiting = ap (get_transaction_waiting_for tm) (sym same) ∙ waits;
        holder = λ gone. cc (there, gone);
        apart = ground (arith, g);
      }
]

nonempty : (hs : Holders) (v : TransactionId) → Map.contains v hs ≡ true → is_empty hs ≡ false
nonempty [] v h = cc h
nonempty (x ∷ hs) v h = refl

WaitsOn-blocks :
    (tm : TransactionManager) (u v : TransactionId) (r : ResourceId)
    → WaitsOn tm u v r
    → blocks tm u v r ≡ true
WaitsOn-blocks tm u v r w =
    elim (Bool-cases (Map.contains v (get_resource_holders tm.resource_manager r))) [
      | inr free ↦
          absurd (w.holder (find?-contains v (get_resource_holders tm.resource_manager r) free))
      | inl held ↦
          rw
            (
              front_waiter-of tm r u (nonempty (get_resource_holders tm.resource_manager r) v held)
                  w.first w.waiting,
              blocks,
            )
            (ground (arith, held, ==_refl u, w.apart))
    ]

-- On a node with an id above 0, the local wait-for graph has an edge exactly where, on some
-- resource of the node, the waiter is at the front of the queue, has that resource as the one it
-- waits for, and the other is a holder and not the waiter itself.
pub local_graph_lem :
    (tm : TransactionManager) (u v : TransactionId)
    → 0 < tm.resource_manager.node_id
    → (has_edge (build_local_wait_for_graph tm) u v ≡ true) ↔ ((r : ResourceId) × WaitsOn tm u v r)
unfolding build_local_wait_for_graph
local_graph_lem tm u v some_node =
    let rs = get_local_resources tm.resource_manager in
    let all = add_resources_lem tm u v rs [] in
    let (to, from) = blocks_one_iff tm u v rs in
    (
      λ h.
          let (r, listed, b) = to (sym all ∙ h) in
          let place = (get_local_resources_lem tm.resource_manager r some_node).0 listed in
          (r, blocks-WaitsOn tm u v r place.1 place.0 b),
      λ x.
          let listed =
            (get_local_resources_lem tm.resource_manager x.0 some_node).1
              (x.1.positive, x.1.owned) in
          all ∙ from (x.0, listed, WaitsOn-blocks tm u v x.0 x.1),
    )
