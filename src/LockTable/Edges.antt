-- ===== src/LockTable/Edges.antt =====
-- The edges of the local wait-for graph of LockTable.cpp.
use hawk_txn.Common.{
  ◌≡◌, refl, Bool, true, false, not, ◌&&◌, some, none, List, [], ◌∷◌, ◌==◌, if◌then◌else◌, arith,
  Bool-cases, Option-cases, ap, ◌∙◌, inl, inr, elem, elem-append, ◌||◌,
}
use hawk_txn.Map
use hawk_txn.Map.{Map, get_or-push_back, contains-true, find?-contains}
use hawk_txn.Types.{TransactionId, ResourceId}
use hawk_txn.Resource.{Holders, get_resource_holders, get_local_resources}
use hawk_txn.Transaction.{TransactionManager}
use hawk_txn.Detector.{Wfg}
use hawk_txn.LockTable.{
  front_waiter, add_holders, add_resources, build_local_wait_for_graph, add_active_holders,
  add_active_resources, build_and_prune_local_wait_for_graph,
}

-- `u` waits for `v` by the graph.
abbrev pub has_edge : Wfg → TransactionId → TransactionId → Bool
has_edge g u v = elem v (Map.get_or u [] g)

pub has_edge-push_back :
    (w h u v : TransactionId) (g : Wfg)
    → has_edge (Map.push_back w h g) u v ≡ has_edge g u v || (w == u && h == v)
has_edge-push_back w h u v g =
    ap (elem v) (get_or-push_back w u h g)
    ∙ elem-append v (Map.get_or u [] g) (if w == u then h ∷ [] else [])
    ∙ ground arith

pub same_elem :
    (h v : TransactionId) (xs : List TransactionId) → (h == v) ≡ true → elem h xs ≡ elem v xs
same_elem h v xs e = let p : h ≡ v = ground arith in ap (λ i. elem i xs) p

add_active_holders_lem :
    (active : List TransactionId) (w u v : TransactionId) (hs : Holders) (g : Wfg)
    → has_edge (add_active_holders active w hs g) u v
      ≡ has_edge g u v || (w == u && (not (v == u) && Map.contains v hs)) && elem v active
unfolding add_active_holders
add_active_holders_lem active w u v [] g = ground arith
add_active_holders_lem active w u v ((h, mode) ∷ hs) g =
    elim (Bool-cases (not (h == w) && elem h active)) [
      | inl counts ↦
          rw (counts, add_active_holders)
            (add_active_holders_lem active w u v hs (Map.push_back w h g)
              ∙ rw (has_edge-push_back w h u v g) (ground (arith, same_elem h v active)))
      | inr out ↦
          rw (out, add_active_holders)
            (add_active_holders_lem active w u v hs g ∙ ground (arith, same_elem h v active))
    ]

add_holders_lem :
    (w u v : TransactionId) (hs : Holders) (g : Wfg)
    → has_edge (add_holders w hs g) u v
      ≡ has_edge g u v || (w == u && (not (v == u) && Map.contains v hs))
unfolding add_holders
add_holders_lem w u v [] g = ground arith
add_holders_lem w u v ((h, mode) ∷ hs) g = elim (Bool-cases (h == w)) [
  | inl own ↦ rw (own, add_holders) (add_holders_lem w u v hs g ∙ ground arith)
  | inr other ↦
      rw (other, add_holders)
        (add_holders_lem w u v hs (Map.push_back w h g)
          ∙ rw (has_edge-push_back w h u v g) (ground arith))
]

-- The resource makes `u` wait for `v`.
abbrev pub blocks : TransactionManager → TransactionId → TransactionId → ResourceId → Bool
blocks tm u v r = elim (front_waiter tm r) [
  | none ↦ false
  | some w ↦ w == u && (not (v == u) && Map.contains v (get_resource_holders tm.resource_manager r))
]

pub blocks-none :
    (tm : TransactionManager) (u v : TransactionId) (r : ResourceId)
    → front_waiter tm r ≡ none
    → blocks tm u v r ≡ false
blocks-none tm u v r e = rw (e, blocks) refl

-- One of the resources does.
abbrev pub blocks_one : TransactionManager → TransactionId → TransactionId → List ResourceId → Bool
blocks_one tm u v [] = false
blocks_one tm u v (r ∷ rs) = blocks tm u v r || blocks_one tm u v rs

pub add_resources_lem :
    (tm : TransactionManager) (u v : TransactionId) (rs : List ResourceId) (g : Wfg)
    → has_edge (add_resources tm rs g) u v ≡ has_edge g u v || blocks_one tm u v rs
unfolding add_resources
add_resources_lem tm u v [] g = ground arith
add_resources_lem tm u v (r ∷ rs) g = elim (Option-cases (front_waiter tm r)) [
  | inl e ↦
      rw (e, add_resources) (add_resources_lem tm u v rs g ∙ ground (arith, blocks-none tm u v r e))
  | inr (w, e) ↦
      let hs = get_resource_holders tm.resource_manager r in
      rw (e, add_resources)
        (add_resources_lem tm u v rs (add_holders w hs g)
          ∙ rw (add_holders_lem w u v hs g) (ground arith))
]

add_active_resources_lem :
    (active : List TransactionId) (tm : TransactionManager) (u v : TransactionId)
    (rs : List ResourceId) (g : Wfg)
    → has_edge (add_active_resources active tm rs g) u v
      ≡ has_edge g u v || (blocks_one tm u v rs && (elem u active && elem v active))
unfolding add_active_resources
add_active_resources_lem active tm u v [] g = ground arith
add_active_resources_lem active tm u v (r ∷ rs) g = elim (Option-cases (front_waiter tm r)) [
  | inl e ↦
      rw (e, add_active_resources)
        (add_active_resources_lem active tm u v rs g ∙ ground (arith, blocks-none tm u v r e))
  | inr (w, e) ↦
      let hs = get_resource_holders tm.resource_manager r in
      elim (Bool-cases (elem w active)) [
        | inl counts ↦
            rw (e, add_active_resources)
              (rw counts (
                add_active_resources_lem active tm u v rs (add_active_holders active w hs g)
                ∙ rw (add_active_holders_lem active w u v hs g)
                    (ground (arith, same_elem w u active))))
        | inr out ↦
            rw (e, add_active_resources)
              (rw out (
                add_active_resources_lem active tm u v rs g ∙ ground (arith, same_elem w u active)))
      ]
]

-- The graph of buildAndPruneLocalWaitForGraph has exactly the edges of that of
-- buildLocalWaitForGraph between active transactions.
pub prune_lem :
    (active : List TransactionId) (tm : TransactionManager) (u v : TransactionId)
    → has_edge (build_and_prune_local_wait_for_graph active tm) u v
      ≡ has_edge (build_local_wait_for_graph tm) u v && (elem u active && elem v active)
unfolding build_and_prune_local_wait_for_graph build_local_wait_for_graph
prune_lem active tm u v =
    let rs = get_local_resources tm.resource_manager in
    add_active_resources_lem active tm u v rs [] ∙ rw (add_resources_lem tm u v rs []) refl
