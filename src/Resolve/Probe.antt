-- ===== src/Resolve/Probe.antt =====
-- handlePathPushingProbe of DistributedDBNode.cpp: a probe that follows the first holder of the
-- resource that the last transaction of its path waits for.
use hawk_txn.Common.{
  ◌≡◌, ◌≢◌, refl, Bool, true, false, not, ◌&&◌, Option, some, none, List, [], ◌∷◌, ◌++◌, ◌==◌,
  if◌then◌else◌, ◌>>=◌, elem, last?, arith, Bool-cases, inl, inr, Option-cases,
}
use hawk_txn.Types.{NodeId, TransactionId}
use hawk_txn.Message.{NetworkMessage, blank, path_pushing_probe}
use hawk_txn.Resource.{Holders, get_resource_holders}
use hawk_txn.Transaction.{
  TransactionManager, get_transaction, is_blocked, get_transaction_home_node,
}
use hawk_txn.Resolve.{candidates_of, select_victim, abort_victim, report_message}

abbrev pub probe_message : NodeId → NodeId → List TransactionId → NetworkMessage
probe_message sender home path = record blank {
  type = path_pushing_probe;
  sender_id = sender;
  receiver_id = home;
  path = path;
}

-- The second half, from the first of the holders on.
unfoldable pub push_probe :
    Bool → TransactionManager → List TransactionId → Holders → Option (List NetworkMessage)
unfolding select_victim abort_victim
push_probe central tm path [] = some []
push_probe central tm path ((x, mode) ∷ hs) = elim (elem x path) [
  | true ↦ do
    victim ← select_victim (path ++ x ∷ []) []
    some (
        abort_victim tm victim
        ++ (if central then report_message tm.node_id ((path ++ x ∷ []) ∷ []) ∷ [] else []))
  | false ↦ some (
      if get_transaction_home_node tm x == 0
      then []
      else probe_message tm.node_id (get_transaction_home_node tm x) (path ++ x ∷ []) ∷ [])
]

-- handlePathPushingProbe
unfoldable pub handle_path_pushing_probe :
    Bool → TransactionManager → List TransactionId → Option (List NetworkMessage)
unfolding push_probe
handle_path_pushing_probe central tm path = elim (last? path) [
  | none ↦ some []
  | some t ↦ elim (get_transaction tm t) [
    | none ↦ some []
    | some trans ↦ elim (is_blocked trans.status && not (trans.waiting_for_resource_id == 0)) [
      | false ↦ some []
      | true ↦
          push_probe central tm path
            (get_resource_holders tm.resource_manager trans.waiting_for_resource_id)
    ]
  ]
]

pub no_frequencies :
    (path : List TransactionId) (x : TransactionId) → select_victim (path ++ x ∷ []) [] ≡ none
unfolding select_victim candidates_of
no_frequencies [] x = refl
no_frequencies (t ∷ path) x = refl

-- The transaction that blocks the last one of a path, as far as this node knows: the first holder of the
-- resource that it waits for.
abbrev pub first_holder : Holders → Option TransactionId
first_holder [] = none
first_holder ((x, mode) ∷ hs) = some x

abbrev pub blocker : TransactionManager → List TransactionId → Option TransactionId
blocker tm path = do
  t ← last? path
  trans ← get_transaction tm t
  (if is_blocked trans.status && not (trans.waiting_for_resource_id == 0)
      then first_holder (get_resource_holders tm.resource_manager trans.waiting_for_resource_id)
      else none)

-- The probe that goes on to the home of `x`.
abbrev pub IsProbeOn :
    TransactionManager → List TransactionId → TransactionId → NetworkMessage → Type 0
IsProbeOn tm path x m =
    (m.type ≡ path_pushing_probe)
    × (m.sender_id ≡ tm.node_id)
    × (m.receiver_id ≡ get_transaction_home_node tm x)
    × (m.path ≡ path ++ x ∷ [])

-- What becomes of a probe.
pub data Probed (tm : TransactionManager) (path : List TransactionId)
    : Option (List NetworkMessage) → Type 0 where
  ends : blocker tm path ≡ none → Probed tm path (some [])
  throws : (x : TransactionId) → blocker tm path ≡ some x → elem x path ≡ true → Probed tm path none
  lost :
      (x : TransactionId)
      → blocker tm path ≡ some x
      → elem x path ≡ false
      → get_transaction_home_node tm x ≡ 0
      → Probed tm path (some [])
  pushed :
      (x : TransactionId) (m : NetworkMessage)
      → blocker tm path ≡ some x
      → elem x path ≡ false
      → get_transaction_home_node tm x ≢ 0
      → IsProbeOn tm path x m
      → Probed tm path (some (m ∷ []))

push_probe-Probed :
    (central : Bool) (tm : TransactionManager) (path : List TransactionId) (hs : Holders)
    → blocker tm path ≡ first_holder hs
    → Probed tm path (push_probe central tm path hs)
unfolding push_probe
push_probe-Probed central tm path [] e = ends e
push_probe-Probed central tm path ((x, mode) ∷ hs) e = elim (Bool-cases (elem x path)) [
  | inl cycle ↦ rw (cycle, push_probe) (rw (no_frequencies path x) (throws x e cycle))
  | inr open_path ↦
      rw (open_path, push_probe)
        (elim (Bool-cases (get_transaction_home_node tm x == 0)) [
          | inl away ↦ rw away (lost x e open_path (ground arith))
          | inr known ↦ rw known (pushed x _ e open_path (ground arith) (refl, refl, refl, refl))
        ])
]

-- For every path, on every node: the probe ends where the last transaction of the path is not active, not
-- blocked, waits for no resource or for one that nobody holds. If the first holder of that resource is
-- on the path, a cycle, the handler throws, and nobody is chosen as a victim, on the central node as well.
-- Else the handler makes one message, a probe with the path and the holder at its end, addressed to the
-- home of the holder, or none if this node does not know its home.
pub probe_lem :
    (central : Bool) (tm : TransactionManager) (path : List TransactionId)
    → Probed tm path (handle_path_pushing_probe central tm path)
unfolding handle_path_pushing_probe
probe_lem central tm path = elim (Option-cases (last? path)) [
  | inl e ↦ rw (e, handle_path_pushing_probe) (ends (rw e refl))
  | inr (t, e) ↦
      rw (e, handle_path_pushing_probe)
        (elim (Option-cases (get_transaction tm t)) [
          | inl gone ↦ rw gone (ends (rw e (rw gone refl)))
          | inr (trans, there) ↦
              rw there
                (elim (Bool-cases
                  (is_blocked trans.status && not (trans.waiting_for_resource_id == 0))) [
                    | inr idle ↦ rw idle (ends (rw e (rw there (rw idle refl))))
                    | inl waits ↦
                        rw waits
                          (push_probe-Probed central tm path _ (rw e (rw there (rw waits refl))))
                  ])
        ])
]
