-- ===== src/Resolve/Abort.antt =====
-- checkAndResolveDeadlocks of DistributedDBNode.cpp: every cycle found has a victim, which is aborted.
use mathlib.Core.List.{Memᴰ}
use mathlib.Core.List.Memᴰ
use hawk_txn.Common.{
  All, All-mono, ℕ, ◌≤◌, ◌<◌, ◌≡◌, refl, Bool, true, false, some, List, [], ◌∷◌, ◌++◌, ◌==◌,
  if◌then◌else◌, elem, is_empty, length, arith, Bool-cases, inl, inr, ◌⊎◌,
}
use hawk_txn.Map
use hawk_txn.Map.{Map, get_or-contains}
use hawk_txn.Types.{TransactionId}
use hawk_txn.Common.Int.{pos}
use hawk_txn.Message.{NetworkMessage, abort_transaction_signal, deadlock_report_to_client}
use hawk_txn.Transaction.{TransactionManager, get_active_transactions, get_transaction_home_node}
use hawk_txn.Detector.{Wfg, find_cycles}
use hawk_txn.Detector.Graph.{Edge, IsCycle}
use hawk_txn.Detector.Sound.{find_cycles_sound, occurrences, occurrences_all}
use hawk_txn.Resolve.{
  prune_graph, abort_message, abort_victim, resolve_cycles, report_message,
  check_and_resolve_deadlocks,
}
use hawk_txn.Resolve.Victim.{select_victim_lem}

-- A message that tells the home of a transaction to abort it, and nobody else.
abbrev pub IsAbortOf : TransactionManager → TransactionId → NetworkMessage → Type 0
IsAbortOf tm v m =
    (m.type ≡ abort_transaction_signal)
    × (m.sender_id ≡ tm.node_id)
    × (m.receiver_id ≡ get_transaction_home_node tm v)
    × (m.deadlocked_transactions ≡ v ∷ [])

-- A member of the cycle is named in such a message, unless this node does not know its home.
abbrev pub IsBroken : TransactionManager → List NetworkMessage → List TransactionId → Type 0
IsBroken tm ms cycle =
    (v : TransactionId) × (elem v cycle ≡ true)
    × ((get_transaction_home_node tm v ≡ 0) ⊎ ((m : NetworkMessage) × Memᴰ m ms × IsAbortOf tm v m))

-- The report of cycles to the client 0.
abbrev pub IsReportOf : TransactionManager → List (List TransactionId) → NetworkMessage → Type 0
IsReportOf tm cycles m =
    (m.type ≡ deadlock_report_to_client)
    × (m.sender_id ≡ tm.node_id)
    × (m.receiver_id ≡ 0)
    × (m.detected_cycles ≡ cycles)
    × (m.deadlock_count ≡ pos (length cycles))

occurs :
    (x : TransactionId) (cycle : List TransactionId) → elem x cycle ≡ true → 0 < occurrences x cycle
occurs x [] h = absurd (cc h)
occurs x (y ∷ cycle) h = ground (arith, occurs x cycle)

-- The frequencies cover the places in the cycles.
abbrev Covered : Map ℕ → List (List TransactionId) → Type 0
Covered freq cycles = (x : TransactionId) → occurrences_all x cycles ≤ Map.get_or x 0 freq

known_member :
    (freq : Map ℕ) (cycle : List TransactionId) (cycles : List (List TransactionId))
    (x : TransactionId)
    → Covered freq (cycle ∷ cycles)
    → elem x cycle ≡ true
    → Map.contains x freq ≡ true
known_member freq cycle cycles x c m = elim (Bool-cases (Map.contains x freq)) [
  | inl known ↦ known
  | inr gone ↦ absurd (omega (arith, occurs x cycle m, c x, get_or-contains x 0 freq gone))
]

abort_victim_lem :
    (tm : TransactionManager) (v : TransactionId) (rest : List NetworkMessage)
    → (get_transaction_home_node tm v ≡ 0)
      ⊎ ((m : NetworkMessage) × Memᴰ m (abort_victim tm v ++ rest) × IsAbortOf tm v m)
unfolding abort_victim
abort_victim_lem tm v rest = elim (Bool-cases (get_transaction_home_node tm v == 0)) [
  | inl away ↦ inl (ground arith)
  | inr home ↦ inr (
    abort_message tm.node_id (get_transaction_home_node tm v) v,
    rw (home, abort_victim) (Memᴰ.head refl),
    (refl, refl, refl, refl),
  )
]

IsBroken-more :
    (tm : TransactionManager) (first ms : List NetworkMessage) (cycle : List TransactionId)
    → IsBroken tm ms cycle
    → IsBroken tm (first ++ ms) cycle
IsBroken-more tm first ms cycle (v, m, inl away) = (v, m, inl away)
IsBroken-more tm first ms cycle (v, m, inr (a, sent, is)) =
    (v, m, inr (a, Memᴰ.append_right first sent, is))

resolve_cycles_lem :
    (tm : TransactionManager) (freq : Map ℕ) (cycles : List (List TransactionId))
    → All (λ c. is_empty c ≡ false) cycles
    → Covered freq cycles
    → (ms : List NetworkMessage) × (resolve_cycles tm freq cycles ≡ some ms)
      × All (IsBroken tm ms) cycles
unfolding resolve_cycles
resolve_cycles_lem tm freq [] full c = ([], refl, tt)
resolve_cycles_lem tm freq (cycle ∷ cycles) full c =
    let (v, n, picked, member, _, _) =
      select_victim_lem cycle freq full.0 (λ x m. known_member freq cycle cycles x c m) in
    let (ms, ran, broken) = resolve_cycles_lem tm freq cycles full.1 (λ x. omega (arith, c x)) in
    (
      abort_victim tm v ++ ms,
      rw (picked, resolve_cycles) (rw ran refl),
      (
        (v, member, abort_victim_lem tm v ms),
        All-mono _ _ cycles (λ x b. IsBroken-more tm (abort_victim tm v) ms x b) broken,
      ),
    )

nonempty_of_IsCycle : (g : Wfg) (c : List TransactionId) → IsCycle g c → is_empty c ≡ false
nonempty_of_IsCycle g [] h = absurd (cc (h.head))
nonempty_of_IsCycle g (x ∷ c) h = refl

-- If the search of the pruned graph, in which nobody waits for 0, returns, so does
-- checkAndResolveDeadlocks. All cycles found are deadlocks of the pruned graph. Of each, a member is named
-- in a message of type ABORT_TRANSACTION_SIGNAL, alone, that is addressed to its home, unless this node
-- does not know its home; on the central node one more message, addressed to the client 0, lists the
-- cycles found and their number.
pub check_and_resolve_lem :
    (w fuel : ℕ) (central : Bool) (tm : TransactionManager) (graph : Wfg)
    (cycles : List (List TransactionId)) (freq : Map ℕ)
    → is_empty (prune_graph (get_active_transactions tm) graph []) ≡ false
    → ((u : TransactionId) → ¬ Edge (prune_graph (get_active_transactions tm) graph []) u 0)
    → find_cycles w fuel (prune_graph (get_active_transactions tm) graph []) ≡ some (cycles, freq)
    → (ms : List NetworkMessage) × (r : NetworkMessage) × (check_and_resolve_deadlocks w fuel
          central tm graph
        ≡ some (ms ++ (if central then r ∷ [] else [])))
      × IsReportOf tm cycles r
      × All (IsBroken tm ms) cycles
      × All (IsCycle (prune_graph (get_active_transactions tm) graph [])) cycles
unfolding check_and_resolve_deadlocks
check_and_resolve_lem w fuel central tm graph cycles freq full no_zero found =
    let pruned = prune_graph (get_active_transactions tm) graph [] in
    let (deadlocks, counted) = find_cycles_sound w pruned no_zero fuel cycles freq found in
    let (ms, ran, broken) =
      resolve_cycles_lem tm freq cycles
        (All-mono _ _ cycles (λ c h. nonempty_of_IsCycle pruned c h) deadlocks)
        (λ x. omega (arith, counted x)) in
    (
      ms,
      report_message tm.node_id cycles,
      rw (full, check_and_resolve_deadlocks) (rw found (rw ran refl)),
      (refl, refl, refl, refl, refl),
      broken,
      deadlocks,
    )
