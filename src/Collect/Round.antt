-- ===== src/Collect/Round.antt =====
-- A round of reports in DistributedDBNode.cpp, and the aborts that follow it.
use hawk_txn.Common.{
  All, ℕ, ◌+◌, ◌<◌, ◌≡◌, refl, Bool, true, false, ◌||◌, Option, some, none, List, [], ◌∷◌, ◌++◌,
  ◌==◌, if◌then◌else◌, ◌>>=◌, leb, elem, length, arith, Bool-cases, Option-cases, inl, inr, ap, sym,
  ◌∙◌,
}
use hawk_txn.Common.Int.{ℤ}
use hawk_txn.Map.{IsUnique, find?-erase}
use hawk_txn.Types.{TransactionId}
use hawk_txn.Message.{NetworkMessage}
use hawk_txn.Transaction.{TransactionManager, get_transaction, abort_transaction, finish}
use hawk_txn.Detector.{Wfg}
use hawk_txn.LockTable.Edges.{has_edge}
use hawk_txn.Resolve.{merge_wfg, convert_wfg_to_message_format, check_and_resolve_deadlocks}
use hawk_txn.Resolve.Merge.{merge_report_lem}
use hawk_txn.Collect.{Collector, count_report, search_due, handle_wfg_report, abort_all}

-- The reports of some nodes, one after the other, with the messages that they lead to.
unfoldable pub handle_all :
    ℕ → ℕ → TransactionManager → Collector → List Wfg → Option (Collector × List NetworkMessage)
unfolding handle_wfg_report search_due
handle_all w fuel tm c [] = some (c, [])
handle_all w fuel tm c (g ∷ gs) = do
  (c', ms) ← handle_wfg_report w fuel true tm c g
  (c'', ms') ← handle_all w fuel tm c' gs
  some (c'', ms ++ ms')

-- One of the reports has the edge.
abbrev pub reported : TransactionId → TransactionId → List Wfg → Bool
reported u v [] = false
reported u v (g ∷ gs) = has_edge g u v || reported u v gs

count_due :
    (c : Collector) (pairs : List (TransactionId × List TransactionId))
    → leb c.wfg_reports_expected (c.wfg_reports_received + 1) ≡ true
    → count_report c pairs ≡ (
      record c { aggregated_wfg = []; wfg_reports_received = 0 },
      some (merge_wfg c.aggregated_wfg pairs),
    )
unfolding count_report
count_due c pairs due = rw (due, count_report) refl

count_early :
    (c : Collector) (pairs : List (TransactionId × List TransactionId))
    → leb c.wfg_reports_expected (c.wfg_reports_received + 1) ≡ false
    → count_report c pairs ≡ (
      record c {
        aggregated_wfg = merge_wfg c.aggregated_wfg pairs;
        wfg_reports_received = c.wfg_reports_received + 1;
      },
      none,
    )
unfolding count_report
count_early c pairs early = rw (early, count_report) refl

handle_due :
    (w fuel : ℕ) (tm : TransactionManager) (c : Collector) (g : Wfg)
    → leb c.wfg_reports_expected (c.wfg_reports_received + 1) ≡ true
    → handle_wfg_report w fuel true tm c g ≡ (
        check_and_resolve_deadlocks w fuel true tm
          (merge_wfg c.aggregated_wfg (convert_wfg_to_message_format g))
        >>= (λ ms. some (record c { aggregated_wfg = []; wfg_reports_received = 0 }, ms)))
unfolding handle_wfg_report search_due
handle_due w fuel tm c g due =
    ap (search_due w fuel tm) (count_due c (convert_wfg_to_message_format g) due)

handle_early :
    (w fuel : ℕ) (tm : TransactionManager) (c : Collector) (g : Wfg)
    → leb c.wfg_reports_expected (c.wfg_reports_received + 1) ≡ false
    → handle_wfg_report w fuel true tm c g
      ≡ some (
        record c {
          aggregated_wfg = merge_wfg c.aggregated_wfg (convert_wfg_to_message_format g);
          wfg_reports_received = c.wfg_reports_received + 1;
        },
        [],
      )
unfolding handle_wfg_report search_due
handle_early w fuel tm c g early =
    ap (search_due w fuel tm) (count_early c (convert_wfg_to_message_format g) early)

-- On the central node, let each transaction stand once in each report, and let as many reports as are
-- expected come in after one another. Nothing is sent before the last of them; then the graph with
-- all edges reported in the round, and no others than those there were before, is searched and its
-- deadlocks are resolved, and the node is ready for the next round.
pub round_lem :
    (w fuel : ℕ) (tm : TransactionManager) (c : Collector) (gs : List Wfg)
    → All IsUnique gs
    → 0 < length gs
    → c.wfg_reports_received + length gs ≡ c.wfg_reports_expected
    → (merged : Wfg) × (handle_all w fuel tm c gs ≡ (
        check_and_resolve_deadlocks w fuel true tm merged
        >>= (λ ms. some (record c { aggregated_wfg = []; wfg_reports_received = 0 }, ms ++ []))))
      × ((u v : TransactionId)
          → has_edge merged u v ≡ has_edge c.aggregated_wfg u v || reported u v gs)
unfolding handle_all
round_lem w fuel tm c [] q some_reports full = absurd (omega (arith, some_reports))
round_lem w fuel tm c (g ∷ []) q some_reports full =
    let merged = merge_wfg c.aggregated_wfg (convert_wfg_to_message_format g) in
    let due : leb c.wfg_reports_expected (c.wfg_reports_received + 1) ≡ true =
      ground (arith, full) in
    (
      merged,
      rw (handle_due w fuel tm c g due, handle_all)
          (elim (Option-cases (check_and_resolve_deadlocks w fuel true tm merged)) [
            | inl e ↦ rw e refl
            | inr (ms, e) ↦ rw e refl
          ]),
      λ u v. merge_report_lem c.aggregated_wfg g u v q.0 ∙ ground arith,
    )
round_lem w fuel tm c (g ∷ h ∷ gs) q some_reports full =
    let early : leb c.wfg_reports_expected (c.wfg_reports_received + 1) ≡ false =
      ground (arith, full) in
    let merged = merge_wfg c.aggregated_wfg (convert_wfg_to_message_format g) in
    let (whole, ran, edges) =
      round_lem w fuel tm
        (record c { aggregated_wfg = merged; wfg_reports_received = c.wfg_reports_received + 1 })
        (h ∷ gs) q.1 (omega arith) (omega (arith, full)) in
    (
      whole,
      rw (handle_early w fuel tm c g early, handle_all)
          (rw ran (elim (Option-cases (check_and_resolve_deadlocks w fuel true tm whole)) [
            | inl e ↦ rw e refl
            | inr (ms, e) ↦ rw e refl
          ])),
      λ u v. edges u v ∙ rw (merge_report_lem c.aggregated_wfg g u v q.0) (ground arith),
    )

after_abort :
    (d : ℤ) (t : TransactionId) (tm : TransactionManager) (u : TransactionId)
    → get_transaction (abort_transaction d t tm).manager u
      ≡ (if t == u then none else get_transaction tm u)
unfolding abort_transaction finish
after_abort d t tm u = elim (Option-cases (get_transaction tm t)) [
  | inr (trans, there) ↦ rw (there, finish) (find?-erase t u tm.active_transactions)
  | inl gone ↦ elim (Bool-cases (t == u)) [
    | inr other ↦ rw (gone, finish) (rw other refl)
    | inl same ↦
        let e : t ≡ u = ground arith in
        rw (gone, finish) (rw same (ap (get_transaction tm) (sym e) ∙ gone))
  ]
]

-- After a message about aborts no transaction that it names is active, and all others are as they were.
abort_all_lem :
    (d : ℤ) (ts : List TransactionId) (tm : TransactionManager) (u : TransactionId)
    → get_transaction (abort_all d ts tm) u ≡ (if elem u ts then none else get_transaction tm u)
unfolding abort_all
abort_all_lem d [] tm u = refl
abort_all_lem d (t ∷ ts) tm u =
    abort_all_lem d ts (abort_transaction d t tm).manager u ∙ ground (arith, after_abort d t tm u)
