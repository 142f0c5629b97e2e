-- ===== src/Central/Round.antt =====
-- A round of reports of the zones to the central node (DistributedDBNode.cpp).
use hawk_txn.Common.{
  Bool, ◌||◌, ℕ, ◌+◌, ◌<◌, ◌≡◌, refl, true, false, Option, some, List, [], ◌∷◌, ◌++◌, ◌>>=◌, leb,
  length, arith, ap, sym, ◌∙◌,
}
use mathlib.Core.List.{append_assoc, append-nil}
use hawk_txn.Common.Int.{ℤ, pos, ◌+ℤ◌}
use hawk_txn.Map.{Map}
use hawk_txn.Types.{NodeId, TransactionId}
use hawk_txn.Message.{NetworkMessage, deadlock_report_to_client}
use hawk_txn.Detector.{Wfg, find_cycles}
use hawk_txn.Resolve.{merge_wfg}
use hawk_txn.Resolve.Merge.{listed, merge_wfg_lem}
use hawk_txn.LockTable.Edges.{has_edge}
use hawk_txn.Central.{
  CentralState, add_zone_report, central_report, close_round, close_if_complete,
  handle_central_wfg_report_from_zone,
}

pub record ZoneReport : Type 0 where
  pub pairs : List (TransactionId × List TransactionId)
  pub cycles : List (List TransactionId)
  pub count : ℤ

-- The reports of a round, one after the other, with the messages that they lead to.
unfoldable pub handle_zone_reports :
    ℕ
    → ℕ
    → NodeId
    → ℕ
    → CentralState
    → List ZoneReport
    → Option (CentralState × List NetworkMessage)
unfolding handle_central_wfg_report_from_zone
handle_zone_reports w fuel n num_nodes s [] = some (s, [])
handle_zone_reports w fuel n num_nodes s (r ∷ rs) = do
  (s', ms) ← handle_central_wfg_report_from_zone w fuel true n num_nodes s r.pairs r.cycles r.count
  (s'', ms') ← handle_zone_reports w fuel n num_nodes s' rs
  some (s'', ms ++ ms')

-- The reports one after the other, while the round is open.
abbrev added : CentralState → List ZoneReport → CentralState
added s [] = s
added s (r ∷ rs) = added (add_zone_report r.pairs r.cycles r.count s) rs

-- The graph that the central node has when they are in.
abbrev pub merged : Wfg → List ZoneReport → Wfg
merged g [] = g
merged g (r ∷ rs) = merged (merge_wfg g r.pairs) rs

-- One of the reports lists the edge.
abbrev pub reported : TransactionId → TransactionId → List ZoneReport → Bool
reported u v [] = false
reported u v (r ∷ rs) = listed u v r.pairs || reported u v rs

abbrev pub zone_cycles : List ZoneReport → List (List TransactionId)
zone_cycles [] = []
zone_cycles (r ∷ rs) = r.cycles ++ zone_cycles rs

abbrev pub zone_total : ℤ → List ZoneReport → ℤ
zone_total n [] = n
zone_total n (r ∷ rs) = zone_total (n +ℤ r.count) rs

merged_lem :
    (u v : TransactionId) (rs : List ZoneReport) (g : Wfg)
    → has_edge (merged g rs) u v ≡ has_edge g u v || reported u v rs
merged_lem u v [] g = ground arith
merged_lem u v (r ∷ rs) g =
    merged_lem u v rs (merge_wfg g r.pairs) ∙ rw (merge_wfg_lem u v r.pairs g) (ground arith)

early :
    (w fuel n num_nodes : ℕ) (s : CentralState) (r : ZoneReport)
    → s.central_wfg_reports_received + 1 < num_nodes
    → handle_central_wfg_report_from_zone w fuel true n num_nodes s r.pairs r.cycles r.count
      ≡ some (add_zone_report r.pairs r.cycles r.count s, [])
unfolding handle_central_wfg_report_from_zone close_if_complete
early w fuel n num_nodes s r few =
    let open_round : leb num_nodes
          (add_zone_report r.pairs r.cycles r.count s).central_wfg_reports_received
        ≡ false =
      unfold add_zone_report in ground arith in
    rw (open_round, close_if_complete) refl

all_early :
    (w fuel n num_nodes : ℕ) (s : CentralState) (rs : List ZoneReport)
    → s.central_wfg_reports_received + length rs < num_nodes
    → handle_zone_reports w fuel n num_nodes s rs ≡ some (added s rs, [])
unfolding handle_zone_reports
all_early w fuel n num_nodes s [] few = refl
all_early w fuel n num_nodes s (r ∷ rs) few =
    rw (early w fuel n num_nodes s r (omega (arith, few)), handle_zone_reports)
      (rw
        (all_early w fuel n num_nodes (add_zone_report r.pairs r.cycles r.count s) rs
          (unfold add_zone_report in omega (arith, few)))
        refl)

-- What the open round has.
added_lem :
    (s : CentralState) (rs : List ZoneReport)
    → ((added s rs).central_aggregated_wfg ≡ merged s.central_aggregated_wfg rs)
      × ((added s rs).central_wfg_reports_received ≡ s.central_wfg_reports_received + length rs)
      × ((added s rs).central_deadlock_count ≡ s.central_deadlock_count)
      × ((added s rs).central_detected_cycles ≡ s.central_detected_cycles ++ zone_cycles rs)
      × ((added s rs).total_deadlocks_from_zones ≡ zone_total s.total_deadlocks_from_zones rs)
      × ((added s rs).total_deadlocks_from_central ≡ s.total_deadlocks_from_central)
unfolding add_zone_report
added_lem s [] = (refl, omega arith, refl, sym (append-nil s.central_detected_cycles), refl, refl)
added_lem s (r ∷ rs) =
    let (graph, received, count, cycles, zones, central) =
      added_lem (add_zone_report r.pairs r.cycles r.count s) rs in
    (
      graph,
      omega (arith, received),
      count,
      cycles ∙ append_assoc s.central_detected_cycles r.cycles (zone_cycles rs),
      zones,
      central,
    )

last :
    (w fuel n num_nodes : ℕ) (s : CentralState) (r : ZoneReport)
    → s.central_wfg_reports_received + 1 ≡ num_nodes
    → handle_central_wfg_report_from_zone w fuel true n num_nodes s r.pairs r.cycles r.count ≡ (
        find_cycles w fuel (merge_wfg s.central_aggregated_wfg r.pairs)
        >>= (λ found. some (close_round n found.0 (add_zone_report r.pairs r.cycles r.count s))))
unfolding handle_central_wfg_report_from_zone close_if_complete
last w fuel n num_nodes s r full =
    let complete : leb num_nodes
          (add_zone_report r.pairs r.cycles r.count s).central_wfg_reports_received
        ≡ true =
      unfold add_zone_report in ground arith in
    rw (complete, close_if_complete) refl

added_last :
    (s : CentralState) (rs : List ZoneReport) (r : ZoneReport)
    → added s (rs ++ r ∷ []) ≡ add_zone_report r.pairs r.cycles r.count (added s rs)
added_last s [] r = refl
added_last s (q ∷ rs) r = added_last (add_zone_report q.pairs q.cycles q.count s) rs r

-- A report to the client of cycles and a number.
abbrev pub IsReport : NodeId → List (List TransactionId) → ℕ → NetworkMessage → Type 0
IsReport n cycles count m =
    (m.type ≡ deadlock_report_to_client)
    × (m.sender_id ≡ n)
    × (m.receiver_id ≡ 0)
    × (m.detected_cycles ≡ cycles)
    × (m.deadlock_count ≡ pos count)

-- On the central node, let reports of zones come in, `rs` and then `r`, as many as there are nodes.
-- Nothing is sent about those before the last. The edges of the graph that is then searched are those
-- of the graph from before and those that the reports list. If the search returns, one message is sent
-- about the last report, addressed to the client 0: it lists the cycles from before, those that the
-- zones reported, in order, and then those found here, but gives as their number only that of those
-- found here, added to the count from before. The graph, the counter, the count and the cycles start again; the
-- total of the zones has grown by what they reported and the total of this node by the number found here.
pub zone_round_lem :
    (w fuel : ℕ) (n : NodeId) (num_nodes : ℕ) (s : CentralState) (rs : List ZoneReport)
    (r : ZoneReport) (found : List (List TransactionId)) (freq : Map ℕ)
    → s.central_wfg_reports_received + length rs + 1 ≡ num_nodes
    → find_cycles w fuel (merged s.central_aggregated_wfg (rs ++ r ∷ [])) ≡ some (found, freq)
    → (open_round : CentralState) × (m : NetworkMessage) × (handle_zone_reports w fuel n num_nodes s
          rs
        ≡ some (open_round, []))
      × (handle_central_wfg_report_from_zone w fuel true n num_nodes open_round r.pairs r.cycles
            r.count
          ≡ some (
            record {
              central_aggregated_wfg = [];
              central_wfg_reports_received = 0;
              central_deadlock_count = 0;
              central_detected_cycles = [];
              total_deadlocks_from_zones = zone_total s.total_deadlocks_from_zones (rs ++ r ∷ []);
              total_deadlocks_from_central = s.total_deadlocks_from_central +ℤ pos (length found);
            },
            m ∷ [],
          ))
      × IsReport n
          (s.central_detected_cycles ++ (zone_cycles (rs ++ r ∷ []) ++ found))
          (s.central_deadlock_count + length found)
          m
      × ((u v : TransactionId)
          → has_edge (merged s.central_aggregated_wfg (rs ++ r ∷ [])) u v
            ≡ has_edge s.central_aggregated_wfg u v || reported u v (rs ++ r ∷ []))
unfolding close_round
zone_round_lem w fuel n num_nodes s rs r found freq full ran =
    let all = rs ++ r ∷ [] in
    let open_round = added s rs in
    let complete = added s all in
    let (_, received, _, _, _, _) = added_lem s rs in
    let (graph, _, count, cycles, zones, central) = added_lem s all in
    let searched : merge_wfg open_round.central_aggregated_wfg r.pairs
        ≡ merged s.central_aggregated_wfg all =
      unfold add_zone_report in
      sym (ap (λ x. x.central_aggregated_wfg) (added_last s rs r)) ∙ graph in
    let m =
      central_report n 0 (complete.central_detected_cycles ++ found)
        (complete.central_deadlock_count + length found) in
    (
      open_round,
      m,
      all_early w fuel n num_nodes s rs (omega (arith, full)),
      last w fuel n num_nodes open_round r (omega (arith, received, full))
          ∙ rw (searched, ran, sym (added_last s rs r), zones, central) refl,
      (
        refl,
        refl,
        refl,
        ap (λ x. x ++ found) cycles
            ∙ append_assoc s.central_detected_cycles (zone_cycles all) found,
        ap (λ x. pos (x + length found)) count,
      ),
      λ u v. merged_lem u v all s.central_aggregated_wfg,
    )
