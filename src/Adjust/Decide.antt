-- ===== src/Adjust/Decide.antt =====
-- When handlePAGResponse of DistributedDBNode.cpp adjusts the zones, and what it sends then.
use hawk_txn.Common.{
  ℕ, suc, ◌+◌, ◌-◌, ◌≤◌, ◌≡◌, refl, Bool, true, some, List, [], ◌++◌, ◌&&◌, if◌then◌else◌, leb, ltb,
  arith, Bool-cases, inl, inr, ◌∙◌,
}
use hawk_txn.Common.Int.{pos, ◌-ℤ◌}
use hawk_txn.Map
use hawk_txn.Types.{NodeId, WfdEdge, scc_cut_threshold}
use hawk_txn.Pag.{generate_pag}
use hawk_txn.Pag.Search.{singletons}
use hawk_txn.Pag.Cut.{greedy_scc_cut-singletons}
use hawk_txn.Pag.Generate.{generate_pag_lem}
use hawk_txn.Network.Send.{Network, broadcast_tree_adjustment}
use hawk_txn.Adjust.{
  PagState, should_adjust_tree, adjust_tree, close_samples, decides, millis_since,
  close_samples_if_complete, handle_pag_response,
}

-- Five seconds have passed since the last complete round, and since then the central node found more
-- deadlocks than the zones; `z` and `c` are the totals of the zones and of the central node then.
abbrev pub is_due : ℕ → ℕ → ℕ → PagState → ℕ → ℕ → Bool
is_due now zones central s z c =
    leb (s.last_tree_adjust_time + 5000000000) now && ltb (zones - z) (central - c)

five_seconds : (last now : ℕ) → leb 5000 (millis_since last now) ≡ leb (last + 5000000000) now
unfolding millis_since
five_seconds last now = ground arith

difference : (a b : ℕ) → b ≤ a → pos a -ℤ pos b ≡ pos (a - b)
unfolding ◌-ℤ◌
difference a b le = ground arith

more_central :
    (duration zones central : ℕ)
    → should_adjust_tree duration (pos zones) (pos central) ≡ leb 5000 duration && ltb zones central
unfolding should_adjust_tree
more_central duration zones central = ground arith

decides_lem :
    (now zones central z c : ℕ) (s : PagState)
    → s.prev_total_deadlocks_from_zones ≡ pos z
    → s.prev_total_deadlocks_from_central ≡ pos c
    → z ≤ zones
    → c ≤ central
    → decides now (pos zones) (pos central) s ≡ is_due now zones central s z c
unfolding decides
decides_lem now zones central z c s was_z was_c up_z up_c =
    rw (was_z, was_c, difference zones z up_z, difference central c up_c)
      (more_central (millis_since s.last_tree_adjust_time now) (zones - z) (central - c)
        ∙ rw (five_seconds s.last_tree_adjust_time now) refl)

adjust_lem :
    (fuel : ℕ) (net : Network) (n : NodeId) (edges : List WfdEdge)
    → adjust_tree (suc fuel) net n edges
      ≡ some (
          broadcast_tree_adjustment net n
            (singletons (generate_pag edges))
            (Map.keys (generate_pag edges)))
unfolding adjust_tree
adjust_lem fuel net n edges =
    rw
      (greedy_scc_cut-singletons fuel (generate_pag edges) scc_cut_threshold
        (generate_pag_lem edges).0)
      refl

-- The state with one more response.
abbrev pub with_response : List WfdEdge → PagState → PagState
with_response edges s = record s {
  aggregated_pag_edges = s.aggregated_pag_edges ++ edges;
  pag_responses_received = s.pag_responses_received + 1;
}

-- On the central node, if the totals have not fallen since the last complete round: a response adds
-- its edges; before the last expected one nothing else happens. After it, five seconds after the last
-- complete round or later, and if more deadlocks were found by the central node since then than by
-- the zones, every waiting node of the sampled graph is broadcast as a zone of its own; otherwise
-- nothing is sent. In both cases the edges and the counter start again, and the time and the
-- totals are remembered.
pub handle_pag_response_lem :
    (fuel now zones central z c : ℕ) (net : Network) (n : NodeId) (s : PagState)
    (edges : List WfdEdge)
    → s.prev_total_deadlocks_from_zones ≡ pos z
    → s.prev_total_deadlocks_from_central ≡ pos c
    → z ≤ zones
    → c ≤ central
    → handle_pag_response (suc fuel) now true net n (pos zones) (pos central) s edges
      ≡ some (
          let pag = generate_pag (s.aggregated_pag_edges ++ edges) in
          if leb s.pag_responses_expected (s.pag_responses_received + 1)
          then (
            record {
              aggregated_pag_edges = [];
              pag_responses_received = 0;
              pag_responses_expected = s.pag_responses_expected;
              last_tree_adjust_time = now;
              prev_total_deadlocks_from_zones = pos zones;
              prev_total_deadlocks_from_central = pos central;
            },
            if is_due now zones central s z c
                then broadcast_tree_adjustment net n (singletons pag) (Map.keys pag)
                else [],
          )
          else (with_response edges s, []))
unfolding handle_pag_response close_samples_if_complete close_samples
handle_pag_response_lem fuel now zones central z c net n s edges was_z was_c up_z up_c =
    elim (Bool-cases (leb s.pag_responses_expected (s.pag_responses_received + 1))) [
      | inr early ↦ rw (early, close_samples_if_complete) refl
      | inl complete ↦
          rw (complete, close_samples_if_complete)
            (rw (decides_lem now zones central z c (with_response edges s) was_z was_c up_z up_c)
              (elim (Bool-cases (is_due now zones central s z c)) [
                | inr no_need ↦ rw no_need refl
                | inl due ↦
                    rw due (rw (adjust_lem fuel net n (s.aggregated_pag_edges ++ edges)) refl)
              ]))
    ]
