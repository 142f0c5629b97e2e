-- ===== src/Adjust/Tests.antt =====
-- A decision of handlePAGResponse in DistributedDBNode.cpp.
use hawk_txn.Common.{
  ◌+◌, ◌≡◌, refl, true, false, some, List, [], ◌∷◌, ◌++◌, if◌then◌else◌, leb, arith,
}
use hawk_txn.Common.Int.{pos}
use hawk_txn.Map
use hawk_txn.Types.{WfdEdge}
use hawk_txn.Pag.{generate_pag}
use hawk_txn.Pag.Search.{singletons}
use hawk_txn.Network.Send
use hawk_txn.Network.Send.{connect_to_peers, broadcast_tree_adjustment}
use hawk_txn.Adjust.{PagState, no_samples, handle_pag_response}
use hawk_txn.Adjust.Decide.{is_due, with_response, handle_pag_response_lem}

abbrev sample : List WfdEdge
sample =
    (record {
      waiting_trans_id = 5;
      holding_trans_id = 6;
      waiting_node_id = 1;
      holding_node_id = 2;
    })
    ∷ []

abbrev waiting : PagState
waiting = record (no_samples 0) { pag_responses_expected = 1 }

-- Six seconds later, with 3 new deadlocks at the central node and 1 in the zones.
handle_pag_response_lem_example :
    handle_pag_response 1 6000000000 true
      (connect_to_peers (Send.init 1 2 false))
      1
      (pos 1)
      (pos 3)
      waiting
      sample
    ≡ some (
        let pag = generate_pag ([] ++ sample) in
        if leb 1 (0 + 1)
        then (
          record {
            aggregated_pag_edges = [];
            pag_responses_received = 0;
            pag_responses_expected = 1;
            last_tree_adjust_time = 6000000000;
            prev_total_deadlocks_from_zones = pos 1;
            prev_total_deadlocks_from_central = pos 3;
          },
          if is_due 6000000000 1 3 waiting 0 0
              then broadcast_tree_adjustment
                  (connect_to_peers (Send.init 1 2 false))
                  1
                  (singletons pag)
                  (Map.keys pag)
              else [],
        )
        else (with_response sample waiting, []))
handle_pag_response_lem_example =
    handle_pag_response_lem 0 6000000000 1 3 0 0 (connect_to_peers (Send.init 1 2 false)) 1 waiting
      sample refl refl (omega arith) (omega arith)
