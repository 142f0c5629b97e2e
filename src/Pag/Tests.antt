-- ===== src/Pag/Tests.antt =====
-- Runs of PAGManager.cpp.
use hawk_txn.Common.{◌≡◌, refl, some, List, [], ◌∷◌}
use hawk_txn.Map
use hawk_txn.Types.{NodeId, WfdEdge}
use hawk_txn.Pag.{add_edge, add_edges, generate_pag, greedy_scc_cut}
use hawk_txn.Map.{IsUnique}
use hawk_txn.Pag.Generate.{waited_for, generate_pag_lem}
use hawk_txn.Pag.Cut.{greedy_scc_cut-singletons}

-- Transactions of nodes 1 and 2 wait for each other.
abbrev crossed : List WfdEdge
crossed =
    (record {
      waiting_trans_id = 5;
      holding_trans_id = 6;
      waiting_node_id = 1;
      holding_node_id = 2;
    })
    ∷ (record {
      waiting_trans_id = 7;
      holding_trans_id = 8;
      waiting_node_id = 2;
      holding_node_id = 1;
    })
    ∷ []

generate_pag-crossed : generate_pag crossed ≡ (1, 2 ∷ []) ∷ (2, 1 ∷ []) ∷ []
unfolding generate_pag add_edges add_edge Map.assign
generate_pag-crossed = refl

generate_pag_lem_example :
    IsUnique (generate_pag crossed)
    × ((n : NodeId) → Map.get_or n [] (generate_pag crossed) ≡ waited_for n crossed)
generate_pag_lem_example = generate_pag_lem crossed

greedy_scc_cut-singletons_example :
    greedy_scc_cut 1 ((1, 2 ∷ []) ∷ (2, 1 ∷ []) ∷ []) 2
    ≡ some ((1 ∷ []) ∷ (2 ∷ []) ∷ [], 1 ∷ 2 ∷ [])
greedy_scc_cut-singletons_example =
    greedy_scc_cut-singletons 0 ((1, 2 ∷ []) ∷ (2, 1 ∷ []) ∷ []) 2 (refl, (refl, tt))
