-- ===== src/Zone/Tests.antt =====
-- Runs of DetectionZoneManager.cpp on node 3.
use hawk_txn.Common.{◌≡◌, some, none, [], ◌∷◌, arith}
use hawk_txn.Map
use hawk_txn.Types.{NodeId}
use hawk_txn.Zone.{DetectionZoneManager, init, my_zone, update_detection_zones}
use hawk_txn.Zone.Update.{update_detection_zones_lem, last_led}

update_detection_zones_lem_example :
    (s' : DetectionZoneManager) × (update_detection_zones
        ((1 ∷ 2 ∷ []) ∷ (3 ∷ 4 ∷ []) ∷ [])
        (1 ∷ 3 ∷ [])
        (init 3)
      ≡ some s')
    × (s'.node_id ≡ 3)
    × (my_zone s' ≡ (3, 3 ∷ 4 ∷ []))
    × ((k : NodeId)
        → Map.find? k s'.detection_zones
          ≡ last_led k none ((1 ∷ 2 ∷ []) ∷ (3 ∷ 4 ∷ []) ∷ []) (1 ∷ 3 ∷ []))
unfolding init
update_detection_zones_lem_example =
    update_detection_zones_lem ((1 ∷ 2 ∷ []) ∷ (3 ∷ 4 ∷ []) ∷ []) (1 ∷ 3 ∷ []) (init 3)
      (omega arith)
