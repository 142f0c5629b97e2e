-- ===== src/Zone.antt =====
-- DetectionZoneManager.h and DetectionZoneManager.cpp: the detection zone of one node. A leader
-- read past the end of the list of leaders is `none`.
pub mod Update
pub mod Tests
use hawk_txn.Common.{
  ℕ, Bool, Option, some, none, List, [], ◌∷◌, ◌==◌, if◌then◌else◌, ◌>>=◌, elem, is_empty,
}
use hawk_txn.Map
use hawk_txn.Map.{Map}
use hawk_txn.Types.{NodeId}

pub record DetectionZoneManager : Type 0 where
  pub node_id : NodeId
  pub detection_zones : Map (List NodeId)
  pub my_zone_leader_id : NodeId
  pub my_detection_zone_members : List NodeId

-- The constructor.
unfoldable pub init : NodeId → DetectionZoneManager
init n = record {
  node_id = n;
  detection_zones = Map.push_back n n [];
  my_zone_leader_id = n;
  my_detection_zone_members = n ∷ [];
}

-- One zone of the loop of updateDetectionZones.
unfoldable pub apply_zone : List NodeId → NodeId → DetectionZoneManager → DetectionZoneManager
apply_zone zone leader s =
    if is_empty zone
    then s
    else if elem s.node_id zone
    then (record {
      node_id = s.node_id;
      detection_zones = Map.assign leader zone s.detection_zones;
      my_zone_leader_id = leader;
      my_detection_zone_members = zone;
    })
    else record s { detection_zones = Map.assign leader zone s.detection_zones }

unfoldable pub apply_zones :
    List (List NodeId) → List NodeId → DetectionZoneManager → Option DetectionZoneManager
unfolding apply_zone
apply_zones [] leaders s = some s
apply_zones (zone ∷ zones) [] s = none
apply_zones (zone ∷ zones) (leader ∷ leaders) s =
    apply_zones zones leaders (apply_zone zone leader s)

-- updateDetectionZones
unfoldable pub update_detection_zones :
    List (List NodeId) → List NodeId → DetectionZoneManager → Option DetectionZoneManager
unfolding apply_zones
update_detection_zones zones leaders s = apply_zones zones leaders (record {
  node_id = s.node_id;
  detection_zones = [];
  my_zone_leader_id = 0;
  my_detection_zone_members = [];
})

-- isZoneLeader
abbrev pub is_zone_leader : DetectionZoneManager → Bool
is_zone_leader s = s.node_id == s.my_zone_leader_id

-- getMyZoneLeaderId and getMyDetectionZoneMembers
abbrev pub my_zone : DetectionZoneManager → NodeId × List NodeId
my_zone s = (s.my_zone_leader_id, s.my_detection_zone_members)
