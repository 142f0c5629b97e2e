-- ===== src/Zone/Update.antt =====
-- Which zone a node is in after updateDetectionZones of DetectionZoneManager.cpp.
use hawk_txn.Common.{
  ℕ, suc, ◌≡◌, refl, ◌≤◌, Option, some, none, List, [], ◌∷◌, ◌==◌, if◌then◌else◌, elem, is_empty,
  arith, same_branches, Bool-cases, inl, inr, length, ap, ap₂, ◌∙◌,
}
use hawk_txn.Map
use hawk_txn.Map.{Map, find?-assign, IsUnique, contains-find?, contains-true}
use hawk_txn.Types.{NodeId}
use hawk_txn.Zone.{DetectionZoneManager, apply_zone, apply_zones, update_detection_zones, my_zone}
use hawk_txn.Pag.{Pag, greedy_scc_cut}
use hawk_txn.Pag.Cut.{greedy_scc_cut-singletons}
use hawk_txn.Pag.Search.{singletons}

-- The last zone of the lists with the node in it, and its leader, or `d` if there is none.
abbrev pub last_zone :
    NodeId → NodeId × List NodeId → List (List NodeId) → List NodeId → NodeId × List NodeId
last_zone n d [] leaders = d
last_zone n d (zone ∷ zones) [] = d
last_zone n d (zone ∷ zones) (leader ∷ leaders) =
    last_zone n (if elem n zone then (leader, zone) else d) zones leaders

-- The last zone of the lists that has members and the leader.
abbrev pub last_led :
    NodeId → Option (List NodeId) → List (List NodeId) → List NodeId → Option (List NodeId)
last_led k d [] leaders = d
last_led k d (zone ∷ zones) [] = d
last_led k d (zone ∷ zones) (leader ∷ leaders) =
    last_led k (if is_empty zone then d else if leader == k then some zone else d) zones leaders

-- What the zones leave of a state.
record Applied (zones : List (List NodeId)) (leaders : List NodeId) (s s' : DetectionZoneManager)
    : Type 0 where
  node : s'.node_id ≡ s.node_id
  mine : my_zone s' ≡ last_zone s.node_id (my_zone s) zones leaders
  known :
      (k : NodeId)
      → Map.find? k s'.detection_zones ≡ last_led k (Map.find? k s.detection_zones) zones leaders

apply_zone-Applied :
    (zone : List NodeId) (leader : NodeId) (s : DetectionZoneManager)
    → Applied (zone ∷ []) (leader ∷ []) s (apply_zone zone leader s)
unfolding apply_zone
apply_zone-Applied [] leader s = record { node = refl; mine = refl; known = λ k. refl }
apply_zone-Applied (x ∷ zone) leader s = elim (Bool-cases (elem s.node_id (x ∷ zone))) [
  | inl here ↦
      rw (here, apply_zone)
        (record {
          node = refl;
          mine = rw here;
          known = λ k. find?-assign leader k (x ∷ zone) s.detection_zones;
        })
  | inr there ↦
      rw (there, apply_zone)
        (record {
          node = refl;
          mine = rw there;
          known = λ k. find?-assign leader k (x ∷ zone) s.detection_zones;
        })
]

apply_zones-Applied :
    (zones : List (List NodeId)) (leaders : List NodeId) (s : DetectionZoneManager)
    → length zones ≤ length leaders
    → (s' : DetectionZoneManager) × (apply_zones zones leaders s ≡ some s')
      × Applied zones leaders s s'
unfolding apply_zones
apply_zones-Applied [] leaders s le =
    (s, refl, record { node = refl; mine = refl; known = λ k. refl })
apply_zones-Applied (zone ∷ zones) [] s le = absurd (omega (arith, le))
apply_zones-Applied (zone ∷ zones) (leader ∷ leaders) s le =
    let a = apply_zone-Applied zone leader s in
    let (s', ran, b) =
      apply_zones-Applied zones leaders (apply_zone zone leader s) (omega (arith, le)) in
    (
      s',
      ran,
      record {
        node = b.node ∙ a.node;
        mine = b.mine ∙ ap₂ (λ n d. last_zone n d zones leaders) a.node a.mine;
        known = λ k. b.known k ∙ ap (λ d. last_led k d zones leaders) (a.known k);
      },
    )

-- With a leader for every zone, the update succeeds, whatever the zones were before: the node is in
-- the last zone that names it, under that zone's leader, or in none, under leader 0; and the map has,
-- for each leader, the last of its zones that has members.
pub update_detection_zones_lem :
    (zones : List (List NodeId)) (leaders : List NodeId) (s : DetectionZoneManager)
    → length zones ≤ length leaders
    → (s' : DetectionZoneManager) × (update_detection_zones zones leaders s ≡ some s')
      × (s'.node_id ≡ s.node_id)
      × (my_zone s' ≡ last_zone s.node_id (0, []) zones leaders)
      × ((k : NodeId) → Map.find? k s'.detection_zones ≡ last_led k none zones leaders)
unfolding update_detection_zones
update_detection_zones_lem zones leaders s le =
    let (s', ran, a) =
      apply_zones-Applied zones leaders
        (record {
          node_id = s.node_id;
          detection_zones = [];
          my_zone_leader_id = 0;
          my_detection_zone_members = [];
        })
        le in
    (s', ran, a.node, a.mine, a.known)

length-singletons : (pag : Pag) → length (singletons pag) ≤ length (Map.keys pag)
length-singletons [] = omega arith
length-singletons ((u, vs) ∷ pag) = omega (arith, length-singletons pag)

last_zone-singletons :
    (n : NodeId) (d : NodeId × List NodeId) (pag : Pag)
    → last_zone n d (singletons pag) (Map.keys pag)
      ≡ (if Map.contains n pag then (n, n ∷ []) else d)
last_zone-singletons n d [] = refl
last_zone-singletons n d ((u, vs) ∷ pag) = elim (Bool-cases (u == n)) [
  | inl own ↦
      let e : u ≡ n = ground arith in
      last_zone-singletons n (if elem n (u ∷ []) then (u, u ∷ []) else d) pag
      ∙ rw (own, ap {B = NodeId × List NodeId} (λ i. (i, i ∷ [])) e)
          (same_branches (Map.contains n pag) (n, n ∷ []))
  | inr other ↦ rw other (last_zone-singletons n d pag)
]

-- When a manager takes over the cut of a graph in which each node stands once, a node that waits for
-- another is alone in its zone and leads it; any other node, such as one that others wait for, is in
-- no zone, and has 0 for its leader.
pub zone_after_cut :
    (fuel : ℕ) (pag : Pag) (threshold : ℕ) (s : DetectionZoneManager)
    → IsUnique pag
    → (cut : List (List NodeId) × List NodeId) × (s' : DetectionZoneManager) × (greedy_scc_cut
          (suc fuel)
          pag
          threshold
        ≡ some cut)
      × (update_detection_zones cut.0 cut.1 s ≡ some s')
      × (my_zone s' ≡ (if Map.contains s.node_id pag then (s.node_id, s.node_id ∷ []) else (0, [])))
zone_after_cut fuel pag threshold s u =
    let (s', ran, _, mine, _) =
      update_detection_zones_lem (singletons pag) (Map.keys pag) s (length-singletons pag) in
    (
      (singletons pag, Map.keys pag),
      s',
      greedy_scc_cut-singletons fuel pag threshold u,
      ran,
      mine ∙ last_zone-singletons s.node_id (0, []) pag,
    )
