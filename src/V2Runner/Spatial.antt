-- ===== src/V2Runner/Spatial.antt =====
-- v2_runner.py: the spatial proposals of an item, from a satellite's geotransform, from hotspots, or
-- as abstentions.
pub mod Laws
use mathlib.Core.Option.{map as map_option}
use fireviewer_orchestrator.Common.{
  ℕ, ◌+◌, String, ◌+++◌, Bool, true, false, not, Option, none, some, List, [], ◌∷◌, ◌||◌, ◌&&◌,
  if◌then◌else◌, suc, ltb, is_some, nonempty,
}
use fireviewer_orchestrator.Common.Order.{Ord, ◌==◌, string_ord}
use fireviewer_orchestrator.Common.Sets.{contains}
use fireviewer_orchestrator.V2Runner.{
  Externals, Json, Items, Members, null, boolean, number, text, array, object, no_items, one_item,
  no_members, member, WorkerInputV2, WorkerBatchItemV2, HotspotV2, SatelliteV2, SourceAnnotationV2,
  SpatialProposalV2, CameraV2, stable_id,
}
use fireviewer_orchestrator.V2Runner.Annotations.{point_proposal_kind}

-- `d.get(key)`: the last of a repeated key.
unfoldable pub get_member : {R : Type 0} → String → Members R → Option (Json R)
get_member key no_members = none
get_member key (member k v rest) = elim (get_member key rest) [
  | some w ↦ some w
  | none ↦ if k == key then some v else none
]

-- `len` of a list
unfoldable pub count_items : {R : Type 0} → Items R → ℕ
count_items no_items = 0
count_items (one_item v rest) = suc (count_items rest)

unfoldable pub is_text : {R : Type 0} → String → Option (Json R) → Bool
is_text s (some (text t)) = t == s
is_text s _ = false

module _ (x : Externals) where
  abbrev pub Proposal : Type 0
  Proposal = SpatialProposalV2 x

  -- A proposal without a geometry.
  unfoldable pub abstention : String → Option String → Option x.Time → List String → Proposal
  abstention proposal_id annotation_id observed_at codes = record {
    proposal_id = proposal_id;
    annotation_id = annotation_id;
    status = "insufficient_geometry";
    proposal_kind = none;
    observed_at = observed_at;
    geometry_origin = none;
    point = none;
    horizontal_accuracy_m = none;
    reference_bundle_sha256 = none;
    uncertainty_codes = codes;
  }

  -- `-180 <= longitude <= 180 and -90 <= latitude <= 90`
  abbrev pub on_earth : x.Real → x.Real → Bool
  on_earth longitude latitude =
      x.le (x.neg (x.whole 180)) longitude
      && x.le longitude (x.whole 180)
      && x.le (x.neg (x.whole 90)) latitude
      && x.le latitude (x.whole 90)

  -- The geometry of `_satellite_ground_point`: the longitude and the latitude of a point.
  unfoldable pub ground_coordinates : SatelliteV2 x → x.Real × x.Real → x.Real × x.Real
  ground_coordinates satellite (u, v) =
      let x_pixel = x.mul u (x.whole satellite.raster_width_px) in
      let y_pixel = x.mul v (x.whole satellite.raster_height_px) in
      (
        x.add (x.add satellite.origin_x (x.mul x_pixel satellite.pixel_x))
            (x.mul y_pixel satellite.rotation_x),
        x.add (x.add satellite.origin_y (x.mul x_pixel satellite.rotation_y))
            (x.mul y_pixel satellite.pixel_y),
      )

  unfoldable pub satellite_proposal :
      SatelliteV2 x → String → SourceAnnotationV2 x → x.Real × x.Real → Proposal
  satellite_proposal satellite manifest annotation coordinates = record {
    proposal_id = stable_id x "SP" (annotation.annotation_id ∷ "satellite" ∷ []);
    annotation_id = some annotation.annotation_id;
    status = "projected_geometry";
    proposal_kind = some (point_proposal_kind x annotation);
    observed_at = some satellite.acquired_at;
    geometry_origin = some "SATELLITE_GEOTRANSFORM";
    point = some coordinates;
    horizontal_accuracy_m = some (x.max (x.mul satellite.resolution_m (x.whole 2)) (x.whole 1));
    reference_bundle_sha256 = some manifest;
    uncertainty_codes = [];
  }

  -- `_satellite_ground_point`, at its three optional values.
  unfoldable pub ground_point :
      Option (SatelliteV2 x)
      → Option String
      → SourceAnnotationV2 x
      → Option (x.Real × x.Real)
      → Option Proposal
  ground_point (some satellite) (some manifest) annotation (some p) =
      let coordinates = ground_coordinates satellite p in
      if not (contains (x.normalize_crs satellite.crs) ("EPSG:4326" ∷ "OGC:CRS84" ∷ "CRS84" ∷ []))
      then none
      else if not (on_earth coordinates.0 coordinates.1)
      then none
      else some (satellite_proposal satellite manifest annotation coordinates)
  ground_point _ _ annotation _ = none

  abbrev pub satellite_ground_point :
      WorkerInputV2 x → WorkerBatchItemV2 x → SourceAnnotationV2 x → Option Proposal
  satellite_ground_point batch item annotation =
      ground_point item.satellite batch.reference_manifest annotation
        annotation.source_point_normalized

  -- The camera's part of `_abstention_codes`.
  unfoldable pub camera_code : Option (CameraV2 x) → String
  camera_code none = "camera_pose_missing"
  camera_code (some camera) =
      if not (is_some camera.latitude) || not (is_some camera.longitude)
      then "camera_position_missing"
      else if not (is_some camera.yaw_deg)
      then "camera_orientation_missing"
      else "terrain_raycast_unavailable"

  -- `_abstention_codes`
  unfoldable pub abstention_codes : WorkerInputV2 x → WorkerBatchItemV2 x → List String
  abstention_codes batch item =
      (if not (is_some batch.reference_manifest)
        then "reference_bundle_missing"
        else if item.media_type == "satellite_image"
        then "satellite_crs_projection_unsupported"
        else camera_code item.camera)
      ∷ []

  -- `isinstance(value, int | float)`; a Boolean is an integer.
  unfoldable pub is_number : Json x.Real → Bool
  is_number (number r) = true
  is_number (boolean b) = true
  is_number _ = false

  -- `float(value)` of such a value: none is an `OverflowError`.
  unfoldable pub as_float : Json x.Real → Option x.Real
  as_float (number r) = x.to_float r
  as_float (boolean b) = some (x.whole (if b then 1 else 0))
  as_float _ = none

  abbrev pub Point : Type 0
  Point = x.Real × x.Real

  -- The first two coordinates of a point. Here and below, the outer option is for an exception.
  unfoldable pub pair_of : Option x.Real → Option x.Real → Option (Option Point)
  pair_of (some a) (some b) = some (some (a, b))
  pair_of _ _ = none

  unfoldable pub coordinates_of : Option (Json x.Real) → Option (Option Point)
  unfolding as_float pair_of
  coordinates_of (some (array (one_item a (one_item b rest)))) =
      if is_number a && is_number b then pair_of (as_float a) (as_float b) else some none
  coordinates_of _ = some none

  unfoldable pub geometry_point : Option (Json x.Real) → Option (Option Point)
  geometry_point (some (object geometry)) =
      if is_text "Point" (get_member "type" geometry)
      then coordinates_of (get_member "coordinates" geometry)
      else some none
  geometry_point _ = some none

  -- The coordinates of a feature that the loop does not pass over.
  unfoldable pub feature_point : Json x.Real → Option (Option Point)
  feature_point (object feature) = geometry_point (get_member "geometry" feature)
  feature_point _ = some none

  abbrev pub within : HotspotV2 x → x.Real × x.Real → Bool
  within hotspot p =
      x.le hotspot.min_lon p.0
      && x.le p.0 hotspot.max_lon
      && x.le hotspot.min_lat p.1
      && x.le p.1 hotspot.max_lat

  module _ (input_id : String) (hotspot : HotspotV2 x) (manifest : String) where
    unfoldable pub hotspot_proposal : ℕ → x.Real × x.Real → Proposal
    hotspot_proposal index p = record {
      proposal_id = stable_id x "SP" (input_id ∷ "hotspot" ∷ x.str index ∷ []);
      annotation_id = none;
      status = "projected_geometry";
      proposal_kind = some "active_fire_point";
      observed_at = some hotspot.acquired_at;
      geometry_origin = some "EXPLICIT_SOURCE_GEOMETRY";
      point = some p;
      horizontal_accuracy_m = some hotspot.resolution_m;
      reference_bundle_sha256 = some manifest;
      uncertainty_codes = [];
    }

    -- One feature of the loop: its proposal before the others, where it has a point in the box.
    unfoldable pub keep_feature : ℕ → Option (x.Real × x.Real) → List Proposal → List Proposal
    keep_feature index none others = others
    keep_feature index (some p) others =
        if within hotspot p then hotspot_proposal index p ∷ others else others

    -- A feature whose coordinates do not convert ends the loop with an exception.
    unfoldable pub add_feature :
        ℕ → Option (Option Point) → Option (List Proposal) → Option (List Proposal)
    add_feature index (some o) (some others) = some (keep_feature index o others)
    add_feature index _ _ = none

    -- The loop over the features, from an index on.
    unfoldable pub hotspot_points : ℕ → Items x.Real → Option (List Proposal)
    hotspot_points index no_items = some []
    hotspot_points index (one_item feature rest) =
        add_feature index (feature_point feature) (hotspot_points (index + 1) rest)

    unfoldable pub or_no_hotspots : List Proposal → List Proposal
    or_no_hotspots [] =
        abstention (stable_id x "SP" (input_id ∷ "no-hotspots" ∷ [])) none none
          ("hotspot_observations_empty" ∷ [])
        ∷ []
    or_no_hotspots (p ∷ ps) = p ∷ ps

    -- The features of a collection.
    unfoldable pub collection_points : Option (Json x.Real) → Option (List Proposal)
    collection_points (some (array features)) =
        if ltb 5000 (count_items features)
        then some (
            abstention (stable_id x "SP" (input_id ∷ "feature-count-invalid" ∷ [])) none none
              ("hotspot_feature_count_invalid" ∷ [])
            ∷ [])
        else map_option or_no_hotspots (hotspot_points 1 features)
    collection_points _ = some (
        abstention (stable_id x "SP" (input_id ∷ "feature-count-invalid" ∷ [])) none none
          ("hotspot_feature_count_invalid" ∷ [])
        ∷ [])

    unfoldable pub invalid_geojson : List Proposal
    invalid_geojson =
        abstention (stable_id x "SP" (input_id ∷ "invalid-geojson" ∷ [])) none none
          ("hotspot_geojson_invalid" ∷ [])
        ∷ []

    unfoldable pub payload_points : Option (Json x.Real) → Option (List Proposal)
    payload_points (some (object payload)) =
        if is_text "FeatureCollection" (get_member "type" payload)
        then collection_points (get_member "features" payload)
        else some invalid_geojson
    payload_points _ = some invalid_geojson

    unfoldable pub loaded_points : Option (Option (Json x.Real)) → Option (List Proposal)
    loaded_points none = none
    loaded_points (some payload) = payload_points payload

  -- `_hotspot_spatial_proposals`, at its three optional values.
  unfoldable pub hotspot_proposals :
      String → Option (HotspotV2 x) → Option String → Option String → Option (List Proposal)
  hotspot_proposals input_id (some hotspot) (some article) (some manifest) =
      loaded_points input_id hotspot manifest (x.loads article)
  hotspot_proposals input_id (some hotspot) (some article) none = some (
      abstention (stable_id x "SP" (input_id ∷ "reference-missing" ∷ [])) none none
        ("reference_bundle_missing" ∷ [])
      ∷ [])
  hotspot_proposals input_id _ _ reference = some (
      abstention (stable_id x "SP" (input_id ∷ "hotspot-metadata-missing" ∷ [])) none none
        ("hotspot_metadata_missing" ∷ [])
      ∷ [])

  abbrev pub hotspot_spatial_proposals :
      WorkerInputV2 x → WorkerBatchItemV2 x → Option (List Proposal)
  hotspot_spatial_proposals batch item =
      hotspot_proposals item.input_id item.hotspot item.article_text batch.reference_manifest

  -- `projected or SpatialProposalV2(...)`
  unfoldable pub point_or_abstain :
      WorkerInputV2 x → WorkerBatchItemV2 x → SourceAnnotationV2 x → Option Proposal → Proposal
  point_or_abstain batch item annotation (some projected) = projected
  point_or_abstain batch item annotation none =
      abstention (stable_id x "SP" (annotation.annotation_id ∷ "abstain" ∷ []))
        (some annotation.annotation_id) item.captured_at (abstention_codes batch item)

  -- The loop over the annotations.
  unfoldable pub point_proposals :
      WorkerInputV2 x → WorkerBatchItemV2 x → List (SourceAnnotationV2 x) → List Proposal
  point_proposals batch item [] = []
  point_proposals batch item (annotation ∷ annotations) =
      point_or_abstain batch item annotation (satellite_ground_point batch item annotation)
      ∷ point_proposals batch item annotations

  -- `_spatial_proposals`
  unfoldable pub spatial_proposals :
      WorkerInputV2 x → WorkerBatchItemV2 x → List (SourceAnnotationV2 x) → Option (List Proposal)
  spatial_proposals batch item annotations =
      if item.media_type == "satellite_data"
      then hotspot_spatial_proposals batch item
      else if not (nonempty annotations)
          && (is_some item.working_file_url || nonempty item.frame_ids)
      then some (
          abstention (stable_id x "SP" (item.input_id ∷ "no-anchor" ∷ [])) none none
            ("active_fire_anchor_not_extracted" ∷ [])
          ∷ [])
      else some (point_proposals batch item annotations)
