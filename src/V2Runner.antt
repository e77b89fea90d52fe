-- ===== src/V2Runner.antt =====
-- v2_runner.py: a version 2 batch through the stages of a session. The models of
-- `fireviewer_contracts` appear by the fields that the code reads; numbers, times and what other
-- packages compute are the fields of `Externals`.
pub mod Annotations
pub mod Spatial
pub mod Facts
pub mod Report
pub mod Compose
pub mod Legacy
use fireviewer_orchestrator.Common.{
  ℕ, String, ◌+++◌, Bool, true, false, Option, none, some, List, [], ◌∷◌,
}
use fireviewer_orchestrator.Common.Order.{Ord, string_ord}
use fireviewer_orchestrator.Common.Dict.{put}
use fireviewer_orchestrator.StageGates.{StageStatus}
use fireviewer_orchestrator.EventPipeline.{join_parts}
use fireviewer_orchestrator.SessionRunner.Run.{OverallStatus}

-- A parsed JSON value.
mutual
  pub data Json (R : Type 0) : Type 0 where
    null : Json R
    boolean : Bool → Json R
    number : R → Json R
    text : String → Json R
    array : Items R → Json R
    object : Members R → Json R

  pub data Items (R : Type 0) : Type 0 where
    no_items : Items R
    one_item : Json R → Items R → Items R

  pub data Members (R : Type 0) : Type 0 where
    no_members : Members R
    member : String → Json R → Members R → Members R

-- The arithmetic of Python's floats, times, and functions of other packages: `str.casefold`,
-- `str.upper` with the spaces removed, the first 24 hexadecimal digits of a SHA-256, `isoformat`, and
-- the decimal text of a number; `float` of a JSON number, none for an `OverflowError`; `json.loads`,
-- with none for an exception other than `JSONDecodeError`, and none within for that one.
pub record Externals : Type 1 where
  pub Real : Type 0
  pub Time : Type 0
  pub whole : ℕ → Real
  pub neg : Real → Real
  pub add : Real → Real → Real
  pub mul : Real → Real → Real
  pub div : Real → Real → Real
  pub max : Real → Real → Real
  pub le : Real → Real → Bool
  pub casefold : String → String
  pub normalize_crs : String → String
  pub sha256_24 : String → String
  pub isoformat : Time → String
  pub str : ℕ → String
  pub to_float : Real → Option Real
  pub loads : String → Option (Option (Json Real))

-- `FactCategory`
pub data FactCategory : Type 0 where
  fire_activity burned_area resources evacuation access infrastructure weather other : FactCategory

-- `_stable_id`
unfoldable pub stable_id : Externals → String → List String → String
stable_id x prefix parts = prefix +++ "-" +++ x.sha256_24 (join_parts parts)

pub record ProvenanceV2 : Type 0 where
  pub source_key : String
  pub source_policy_domain : Option String
  pub attribution : Option String
  pub source_kind : Option String
  pub source_confidence : Option String
  pub trust : String
  pub source_reference_url : Option String

pub record Observation : Type 0 where
  pub kind : String
  pub description : String
  pub evidence_kind : String
  pub evidence_id : String
  pub certainty : String

module _ (x : Externals) where
  pub record CameraV2 : Type 0 where
    pub latitude : Option x.Real
    pub longitude : Option x.Real
    pub yaw_deg : Option x.Real
    pub pose_origin : Option String
    pub horizontal_accuracy_m : Option x.Real

  -- `geotransform` by the six names that the code gives its members.
  pub record SatelliteV2 : Type 0 where
    pub crs : String
    pub raster_width_px : ℕ
    pub raster_height_px : ℕ
    pub origin_x : x.Real
    pub pixel_x : x.Real
    pub rotation_x : x.Real
    pub origin_y : x.Real
    pub rotation_y : x.Real
    pub pixel_y : x.Real
    pub acquired_at : x.Time
    pub resolution_m : x.Real

  -- `bbox_wgs84` by the four names that the code gives its members.
  pub record HotspotV2 : Type 0 where
    pub min_lon : x.Real
    pub min_lat : x.Real
    pub max_lon : x.Real
    pub max_lat : x.Real
    pub acquired_at : x.Time
    pub resolution_m : x.Real

  pub record WorkerBatchItemV2 : Type 0 where
    pub input_id : String
    pub media_type : String
    pub captured_at : Option x.Time
    pub working_file_url : Option String
    pub frame_ids : List String
    pub audio_url : Option String
    pub article_text : Option String
    pub camera : Option CameraV2
    pub satellite : Option SatelliteV2
    pub hotspot : Option HotspotV2
    pub provenance : ProvenanceV2

  -- `reference_manifest` is the digest of the reference bundle, where there is one.
  pub record WorkerInputV2 : Type 0 where
    pub batch_id : String
    pub analysis_id : String
    pub local_date : String
    pub window_end_at : x.Time
    pub reference_manifest : Option String
    pub items : List WorkerBatchItemV2

  pub record PixelRegionV2 : Type 0 where
    pub region_id : String
    pub evidence_id : String
    pub label : String
    pub x1 : x.Real
    pub y1 : x.Real
    pub x2 : x.Real
    pub y2 : x.Real
    pub model_score : Option x.Real

  -- The fields of `ItemResult` that are read; the others are handed on as one text.
  pub record LegacyResult : Type 0 where
    pub input_id : String
    pub pixel_regions : List PixelRegionV2
    pub factual_observations : List Observation
    pub handed_on : String

  pub record SourceAnnotationV2 : Type 0 where
    pub annotation_id : String
    pub evidence_id : String
    pub evidence_kind : String
    pub semantic_anchor : String
    pub source_point_normalized : Option (x.Real × x.Real)
    pub model_score : Option x.Real

  pub record SpatialProposalV2 : Type 0 where
    pub proposal_id : String
    pub annotation_id : Option String
    pub status : String
    pub proposal_kind : Option String
    pub observed_at : Option x.Time
    pub geometry_origin : Option String
    pub point : Option (x.Real × x.Real)
    pub horizontal_accuracy_m : Option x.Real
    pub reference_bundle_sha256 : Option String
    pub uncertainty_codes : List String

  pub record FactProposalV2 : Type 0 where
    pub fact_id : String
    pub input_id : String
    pub category : FactCategory
    pub fact_key : String
    pub as_of : x.Time
    pub evidence_kind : String
    pub evidence_id : String
    pub certainty : String
    pub value_text : String
    pub summary : String

  pub record WorkerItemResultV2 : Type 0 where
    pub input_id : String
    pub handed_on : String
    pub source_annotations : List SourceAnnotationV2
    pub spatial_proposals : List SpatialProposalV2
    pub fact_proposals : List FactProposalV2
    pub requires_human_review : Bool

  -- `{item.input_id: value(item) for item in items}`, from what is there already.
  unfoldable pub index_by :
      {V : Type 0}
      → (WorkerBatchItemV2 → V)
      → List (String × V)
      → List WorkerBatchItemV2
      → List (String × V)
  index_by value d [] = d
  index_by value d (item ∷ items) = index_by value (put item.input_id (value item) d) items
