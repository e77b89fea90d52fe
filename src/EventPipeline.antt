-- ===== src/EventPipeline.antt =====
-- event_pipeline.py: review proposals from pixel anchors and spatial evidence. The models of
-- `fireviewer_contracts` appear by the fields the code reads; numbers, geometries and times are
-- values of parameter types, and SHA-256 and the sector arithmetic are parameters.
pub mod Run
pub mod Envelope
use fireviewer_orchestrator.Common.{
  ℕ, nat_eq, leb, String, ◌+++◌, Bool, true, false, Option, none, some, List, [], ◌∷◌, ◌++◌, ◌≡◌,
  ◌||◌, ◌&&◌, if◌then◌else◌, any, map, not, nonempty, is_some, or_else,
}
use fireviewer_orchestrator.Common.Order.{Ord, ◌==◌, string_ord}
use fireviewer_orchestrator.Common.Pairs.{pair_ord}
use fireviewer_orchestrator.Common.Sets.{contains, ordered}
use fireviewer_orchestrator.Common.Dict.{lookup, put}

pub data ShotScale : Type 0 where
  wide distant close tight : ShotScale

pub data ViewpointOrigin : Type 0 where
  named_place : ViewpointOrigin
  other_origin : String → ViewpointOrigin

pub data ViewProfile : Type 0 where
  ground_wide_named_viewpoint ground_wide_known_viewpoint : ViewProfile
  ground_distant_known_viewpoint ground_close_known_viewpoint : ViewProfile
  ground_tight_known_viewpoint : ViewProfile

pub data SemanticRole : Type 0 where
  official_incident_statement : SemanticRole
  other_role : String → SemanticRole

pub data PhenomenonKind : Type 0 where
  active_fire_point visible_fire_front smoke_origin smoke_column_base : PhenomenonKind
  thermal_hotspot burned_area simulation : PhenomenonKind
  other_phenomenon : String → PhenomenonKind

pub data LocalizationMethod : Type 0 where
  camera_raycast cross_view_raycast viewpoint_sector : LocalizationMethod
  other_method : String → LocalizationMethod

pub data LocalizationStatus : Type 0 where
  localized sector_only abstained : LocalizationStatus

pub data PipelineStatus : Type 0 where
  needs_review nothing_found : PipelineStatus

abbrev pub is_localized : LocalizationStatus → Bool
is_localized localized = true
is_localized _ = false

abbrev pub is_sector : LocalizationStatus → Bool
is_sector sector_only = true
is_sector _ = false

abbrev pub is_front : PhenomenonKind → Bool
is_front visible_fire_front = true
is_front _ = false

abbrev pub is_cross_view : LocalizationMethod → Bool
is_cross_view cross_view_raycast = true
is_cross_view _ = false

-- The methods that need a reference.
abbrev pub is_raycast : LocalizationMethod → Bool
is_raycast camera_raycast = true
is_raycast cross_view_raycast = true
is_raycast _ = false

pub record ExternalObservation : Type 0 where
  pub observation_id : String
  pub lineage_family_id : String
  pub conflicts_with : List String

pub record PerceptionFailure : Type 0 where
  pub evidence_asset_id : Option String
  pub reason_code : String
  pub model_id : Option String
  pub model_revision : Option String

-- `source_can_seed_private_incident`
abbrev pub source_can_seed_private_incident : SemanticRole → Bool
source_can_seed_private_incident official_incident_statement = true
source_can_seed_private_incident (other_role r) = false

-- The first loop of `_external_summary`, for one observation: the conflicts with known others.
unfoldable pub conflict_pairs : List String → String → List String → List (String × String)
conflict_pairs known_ids item [] = []
conflict_pairs known_ids item (other ∷ others) =
    let rest = conflict_pairs known_ids item others in
    if contains other known_ids && not (other == item)
    then (if string_ord.le item other then (item, other) else (other, item)) ∷ rest
    else rest

unfoldable pub all_pairs : List String → List ExternalObservation → List (String × String)
all_pairs known_ids [] = []
all_pairs known_ids (item ∷ items) =
    conflict_pairs known_ids item.observation_id item.conflicts_with ++ all_pairs known_ids items

-- `_external_summary`
unfoldable pub external_summary : List ExternalObservation → List String × List (String × String)
external_summary observations =
    let families =
      ordered (map (λ (item : ExternalObservation). item.lineage_family_id) observations) in
    let known_ids = map (λ (item : ExternalObservation). item.observation_id) observations in
    (families, ordered (all_pairs known_ids observations))

-- `"\x1f".join(parts)`
unfoldable pub join_parts : List String → String
join_parts [] = ""
join_parts (p ∷ []) = p
join_parts (p ∷ q ∷ ps) = p +++ "\u{1f}" +++ join_parts (q ∷ ps)

-- What other packages compute: the first 24 hexadecimal digits of the SHA-256 of a text, the
-- sector of a yaw, a field of view and an abscissa, and the `type` of a GeoJSON geometry.
pub record Sciences : Type 1 where
  pub Real : Type 0
  pub Geometry : Type 0
  pub Sector : Type 0
  pub Time : Type 0
  pub sha256_24 : String → String
  pub sector_of : Real → Real → Real → Sector
  pub geometry_type : Geometry → Option String

module _ (x : Sciences) where
  pub record Viewpoint : Type 0 where
    pub origin : ViewpointOrigin
    pub yaw_deg : Option x.Real
    pub fov_deg : Option x.Real

  pub record EventCandidateBundle : Type 0 where
    pub candidate_id : String
    pub shot_scale : Option ShotScale
    pub viewpoint : Viewpoint
    pub observed_time : x.Time
    pub external_observations : List ExternalObservation

  pub record PerceptionAnchor : Type 0 where
    pub anchor_id : String
    pub phenomenon : PhenomenonKind
    pub source_point_normalized : Option (x.Real × x.Real)
    pub model_id : Option String
    pub model_revision : Option String

  pub record SpatialEvidence : Type 0 where
    pub anchor_id : String
    pub status : String
    pub method : LocalizationMethod
    pub reference_revision : Option String
    pub geometry_geojson : Option x.Geometry
    pub horizontal_accuracy_m : Option x.Real
    pub direction_uncertainty_deg : Option x.Real
    pub distance_uncertainty_m : Option x.Real
    pub reason_codes : List String

  pub record EventPipelineInput : Type 0 where
    pub bundle : EventCandidateBundle
    pub perception_anchors : List PerceptionAnchor
    pub spatial_evidence : List SpatialEvidence

  pub record LocalizationAttempt : Type 0 where
    pub attempt_id : String
    pub anchor_id : Option String
    pub phenomenon : Option PhenomenonKind
    pub status : LocalizationStatus
    pub method : Option LocalizationMethod
    pub sector : Option x.Sector
    pub geometry_geojson : Option x.Geometry
    pub horizontal_accuracy_m : Option x.Real
    pub direction_uncertainty_deg : Option x.Real
    pub distance_uncertainty_m : Option x.Real
    pub reason_codes : List String
    pub model_id : Option String
    pub model_revision : Option String
    pub reference_revision : Option String
    pub shadow_only : Bool

  pub record FireActivityProposal : Type 0 where
    pub proposal_id : String
    pub attempt_id : String
    pub phenomenon : PhenomenonKind
    pub observed_time : x.Time
    pub geometry_geojson : x.Geometry
    pub horizontal_accuracy_m : x.Real

  pub record EventPipelineOutput : Type 0 where
    pub candidate_id : String
    pub status : PipelineStatus
    pub view_profile : Option ViewProfile
    pub perception_anchors : List PerceptionAnchor
    pub spatial_evidence : List SpatialEvidence
    pub localization_attempts : List LocalizationAttempt
    pub event_proposals : List FireActivityProposal
    pub independent_external_families : List String
    pub contradictions : List (String × String)
    pub reason_codes : List String
