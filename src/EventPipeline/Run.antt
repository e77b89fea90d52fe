-- ===== src/EventPipeline/Run.antt =====
-- event_pipeline.py: `DeterministicEventPipeline.run` and its helpers.
pub mod Laws
use fireviewer_orchestrator.Common.{
  ℕ, leb, String, ◌+++◌, Bool, true, false, Option, none, some, List, [], ◌∷◌, ◌++◌, ◌≡◌, ◌||◌,
  ◌&&◌, if◌then◌else◌, any, all, map, not, nonempty, is_some, or_else, length, nat_eq,
}
use fireviewer_orchestrator.Common.Order.{Ord, ◌==◌, string_ord}
use fireviewer_orchestrator.Common.Sets.{contains, ordered}
use fireviewer_orchestrator.Common.Dict.{keys, lookup, put}
use fireviewer_orchestrator.Contracts.{text_or}
use fireviewer_orchestrator.EventPipeline.{
  ShotScale, ViewpointOrigin, ViewProfile, SemanticRole, PhenomenonKind, LocalizationMethod,
  LocalizationStatus, PipelineStatus, ExternalObservation, PerceptionFailure, Sciences, Viewpoint,
  EventCandidateBundle, PerceptionAnchor, SpatialEvidence, EventPipelineInput, LocalizationAttempt,
  FireActivityProposal, EventPipelineOutput, is_localized, is_sector, is_front, is_cross_view,
  is_raycast, source_can_seed_private_incident, conflict_pairs, all_pairs, external_summary,
  join_parts, wide, distant, close, tight, named_place, other_origin, ground_wide_named_viewpoint,
  ground_wide_known_viewpoint, ground_distant_known_viewpoint, ground_close_known_viewpoint,
  ground_tight_known_viewpoint, official_incident_statement, other_role, active_fire_point,
  visible_fire_front, smoke_origin, smoke_column_base, thermal_hotspot, burned_area, simulation,
  other_phenomenon, camera_raycast, cross_view_raycast, viewpoint_sector, other_method, localized,
  sector_only, abstained, needs_review, nothing_found,
}

module _ (x : Sciences) where
  abbrev pub Input : Type 0
  Input = EventPipelineInput x

  abbrev pub Anchor : Type 0
  Anchor = PerceptionAnchor x

  abbrev pub Spatial : Type 0
  Spatial = SpatialEvidence x

  abbrev pub Bundle : Type 0
  Bundle = EventCandidateBundle x

  abbrev pub Attempt : Type 0
  Attempt = LocalizationAttempt x

  abbrev pub Proposal : Type 0
  Proposal = FireActivityProposal x

  abbrev pub Output : Type 0
  Output = EventPipelineOutput x

  -- `classify_view_profile`
  unfoldable pub classify_view_profile : Bundle → Option ViewProfile
  classify_view_profile bundle = profile bundle.shot_scale bundle.viewpoint.origin
    where
      profile : Option ShotScale → ViewpointOrigin → Option ViewProfile
      profile none o = none
      profile (some wide) named_place = some ground_wide_named_viewpoint
      profile (some wide) (other_origin o) = some ground_wide_known_viewpoint
      profile (some distant) o = some ground_distant_known_viewpoint
      profile (some close) o = some ground_close_known_viewpoint
      profile (some tight) o = some ground_tight_known_viewpoint

  -- `_output_phenomenon`
  unfoldable pub output_phenomenon : PhenomenonKind → PhenomenonKind
  output_phenomenon smoke_column_base = smoke_origin
  output_phenomenon visible_fire_front = visible_fire_front
  output_phenomenon _ = active_fire_point

  -- `{item.anchor_id: item for item in evidence}`: the last of an identifier wins.
  unfoldable pub spatial_by_anchor :
      List (String × Spatial) → List Spatial → List (String × Spatial)
  spatial_by_anchor d [] = d
  spatial_by_anchor d (item ∷ items) = spatial_by_anchor (put item.anchor_id item d) items

  -- `_stable_id`
  unfoldable pub stable_id : String → List String → String
  stable_id prefix parts = prefix +++ "-" +++ x.sha256_24 (join_parts parts)

  -- `_bearing`
  unfoldable pub bearing : Viewpoint x → Anchor → Option x.Sector
  bearing viewpoint anchor =
      sector viewpoint.yaw_deg viewpoint.fov_deg anchor.source_point_normalized
    where
      sector : Option x.Real → Option x.Real → Option (x.Real × x.Real) → Option x.Sector
      sector (some yaw) (some fov) (some (u, v)) = some (x.sector_of yaw fov u)
      sector _ _ _ = none

  -- What the loop appends for one anchor.
  abbrev pub Step : Type 0
  Step = Attempt × Option Proposal

  module _ (bundle : Bundle) (anchor : Anchor) where
    -- An attempt of the anchor with the fields that every branch sets.
    abbrev pub attempt_of : LocalizationStatus → Option LocalizationMethod → List String → Attempt
    attempt_of status method reasons = record {
      attempt_id = stable_id "LOC" (bundle.candidate_id ∷ anchor.anchor_id ∷ []);
      anchor_id = some anchor.anchor_id;
      phenomenon = some (output_phenomenon anchor.phenomenon);
      status = status;
      method = method;
      sector = none;
      geometry_geojson = none;
      horizontal_accuracy_m = none;
      direction_uncertainty_deg = none;
      distance_uncertainty_m = none;
      reason_codes = reasons;
      model_id = anchor.model_id;
      model_revision = anchor.model_revision;
      reference_revision = none;
      shadow_only = false;
    }

    -- `front_geometry_insufficient`
    unfoldable pub front_geometry_insufficient : x.Geometry → Bool
    front_geometry_insufficient geometry =
        is_front (output_phenomenon anchor.phenomenon) && not (is_line (x.geometry_type geometry))
      where
        is_line : Option String → Bool
        is_line none = false
        is_line (some t) = contains t ("LineString" ∷ "MultiLineString" ∷ [])

    -- The projected branch after the raycast guards, with the two asserted fields.
    unfoldable pub localize : Spatial → x.Geometry → x.Real → Step
    localize spatial geometry accuracy =
        let attempt : Attempt =
          record (attempt_of localized (some spatial.method) (
            if front_geometry_insufficient geometry
            then "front_geometry_insufficient" ∷ []
            else [])) {
              geometry_geojson = some geometry;
              horizontal_accuracy_m = some accuracy;
              direction_uncertainty_deg = spatial.direction_uncertainty_deg;
              distance_uncertainty_m = spatial.distance_uncertainty_m;
              reference_revision = spatial.reference_revision;
            } in
        let proposal : Proposal = record {
          proposal_id = stable_id "EVP" (bundle.candidate_id ∷ anchor.anchor_id ∷ []);
          attempt_id = attempt.attempt_id;
          phenomenon = output_phenomenon anchor.phenomenon;
          observed_time = bundle.observed_time;
          geometry_geojson = geometry;
          horizontal_accuracy_m = accuracy;
        } in
        (attempt, if front_geometry_insufficient geometry then none else some proposal)

    -- The asserts: without a geometry or an accuracy the code raises.
    unfoldable pub assert_projection : Spatial → Option x.Geometry → Option x.Real → Option Step
    assert_projection spatial (some geometry) (some accuracy) =
        some (localize spatial geometry accuracy)
    assert_projection spatial _ _ = none

    -- The branch of projected evidence.
    unfoldable pub project_anchor : Spatial → Option Step
    project_anchor spatial =
        if is_raycast spatial.method && not (is_some spatial.reference_revision)
        then some (
          attempt_of abstained (some spatial.method) ("camera_pose_or_reference_missing" ∷ []),
          none,
        )
        else if is_cross_view spatial.method
        then some (
          record (attempt_of abstained (some spatial.method) ("cross_view_shadow_only" ∷ [])) {
            reference_revision = spatial.reference_revision;
            shadow_only = true;
          },
          none,
        )
        else assert_projection spatial spatial.geometry_geojson spatial.horizontal_accuracy_m

    -- The branches without projected evidence, at the reasons of an abstention.
    unfoldable pub fall_back : List String → Step
    fall_back reasons = elim (bearing bundle.viewpoint anchor) [
      | none ↦ (attempt_of abstained none reasons, none)
      | some sector ↦ (
        record (attempt_of sector_only (some viewpoint_sector) ("distance_unknown" ∷ [])) {
          sector = some sector;
        },
        none,
      )
    ]

    -- The body of the loop over anchors.
    unfoldable pub analyse_anchor : Option Spatial → Option Step
    analyse_anchor none = some (fall_back ("direction_and_distance_missing" ∷ []))
    analyse_anchor (some spatial) =
        if spatial.status == "projected"
        then project_anchor spatial
        else some (fall_back spatial.reason_codes)

  -- What the loop's lists become with one more step in front.
  unfoldable pub add_step :
      Option Step → Option (List Attempt × List Proposal) → Option (List Attempt × List Proposal)
  add_step (some (attempt, some proposal)) (some (attempts, proposals)) =
      some (attempt ∷ attempts, proposal ∷ proposals)
  add_step (some (attempt, none)) (some (attempts, proposals)) =
      some (attempt ∷ attempts, proposals)
  add_step _ _ = none

  -- The loop over anchors; none is an AssertionError.
  unfoldable pub analyse_anchors :
      Bundle → List (String × Spatial) → List Anchor → Option (List Attempt × List Proposal)
  analyse_anchors bundle evidence [] = some ([], [])
  analyse_anchors bundle evidence (anchor ∷ anchors) =
      add_step (analyse_anchor bundle anchor (lookup anchor.anchor_id evidence))
        (analyse_anchors bundle evidence anchors)

  -- An attempt without an anchor.
  abbrev pub unanchored : String → List String → Option String → Option String → Attempt
  unanchored attempt_id reasons model revision = record {
    attempt_id = attempt_id;
    anchor_id = none;
    phenomenon = none;
    status = abstained;
    method = none;
    sector = none;
    geometry_geojson = none;
    horizontal_accuracy_m = none;
    direction_uncertainty_deg = none;
    distance_uncertainty_m = none;
    reason_codes = reasons;
    model_id = model;
    model_revision = revision;
    reference_revision = none;
    shadow_only = false;
  }

  unfoldable pub failure_attempt : Bundle → PerceptionFailure → Attempt
  failure_attempt bundle failure =
      unanchored
        (stable_id "LOC" (
          bundle.candidate_id
          ∷ "perception-failure"
          ∷ text_or failure.evidence_asset_id failure.reason_code
          ∷ failure.reason_code
          ∷ []))
        (failure.reason_code ∷ []) failure.model_id failure.model_revision

  -- `if not attempts: ...`
  unfoldable pub or_no_anchor : Bundle → List Attempt → List Attempt
  or_no_anchor bundle [] =
      unanchored (stable_id "LOC" (bundle.candidate_id ∷ "no-anchor" ∷ []))
        ("no_visual_anchor" ∷ []) none none
      ∷ []
  or_no_anchor bundle (a ∷ attempts) = a ∷ attempts

  unfoldable pub all_reasons : List Attempt → List String
  all_reasons [] = []
  all_reasons (a ∷ attempts) = a.reason_codes ++ all_reasons attempts

  abbrev pub is_reviewable : Attempt → Bool
  is_reviewable a = is_localized a.status || is_sector a.status

  -- The end of `run`, from the two lists of its loops.
  unfoldable pub conclude : Input → List Attempt → List Proposal → Output
  conclude value attempts proposals =
      let summary = external_summary value.bundle.external_observations in
      let profile = classify_view_profile value.bundle in
      record {
        candidate_id = value.bundle.candidate_id;
        status =
            if nonempty proposals || any is_reviewable attempts
            then needs_review
            else nothing_found;
        view_profile = profile;
        perception_anchors = value.perception_anchors;
        spatial_evidence = value.spatial_evidence;
        localization_attempts = attempts;
        event_proposals = proposals;
        independent_external_families = summary.0;
        contradictions = summary.1;
        reason_codes = ordered (
            if is_some profile
            then all_reasons attempts
            else "view_profile_unclassified" ∷ all_reasons attempts);
      }

  -- The rest of `run` after the loop over anchors: the failures, the fallback, the output.
  unfoldable pub after_anchors :
      Input → List PerceptionFailure → Option (List Attempt × List Proposal) → Option Output
  after_anchors value failures none = none
  after_anchors value failures (some (attempts, proposals)) = some (
      conclude value
        (or_no_anchor value.bundle (attempts ++ map (failure_attempt value.bundle) failures))
        proposals)

  -- `run`; none is an AssertionError.
  unfoldable pub run : Input → List PerceptionFailure → Option Output
  run value failures = after_anchors value failures (
      analyse_anchors value.bundle (spatial_by_anchor [] value.spatial_evidence)
        value.perception_anchors)
