-- ===== src/Tests/Events.antt =====
-- event_pipeline.py and incident_updates.py at concrete inputs.
use fireviewer_orchestrator.Common.{
  ℕ, String, false, none, some, List, [], ◌∷◌, ◌≡◌, refl, is_some, nonempty, not, ◌||◌, ◌&&◌,
}
use fireviewer_orchestrator.Common.Order.{◌==◌, string_ord}
use fireviewer_orchestrator.Common.Dict.{lookup, put}
use fireviewer_orchestrator.IncidentUpdates.{TemporalEvidence, plan_incident_enrichment}
use fireviewer_orchestrator.IncidentUpdates.Laws.{
  requires, is_revoked, is_ended, plan-fusion, plan-geolocation,
}
use fireviewer_orchestrator.EventPipeline.{
  Sciences, active_fire_point, other_origin, wide, other_method,
}
use fireviewer_orchestrator.EventPipeline.Run.{
  Input, Attempt, Anchor, Spatial, Output, run, conclude, localize, stable_id, after_anchors,
  analyse_anchors, add_step, analyse_anchor, project_anchor, assert_projection,
  front_geometry_insufficient, output_phenomenon, spatial_by_anchor, or_no_anchor,
}
use fireviewer_orchestrator.EventPipeline.Run.Laws.{Reviewed, run-Reviewed}

abbrev audio_evidence : TemporalEvidence String
audio_evidence = record {
  admissibility = "admitted";
  enrichment_state = "pending";
  observed_at = some "2025-07-01T12:00:00Z";
  observations = [];
  media_kind = "audio";
  needs_human_review = false;
  processing = [];
}

plan-fusion_example : requires "fusion" (plan_incident_enrichment audio_evidence) ≡ (
    is_revoked audio_evidence
    || (not (is_ended audio_evidence)
        && (is_some audio_evidence.observed_at
            && (nonempty audio_evidence.observations
                && (audio_evidence.admissibility == "admitted")))))
plan-fusion_example = plan-fusion audio_evidence refl

plan-geolocation_example : requires "geolocation" (plan_incident_enrichment audio_evidence) ≡ (
    not (is_revoked audio_evidence)
    && (not (is_ended audio_evidence)
        && (is_some audio_evidence.observed_at && not (nonempty audio_evidence.observations))))
plan-geolocation_example = plan-geolocation audio_evidence refl

-- Texts for numbers, geometries and times, with a digest that is the text itself.
abbrev plain_sciences : Sciences
plain_sciences = record {
  Real = ℕ;
  Geometry = String;
  Sector = ℕ;
  Time = String;
  sha256_24 = λ s. s;
  sector_of = λ yaw fov u. yaw;
  geometry_type = λ g. some "Point";
}

abbrev fire_anchor : Anchor plain_sciences
fire_anchor = record {
  anchor_id = "a1";
  phenomenon = active_fire_point;
  source_point_normalized = none;
  model_id = some "m";
  model_revision = some "r";
}

abbrev fire_evidence : Spatial plain_sciences
fire_evidence = record {
  anchor_id = "a1";
  status = "projected";
  method = other_method "survey";
  reference_revision = none;
  geometry_geojson = some "POINT";
  horizontal_accuracy_m = some 5;
  direction_uncertainty_deg = none;
  distance_uncertainty_m = none;
  reason_codes = [];
}

abbrev fire_input : Input plain_sciences
fire_input = record {
  bundle = record {
    candidate_id = "c1";
    shot_scale = some wide;
    viewpoint = record { origin = other_origin "gps"; yaw_deg = none; fov_deg = none };
    observed_time = "t";
    external_observations = [];
  };
  perception_anchors = fire_anchor ∷ [];
  spatial_evidence = fire_evidence ∷ [];
}

abbrev fire_output : Output plain_sciences
fire_output =
    conclude plain_sciences fire_input
      ((localize plain_sciences fire_input.bundle fire_anchor fire_evidence "POINT" 5).0 ∷ [])
      (record {
        proposal_id = stable_id plain_sciences "EVP" ("c1" ∷ "a1" ∷ []);
        attempt_id = stable_id plain_sciences "LOC" ("c1" ∷ "a1" ∷ []);
        phenomenon = active_fire_point;
        observed_time = "t";
        geometry_geojson = "POINT";
        horizontal_accuracy_m = 5;
      }
        ∷ [])

fire_input-run : run plain_sciences fire_input [] ≡ some fire_output
unfolding run after_anchors analyse_anchors add_step analyse_anchor project_anchor assert_projection
    localize front_geometry_insufficient output_phenomenon spatial_by_anchor or_no_anchor lookup put
fire_input-run = refl

run-Reviewed_example : Reviewed plain_sciences fire_input [] fire_output
run-Reviewed_example = run-Reviewed plain_sciences fire_input [] fire_output fire_input-run

abbrev fire_attempts : List (Attempt plain_sciences)
fire_attempts =
    (localize plain_sciences fire_input.bundle fire_anchor fire_evidence "POINT" 5).0 ∷ []
