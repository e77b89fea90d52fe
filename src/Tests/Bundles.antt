-- ===== src/Tests/Bundles.antt =====
-- point_bundle_pipeline.py at a concrete event with one hypothesis.
use fireviewer_orchestrator.Common.{
  ℕ, ◌+◌, ◌/◌, String, Option, none, some, List, [], ◌∷◌, ◌≡◌, refl, leb, traverse, All₂,
}
use fireviewer_orchestrator.Common.Order.{string_ord}
use fireviewer_orchestrator.Common.Dict.{lookup, put}
use fireviewer_orchestrator.PointBundles.{
  Scoring, GeographicHypothesis, GeographicResult, EventEvidence, DurableEventEvidence, Dossier,
  sorted_hypotheses, insert_hypothesis, build, ranked, candidate_for, media_by_id, bundles_of,
  with_candidates, dossier_with, supported_references, checks_for,
}
use fireviewer_orchestrator.PointBundles.Laws.{IsSupported, build-IsSupported}

abbrev scoring : Scoring
scoring = record { Real = ℕ; le = leb; add = λ a b. a + b; half = λ a. a / 2; sha256_24 = λ s. s }

abbrev hypothesis : GeographicHypothesis scoring
hypothesis = record {
  hypothesis_id = "HYP-1";
  observation_id = "OBS-1";
  media_id = "m1";
  longitude = 3;
  latitude = 44;
  horizontal_uncertainty_m = 100;
  score = 9;
  visual = 8;
  camera_bearing = 7;
  terrain_visibility = 6;
  satellite = 5;
  temporal_alignment = some 4;
  history_progression = none;
  supporting_reference_ids = "sat-1" ∷ [];
  phenomenon = "active_fire";
}

abbrev located : GeographicResult scoring
located = record { provider_id = "provider"; provider_version = "1"; hypotheses = hypothesis ∷ [] }

abbrev durable : DurableEventEvidence scoring
durable = record {
  event = record { media = ("m1", "source") ∷ []; location_candidates = []; handed_on = "" };
  geographic_references =
      record { reference_id = "sat-1"; reference_kind = "satellite_hotspot" }
      ∷ record { reference_id = "old-1"; reference_kind = "prior_perimeter" }
      ∷ [];
  prior_fire_states = [];
  upload_locations = record { media_id = "m1"; handed_on = "" } ∷ [];
}

abbrev assemble : EventEvidence scoring → Dossier scoring → Option String
assemble event d = some d.candidate_id

one_bundle : build scoring some assemble durable located ≡ some ("HYP-1" ∷ [])
unfolding build sorted_hypotheses insert_hypothesis bundles_of with_candidates traverse ranked
    candidate_for lookup media_by_id put dossier_with supported_references checks_for
one_bundle = refl

build-IsSupported_example :
    (event : EventEvidence scoring) × (ds : List (Dossier scoring)) × (traverse (assemble event) ds
      ≡ some ("HYP-1" ∷ []))
    × All₂ (IsSupported scoring) (sorted_hypotheses scoring located.hypotheses) ds
build-IsSupported_example =
    build-IsSupported scoring some assemble durable located ("HYP-1" ∷ []) refl one_bundle
