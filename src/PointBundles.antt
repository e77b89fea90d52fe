-- ===== src/PointBundles.antt =====
-- point_bundle_pipeline.py: a supervisor's dossier for each geographic hypothesis of an event. Models of
-- other packages appear by the fields that the code reads; numbers, SHA-256, the service that locates
-- an event, the validation of an event and the assembler are parameters.
pub mod Laws
use fireviewer_orchestrator.Common.{
  ℕ, suc, ◌+◌, String, ◌+++◌, Bool, true, false, not, Option, none, some, List, [], ◌∷◌, ◌++◌, ◌&&◌,
  ◌||◌, if◌then◌else◌, keep, all, any, map, nonempty, traverse,
}
use fireviewer_orchestrator.Common.Order.{Ord, ◌==◌, string_ord, str_le}
use fireviewer_orchestrator.Common.Sets.{contains}
use fireviewer_orchestrator.Common.Dict.{lookup, put}
use fireviewer_orchestrator.Common.Texts.{join}

pub record GeographicReference : Type 0 where
  pub reference_id : String
  pub reference_kind : String

pub record UploadLocation : Type 0 where
  pub media_id : String
  pub handed_on : String

-- The numbers of the scores, with their order, and the first 24 hexadecimal digits of a SHA-256.
pub record Scoring : Type 1 where
  pub Real : Type 0
  pub le : Real → Real → Bool
  pub add : Real → Real → Real
  pub half : Real → Real
  pub sha256_24 : String → String

-- `_stable_id`
unfoldable pub stable_id : Scoring → String → String → String
stable_id x prefix part = prefix +++ "-" +++ x.sha256_24 part

-- `tuple(dict.fromkeys(xs))`: the first of each text.
unfoldable pub distinct : List String → List String → List String
distinct seen [] = []
distinct seen (k ∷ ks) = if contains k seen then distinct seen ks else k ∷ distinct (k ∷ seen) ks

abbrev pub reference_ids : List GeographicReference → List String
reference_ids references = map (λ (r : GeographicReference). r.reference_id) references

-- The references of some kinds.
abbrev pub of_kinds : List String → List GeographicReference → List GeographicReference
of_kinds kinds references =
    keep (λ (r : GeographicReference). contains r.reference_kind kinds) references

abbrev pub satellite_references : List GeographicReference → List GeographicReference
satellite_references references =
    of_kinds ("satellite_hotspot" ∷ "satellite_active_area" ∷ []) references

module _ (x : Scoring) where
  pub record GeographicHypothesis : Type 0 where
    pub hypothesis_id : String
    pub observation_id : String
    pub media_id : String
    pub longitude : x.Real
    pub latitude : x.Real
    pub horizontal_uncertainty_m : x.Real
    pub score : x.Real
    pub visual : x.Real
    pub camera_bearing : x.Real
    pub terrain_visibility : x.Real
    pub satellite : x.Real
    pub temporal_alignment : Option x.Real
    pub history_progression : Option x.Real
    pub supporting_reference_ids : List String
    pub phenomenon : String

  pub record GeographicResult : Type 0 where
    pub provider_id : String
    pub provider_version : String
    pub hypotheses : List GeographicHypothesis

  pub record LocationCandidate : Type 0 where
    pub candidate_id : String
    pub longitude : x.Real
    pub latitude : x.Real
    pub radius_m : x.Real
    pub score : x.Real
    pub rank : ℕ
    pub evidence_kind : String
    pub provider_id : String
    pub provider_version : String
    pub source_id : String
    pub media_id : String
    pub reference_id : String
    pub raw_score : x.Real
    pub temporal_consistency : Option x.Real
    pub geometric_consistency : x.Real

  -- The media of an event by their identifiers, with their sources.
  pub record EventEvidence : Type 0 where
    pub media : List (String × String)
    pub location_candidates : List LocationCandidate
    pub handed_on : String

  pub record DurableEventEvidence : Type 0 where
    pub event : EventEvidence
    pub geographic_references : List GeographicReference
    pub prior_fire_states : List String
    pub upload_locations : List UploadLocation

  -- The status is always `supported`.
  pub record ConsistencyCheck : Type 0 where
    pub check_id : String
    pub check_type : String
    pub score : Option x.Real
    pub reason_code : String
    pub evidence_ids : List String

  -- What the assembler is called with, besides the event.
  pub record Dossier : Type 0 where
    pub candidate_id : String
    pub upload_locations : List UploadLocation
    pub prior_fire_states : List String
    pub geographic_references : List GeographicReference
    pub geospatial_checks : List ConsistencyCheck
    pub phenomenon : String

  -- `media_by_id`
  unfoldable pub media_by_id :
      List (String × String) → List (String × String) → List (String × String)
  media_by_id d [] = d
  media_by_id d ((id, source) ∷ media) = media_by_id (put id source d) media

  -- `_candidate_for`, by the media's source; none is a ValueError.
  unfoldable pub candidate_at :
      GeographicHypothesis → GeographicResult → ℕ → Option String → Option LocationCandidate
  candidate_at h result rank none = none
  candidate_at h result rank (some source) = some (record {
    candidate_id = h.hypothesis_id;
    longitude = h.longitude;
    latitude = h.latitude;
    radius_m = h.horizontal_uncertainty_m;
    score = h.score;
    rank = rank;
    evidence_kind = "geometric_verification";
    provider_id = result.provider_id;
    provider_version = result.provider_version;
    source_id = source;
    media_id = h.media_id;
    reference_id = h.observation_id;
    raw_score = h.visual;
    temporal_consistency = h.temporal_alignment;
    geometric_consistency = x.half (x.add h.camera_bearing h.terrain_visibility);
  })

  unfoldable pub candidate_for :
      GeographicHypothesis → GeographicResult → EventEvidence → ℕ → Option LocationCandidate
  unfolding candidate_at
  candidate_for h result event rank =
      candidate_at h result rank (lookup h.media_id (media_by_id [] event.media))

  -- `_supported_references`: none where a supporting reference is not resolved.
  unfoldable pub supported_references :
      GeographicHypothesis → DurableEventEvidence → Option (List GeographicReference)
  supported_references h durable =
      let references =
        keep (λ (r : GeographicReference). contains r.reference_id h.supporting_reference_ids)
          durable.geographic_references in
      if all (λ id. contains id (reference_ids references)) h.supporting_reference_ids
      then some references
      else none

  abbrev pub check :
      String
      → String
      → GeographicHypothesis
      → Option x.Real
      → String
      → List String
      → ConsistencyCheck
  check prefix kind h score reason evidence = record {
    check_id = stable_id x prefix h.hypothesis_id;
    check_type = kind;
    score = score;
    reason_code = reason;
    evidence_ids = evidence;
  }

  -- A check that a score calls for.
  abbrev pub check_if : Option x.Real → (x.Real → ConsistencyCheck) → List ConsistencyCheck
  check_if none f = []
  check_if (some s) f = f s ∷ []

  -- `_checks_for`, once there is satellite provenance.
  unfoldable pub checks_with :
      GeographicHypothesis
      → List GeographicReference
      → DurableEventEvidence
      → List String
      → List ConsistencyCheck
  checks_with h references durable satellite_ids =
      let common_ids = h.hypothesis_id ∷ h.observation_id ∷ h.media_id ∷ [] in
      let satellite_evidence = distinct [] (common_ids ++ satellite_ids) in
      let history_ids = reference_ids (
        of_kinds ("prior_active_point" ∷ "prior_fire_front" ∷ "prior_perimeter" ∷ []) references) in
      check "CHECK-DISTANCE" "camera_distance" h none "camera_distance_within_geographic_gate"
        common_ids
      ∷ check "CHECK-BEARING" "camera_bearing" h (some h.camera_bearing)
          "visual_box_bearing_supported" common_ids
      ∷ check "CHECK-TERRAIN" "terrain_visibility" h (some h.terrain_visibility)
          "terrain_line_of_sight_supported" common_ids
      ∷ check "CHECK-SATELLITE" "satellite_overlap" h (some h.satellite)
          "satellite_reference_supported" satellite_evidence
      ∷ (check_if h.temporal_alignment (λ s.
            check "CHECK-TEMPORAL" "temporal_alignment" h (some s) "satellite_time_window_supported"
              satellite_evidence)
          ++ check_if h.history_progression (λ s.
            check "CHECK-HISTORY" "history_progression" h (some s)
              "history_progression_supported_as_non_absolute_prior"
              (distinct [] (h.hypothesis_id ∷ (history_ids ++ durable.prior_fire_states)))))

  unfoldable pub checks_for :
      GeographicHypothesis
      → List GeographicReference
      → DurableEventEvidence
      → Option (List ConsistencyCheck)
  checks_for h references durable =
      let satellite_ids = reference_ids (satellite_references references) in
      if nonempty satellite_ids then some (checks_with h references durable satellite_ids) else none

  -- The key `(-item.score, item.hypothesis_id)`.
  abbrev pub comes_before : GeographicHypothesis → GeographicHypothesis → Bool
  comes_before a b =
      if x.le a.score b.score && x.le b.score a.score
      then str_le a.hypothesis_id b.hypothesis_id
      else x.le b.score a.score

  unfoldable pub insert_hypothesis :
      GeographicHypothesis → List GeographicHypothesis → List GeographicHypothesis
  insert_hypothesis h [] = h ∷ []
  insert_hypothesis h (k ∷ ks) =
      let rest = insert_hypothesis h ks in if comes_before h k then h ∷ k ∷ ks else k ∷ rest

  -- `sorted`
  unfoldable pub sorted_hypotheses : List GeographicHypothesis → List GeographicHypothesis
  sorted_hypotheses [] = []
  sorted_hypotheses (h ∷ hs) = insert_hypothesis h (sorted_hypotheses hs)

  -- `enumerate(hypotheses, start=rank)`
  unfoldable pub ranked : ℕ → List GeographicHypothesis → List (ℕ × GeographicHypothesis)
  ranked rank [] = []
  ranked rank (h ∷ hs) = (rank, h) ∷ ranked (rank + 1) hs

  unfoldable pub dossier_of :
      GeographicHypothesis
      → DurableEventEvidence
      → List GeographicReference
      → Option (List ConsistencyCheck)
      → Option Dossier
  dossier_of h durable references none = none
  dossier_of h durable references (some checks) = some (record {
    candidate_id = h.hypothesis_id;
    upload_locations =
        keep (λ (l : UploadLocation). l.media_id == h.media_id) durable.upload_locations;
    prior_fire_states = durable.prior_fire_states;
    geographic_references = references;
    geospatial_checks = checks;
    phenomenon = h.phenomenon;
  })

  -- The references, then the checks, of one hypothesis.
  unfoldable pub dossier_with :
      GeographicHypothesis
      → DurableEventEvidence
      → Option (List GeographicReference)
      → Option Dossier
  unfolding dossier_of
  dossier_with h durable none = none
  dossier_with h durable (some references) =
      dossier_of h durable references (checks_for h references durable)

  abbrev pub dossier : DurableEventEvidence → GeographicHypothesis → Option Dossier
  dossier durable h = dossier_with h durable (supported_references h durable)

  -- The event with the candidates of the hypotheses, before its validation.
  unfoldable pub with_candidates :
      EventEvidence → Option (List LocationCandidate) → Option EventEvidence
  with_candidates event none = none
  with_candidates event (some candidates) =
      some (record event { location_candidates = event.location_candidates ++ candidates })

  -- The loop over the hypotheses, with an event that was validated; an assembler may raise.
  unfoldable pub bundles_of :
      {Bundle : Type 0}
      → (EventEvidence → Dossier → Option Bundle)
      → Option EventEvidence
      → Option (List Dossier)
      → Option (List Bundle)
  bundles_of assemble none dossiers = none
  bundles_of assemble (some event) none = none
  bundles_of assemble (some event) (some dossiers) = traverse (assemble event) dossiers

  abbrev pub and_validate :
      (EventEvidence → Option EventEvidence) → Option EventEvidence → Option EventEvidence
  and_validate validate none = none
  and_validate validate (some event) = validate event

  -- `build`, after the service located the event; none is an exception. The hypotheses' candidates,
  -- the event with them, and the bundles.
  unfoldable pub build :
      {Bundle : Type 0}
      → (EventEvidence → Option EventEvidence)
      → (EventEvidence → Dossier → Option Bundle)
      → DurableEventEvidence
      → GeographicResult
      → Option (List Bundle)
  build validate assemble durable result =
      let existing_ids =
        map (λ (c : LocationCandidate). c.candidate_id) durable.event.location_candidates in
      let hypotheses = sorted_hypotheses result.hypotheses in
      if not (nonempty result.hypotheses)
      then some []
      else if any (λ (h : GeographicHypothesis). contains h.hypothesis_id existing_ids) hypotheses
      then none
      else bundles_of assemble
          (and_validate validate (
            with_candidates durable.event (
              traverse
                (λ ((rank, h) : ℕ × GeographicHypothesis).
                  candidate_for h result durable.event rank)
                (ranked 1 hypotheses))))
          (traverse (dossier durable) hypotheses)
