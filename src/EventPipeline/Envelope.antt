-- ===== src/EventPipeline/Envelope.antt =====
-- event_pipeline.py: the checks on an activity envelope and the attempts that support it.
use fireviewer_orchestrator.Common.{
  ltb, nat_eq, String, Bool, true, false, Option, none, some, List, [], ◌∷◌, ◌||◌, if◌then◌else◌,
  any, all, not, length,
}
use fireviewer_orchestrator.Common.Order.{string_ord}
use fireviewer_orchestrator.Common.Sets.{contains, ordered}
use fireviewer_orchestrator.Common.Dict.{keys, lookup, put}
use fireviewer_orchestrator.EventPipeline.{
  Sciences, PhenomenonKind, smoke_origin, smoke_column_base, thermal_hotspot, burned_area,
  simulation, is_localized,
}
use fireviewer_orchestrator.EventPipeline.Run.{Attempt}

pub data EnvelopeError : Type 0 where
  support_count invalid_geometry repeated_support unknown_attempt : EnvelopeError
  not_localized smoke_only forbidden_phenomenon : EnvelopeError

abbrev pub is_smoke : PhenomenonKind → Bool
is_smoke smoke_origin = true
is_smoke smoke_column_base = true
is_smoke _ = false

abbrev pub is_forbidden : PhenomenonKind → Bool
is_forbidden thermal_hotspot = true
is_forbidden burned_area = true
is_forbidden simulation = true
is_forbidden _ = false

-- A test of an attempt's phenomenon, false where it has none.
abbrev pub phenomenon_is : (PhenomenonKind → Bool) → Option PhenomenonKind → Bool
phenomenon_is test none = false
phenomenon_is test (some p) = test p

-- `ActivityEnvelopeCandidate`: the bounds of its field, then `polygon_only`; none is a valid candidate.
-- `validate_geojson_geometry` is another package's.
unfoldable pub check_candidate :
    {Geometry : Type 0}
    → (Geometry → List String → Bool)
    → Geometry
    → List String
    → Option EnvelopeError
check_candidate validate_geojson_geometry geometry support_attempt_ids =
    if ltb (length support_attempt_ids) 2 || ltb 512 (length support_attempt_ids)
    then some support_count
    else if not (validate_geojson_geometry geometry ("Polygon" ∷ "MultiPolygon" ∷ []))
    then some invalid_geometry
    else if not (nat_eq (length (ordered support_attempt_ids)) (length support_attempt_ids))
    then some repeated_support
    else none

module _ (x : Sciences) where
  -- `{attempt.attempt_id: attempt for attempt in attempts}`
  unfoldable pub by_id : List (String × Attempt x) → List (Attempt x) → List (String × Attempt x)
  by_id d [] = d
  by_id d (a ∷ attempts) = by_id (put a.attempt_id a d) attempts

  -- `[by_id[item] for item in ids]`, for the ids that are known
  unfoldable pub supports_of : List (String × Attempt x) → List String → List (Attempt x)
  supports_of d [] = []
  supports_of d (k ∷ ks) = elim (lookup k d) [
    | none ↦ supports_of d ks
    | some a ↦ a ∷ supports_of d ks
  ]

  -- The checks on the supports themselves.
  unfoldable pub check_supports : List (Attempt x) → Option EnvelopeError
  check_supports supports =
      if any (λ (a : Attempt x). not (is_localized a.status)) supports
      then some not_localized
      else if all (λ (a : Attempt x). phenomenon_is is_smoke a.phenomenon) supports
      then some smoke_only
      else if any (λ (a : Attempt x). phenomenon_is is_forbidden a.phenomenon) supports
      then some forbidden_phenomenon
      else none

  -- `validate_activity_envelope_supports`
  unfoldable pub validate_activity_envelope_supports :
      List String → List (Attempt x) → Option EnvelopeError
  validate_activity_envelope_supports support_attempt_ids attempts =
      let d = by_id [] attempts in
      if all (λ k. contains k (keys d)) support_attempt_ids
      then check_supports (supports_of d support_attempt_ids)
      else some unknown_attempt
