-- ===== src/SessionRunner/Initial.antt =====
-- session_runner.py, `_temporal_sample` and `_initial_result`: the results before the first stage.
-- Python computes the sampled positions in floating point; they are the exact quotients here,
-- rounded to the nearest integer and to the even one on a tie, as `round` does.

use fireviewer_orchestrator.Common.{
  ℕ, zero, suc, ◌+◌, ◌-◌, ◌*◌, ◌/◌, ◌%◌, String, not, Option, none, some, List, [], ◌∷◌, ◌&&◌,
  if◌then◌else◌, ltb, leb, nat_eq, is_some, length, nonempty, get_elem?, map,
}
use fireviewer_orchestrator.Common.Order.{string_ord, nat_ord}
use fireviewer_orchestrator.Common.Sets.{contains, ordered}
use fireviewer_orchestrator.Common.Dict.{put}
use fireviewer_orchestrator.Contracts.{
  BatchItem, ItemResult, VisualEvidenceSelection, LocationOrigin, LocationStatus,
}
use fireviewer_orchestrator.SessionRunner.Effects.{other_error, Outcome, ok, raised}
use fireviewer_orchestrator.SessionRunner.Patches.{Results}

-- `round(a / d)`
unfoldable pub round_div : ℕ → ℕ → ℕ
round_div a d =
    let q = a / d in
    let r = a % d in
    if ltb (2 * r) d
    then q
    else if ltb d (2 * r)
    then q + 1
    else if nat_eq (q % 2) 0
    then q
    else q + 1

-- `round(position * (length - 1) / (limit - 1))` for the positions from `start` on
unfoldable pub positions : ℕ → ℕ → ℕ → ℕ → List ℕ
unfolding round_div
positions n limit start zero = []
positions n limit start (suc k) =
    round_div (start * (n - 1)) (limit - 1) ∷ positions n limit (start + 1) k

-- `tuple(evidence_ids[index] for index in indexes)`; `none` is an `IndexError`
unfoldable pub pick_all {ℓ} : {A : Type ℓ} → List A → List ℕ → Option (List A)
pick_all xs [] = some []
pick_all xs (i ∷ is) = elim (get_elem? xs i) [
  | none ↦ none
  | some x ↦ elim (pick_all xs is) [ none ↦ none | some ys ↦ some (x ∷ ys) ]
]

unfoldable pub temporal_sample {ℓ} : {A : Type ℓ} → List A → ℕ → Option (List A)
unfolding positions pick_all
temporal_sample evidence_ids limit =
    if leb (length evidence_ids) limit
    then some evidence_ids
    else if nat_eq limit 1
    then pick_all evidence_ids (length evidence_ids / 2 ∷ [])
    else pick_all evidence_ids (ordered (positions (length evidence_ids) limit 0 limit))

-- the status of an item with coordinates
abbrev pub located_status : LocationOrigin → LocationStatus
located_status LocationOrigin.metadata = LocationStatus.capture_location_only
located_status LocationOrigin.user_declared = LocationStatus.user_declared_observation_location
located_status LocationOrigin.explicit_source_geometry = LocationStatus.explicit_source_geometry
located_status LocationOrigin.human_confirmed = LocationStatus.human_confirmed_observation_location
located_status (LocationOrigin.other s) = LocationStatus.no_location

abbrev pub visual_sources : BatchItem → List String
visual_sources item =
    if not (nonempty item.frame_ids) && is_some item.working_file_url
    then item.input_id ∷ []
    else item.frame_ids

unfoldable pub selection_of : List String → List String → String → VisualEvidenceSelection
selection_of sources selected evidence_id = record {
  evidence_id = evidence_id;
  selected_for_grounding = contains evidence_id selected;
  selection_reason =
      if nat_eq (length sources) 1
      then "single_image"
      else if contains evidence_id selected
      then "detector_fallback"
      else "capacity_limit";
}

unfoldable pub result_of :
    BatchItem → LocationStatus → Option LocationOrigin → List String → ItemResult
unfolding selection_of
result_of item status marker selected = record {
  input_id = item.input_id;
  segments = [];
  pixel_regions = [];
  visual_evidence_selection =
      map (selection_of (visual_sources item) selected) (visual_sources item);
  factual_observations = [];
  explicit_places = [];
  explicit_times = [];
  location_status = status;
  marker_origin = marker;
  capture_location_available = is_some item.latitude;
  capture_location_origin = item.location_origin;
}

-- `_initial_result`. An item with coordinates and no origin fails the assertion.
unfoldable pub initial_result : BatchItem → Outcome ItemResult
unfolding temporal_sample result_of
initial_result item = elim (temporal_sample (visual_sources item) 8) [
  | none ↦ raised other_error
  | some selected ↦ elim item.latitude [
    | none ↦ ok (result_of item LocationStatus.no_location none selected)
    | some _ ↦ elim item.location_origin [
      | none ↦ raised other_error
      | some origin ↦ ok (result_of item (located_status origin) (some origin) selected)
    ]
  ]
]

-- `{item.input_id: _initial_result(item) for item in batch.items}`
unfoldable pub initial_results : List BatchItem → Results → Outcome Results
initial_results [] results = ok results
initial_results (item ∷ items) results = elim (initial_result item) [
  | raised f ↦ raised f
  | ok r ↦ initial_results items (put item.input_id r results)
]
