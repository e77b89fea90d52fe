-- ===== src/V2Runner/Facts.antt =====
-- v2_runner.py: the fact proposals of an item's observations.
pub mod Laws
use Prim.Native.Char.{Char, code}
use fireviewer_orchestrator.Common.{
  ℕ, ◌+◌, String, ◌+++◌, Bool, true, false, not, Option, none, some, List, [], ◌∷◌, ◌||◌, ◌&&◌,
  if◌then◌else◌, leb, nat_eq, or_else,
}
use fireviewer_orchestrator.Common.Order.{Ord, ◌==◌, string_ord}
use fireviewer_orchestrator.Common.Texts.{str_take, contains_one}
use fireviewer_orchestrator.V2Runner.{
  Externals, WorkerInputV2, WorkerBatchItemV2, LegacyResult, Observation, FactProposalV2,
  SatelliteV2, FactCategory, fire_activity, burned_area, resources, evacuation, access,
  infrastructure, weather, other, stable_id,
}

-- A character of `[A-Za-z0-9._:-]`.
unfoldable pub is_key_char : Char → Bool
is_key_char c =
    (leb 65 (code c) && leb (code c) 90)
    || (leb 97 (code c) && leb (code c) 122)
    || (leb 48 (code c) && leb (code c) 57)
    || nat_eq (code c) 46
    || nat_eq (code c) 95
    || nat_eq (code c) 58
    || nat_eq (code c) 45

-- A character of `"_.:-"`.
unfoldable pub is_stripped : Char → Bool
is_stripped c = nat_eq (code c) 95 || nat_eq (code c) 46 || nat_eq (code c) 58 || nat_eq (code c) 45

-- What a character becomes, before the rest of the text, by whether it is of the class and whether a
-- run of other characters is under way.
unfoldable pub keep_char : Bool → Bool → Char → String → String
keep_char true in_run c rest = String.◌∷◌ c rest
keep_char false true c rest = rest
keep_char false false c rest = String.◌∷◌ "_" rest

-- `re.sub(r"[^A-Za-z0-9._:-]+", "_", value)`, in a run or not.
unfoldable pub replace_runs : Bool → String → String
replace_runs in_run String.[] = ""
replace_runs in_run (String.◌∷◌ c s) =
    keep_char (is_key_char c) in_run c (replace_runs (not (is_key_char c)) s)

-- `lstrip("_.:-")`, `rstrip("_.:-")`, `strip("_.:-")`
unfoldable pub strip_left : String → String
strip_left String.[] = ""
strip_left (String.◌∷◌ c s) = elim (is_stripped c) [ true ↦ strip_left s | false ↦ String.◌∷◌ c s ]

unfoldable pub strip_right : String → String
strip_right String.[] = ""
strip_right (String.◌∷◌ c s) =
    let rest = strip_right s in if rest == "" && is_stripped c then "" else String.◌∷◌ c rest

abbrev pub strip : String → String
strip s = strip_right (strip_left s)

-- `_safe_fact_key`
unfoldable pub safe_fact_key : String → String
safe_fact_key value =
    let normalized = strip (replace_runs false value) in
    str_take 128 (if normalized == "" then "observation" else normalized)

module _ (x : Externals) where
  -- `_fact_category`
  unfoldable pub fact_category : String → FactCategory
  fact_category fact_type =
      let lowered = x.casefold fact_type in
      if contains_one ("burned_area" ∷ "surface_brul" ∷ "hectare" ∷ []) lowered
      then burned_area
      else if contains_one ("smoke" ∷ "flame" ∷ "fire" ∷ "fum" ∷ "feu" ∷ "progression" ∷ []) lowered
      then fire_activity
      else if contains_one
          ("vehicle" ∷ "aircraft" ∷ "personnel" ∷ "pompier" ∷ "avion" ∷ "helicop" ∷ "resource"
            ∷ "moyen" ∷ "donation" ∷ "don_" ∷ [])
          lowered
      then resources
      else if contains_one ("evac" ∷ "confin" ∷ "shelter" ∷ "hébergement" ∷ "hebergement" ∷ [])
          lowered
      then evacuation
      else if contains_one ("route" ∷ "road" ∷ "access" ∷ "restriction" ∷ "fermeture" ∷ []) lowered
      then access
      else if contains_one
          ("building" ∷ "infrastructure" ∷ "bâtiment" ∷ "casualty" ∷ "damage" ∷ "victime" ∷ "degat"
            ∷ "service_disruption" ∷ [])
          lowered
      then infrastructure
      else if contains_one
          ("weather" ∷ "wind" ∷ "vent" ∷ "météo" ∷ "air_quality" ∷ "pollution" ∷ []) lowered
      then weather
      else other

  -- `item.captured_at or (item.satellite.acquired_at if item.satellite else None) or …`
  unfoldable pub as_of : WorkerInputV2 x → Option x.Time → Option (SatelliteV2 x) → x.Time
  as_of batch (some t) satellite = t
  as_of batch none (some satellite) = satellite.acquired_at
  as_of batch none none = batch.window_end_at

  unfoldable pub fact_of :
      WorkerInputV2 x → WorkerBatchItemV2 x → ℕ → Observation → FactProposalV2 x
  unfolding as_of
  fact_of batch item index observation = record {
    fact_id =
        stable_id x "FACT"
          (item.input_id ∷ x.str index ∷ observation.kind ∷ observation.description ∷ []);
    input_id = item.input_id;
    category = fact_category observation.kind;
    fact_key = safe_fact_key observation.kind;
    as_of = as_of batch item.captured_at item.satellite;
    evidence_kind =
        if observation.evidence_kind == "image" && item.media_type == "satellite_image"
        then "satellite_image"
        else observation.evidence_kind;
    evidence_id = observation.evidence_id;
    certainty = observation.certainty;
    value_text = observation.description;
    summary = observation.description;
  }

  -- The loop of `_fact_proposals`, from an index on.
  unfoldable pub facts_from :
      WorkerInputV2 x → WorkerBatchItemV2 x → ℕ → List Observation → List (FactProposalV2 x)
  facts_from batch item index [] = []
  facts_from batch item index (o ∷ os) =
      fact_of batch item index o ∷ facts_from batch item (index + 1) os

  -- `_fact_proposals`
  unfoldable pub fact_proposals :
      WorkerInputV2 x → WorkerBatchItemV2 x → LegacyResult x → List (FactProposalV2 x)
  fact_proposals batch item legacy_result =
      facts_from batch item 1 legacy_result.factual_observations
