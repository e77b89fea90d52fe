-- ===== src/SessionRunner/Patches.antt =====
-- session_runner.py: an adapter's patches, merged into the results and validated.
pub mod Laws
use fireviewer_orchestrator.Common.{
  ℕ, ◌+◌, ◌≤◌, String, Bool, true, false, Option, none, some, List, [], ◌∷◌, ◌≡◌, ◌||◌, refl,
  if◌then◌else◌, or_else, map, length, count_if, arith, is_some, Bool-cases, inl, inr, ◌⊎◌,
}
use Prim.Native.Nat.{max}
use fireviewer_orchestrator.Common.Order.{Ord, ◌==◌, string_ord}
use fireviewer_orchestrator.Common.Sets.{contains, ordered}
use fireviewer_orchestrator.Common.Dict.{
  keys, values, lookup, put, is_some-lookup, keys-put_present,
}
use fireviewer_orchestrator.Contracts.{ItemResult, ItemPatch, BatchItem, WorkerInput}
use fireviewer_orchestrator.SessionRunner.Effects.{
  Fault, output_validation_error, Outcome, ok, raised,
}

abbrev pub Results : Type 0
Results = List (String × ItemResult)

abbrev pub Patches : Type 0
Patches = List (String × ItemPatch)

-- `PipelineModelRole` and `ROLE_ORDER`
pub data PipelineModelRole : Type 0 where
  asr fire_detection visual_grounding multimodal_extraction : PipelineModelRole

abbrev pub role_order : List PipelineModelRole
role_order = asr ∷ fire_detection ∷ visual_grounding ∷ multimodal_extraction ∷ []

-- the text of the literal
abbrev pub role_text : PipelineModelRole → String
role_text asr = "asr"
role_text fire_detection = "fire_detection"
role_text visual_grounding = "visual_grounding"
role_text multimodal_extraction = "multimodal_extraction"

unfoldable pub model_role_v2 : PipelineModelRole → String
model_role_v2 fire_detection = "visual_filtering"
model_role_v2 role = role_text role

-- `_as_patch`
unfoldable pub as_patch : ItemResult → ItemPatch
as_patch r = record {
  transcript = some r.segments;
  pixel_regions = some r.pixel_regions;
  visual_evidence_selection = some r.visual_evidence_selection;
  factual_observations = some r.factual_observations;
  explicit_places = some r.explicit_places;
  explicit_times = some r.explicit_times;
}

-- `_merge`
unfoldable pub merge : ItemResult → ItemPatch → ItemResult
merge r p = record r {
  segments = or_else p.transcript r.segments;
  pixel_regions = or_else p.pixel_regions r.pixel_regions;
  visual_evidence_selection = or_else p.visual_evidence_selection r.visual_evidence_selection;
  factual_observations = or_else p.factual_observations r.factual_observations;
  explicit_places = or_else p.explicit_places r.explicit_places;
  explicit_times = or_else p.explicit_times r.explicit_times;
}

-- The first loop of `_validated_candidates`: an id that the results lack raises.
unfoldable pub apply_patches : Results → Patches → Outcome Results
apply_patches candidate [] = ok candidate
apply_patches candidate ((input_id, patch) ∷ patches) =
    let found = lookup input_id candidate in
    elim found [
      | none ↦ raised output_validation_error
      | some r ↦ apply_patches (put input_id (merge r patch) candidate) patches
    ]

-- The second loop. `candidate[item.input_id]` raises `KeyError` on a missing id.
unfoldable pub validate_items :
    (BatchItem → ItemResult → Bool) → List BatchItem → Results → Outcome (Unit {0})
validate_items validate_item_result [] candidate = ok tt
validate_items validate_item_result (item ∷ items) candidate =
    let rest = validate_items validate_item_result items candidate in
    elim (lookup item.input_id candidate) [
      | none ↦ raised Fault.other_error
      | some r ↦ if validate_item_result item r then rest else raised output_validation_error
    ]

unfoldable pub validated_candidates :
    (BatchItem → ItemResult → Bool) → WorkerInput → Results → Patches → Outcome Results
validated_candidates validate_item_result batch results patches =
    elim (apply_patches results patches) [
      | raised f ↦ raised f
      | ok candidate ↦ elim (validate_items validate_item_result batch.items candidate) [
        | raised f ↦ raised f
        | ok _ ↦ ok candidate
      ]
    ]

unfoldable pub pick : Patches → List String → Patches
pick patches [] = []
pick patches (k ∷ ks) = elim (lookup k patches) [
  | none ↦ pick patches ks
  | some p ↦ (k, p) ∷ pick patches ks
]

-- `_candidate_payload`: the patches by ascending id, without the fields left out.
unfoldable pub candidate_payload : Patches → Patches
unfolding pick
candidate_payload patches = pick patches (ordered (keys patches))

-- The body of the loop of `_maximum_stage_output_items`.
unfoldable pub stage_output_items : PipelineModelRole → ItemResult → ℕ
stage_output_items asr r = length r.segments
stage_output_items fire_detection r =
    count_if (λ p. p.task == "fire_detection") r.pixel_regions + length r.visual_evidence_selection
stage_output_items visual_grounding r =
    count_if (λ p. contains p.task ("phrase_grounding" ∷ "ocr" ∷ [])) r.pixel_regions
stage_output_items multimodal_extraction r =
    length r.factual_observations + length r.explicit_places + length r.explicit_times

-- `max(counts, default=0)`
unfoldable pub maximum_stage_output_items : PipelineModelRole → List ItemResult → ℕ
unfolding stage_output_items
maximum_stage_output_items role [] = 0
maximum_stage_output_items role (r ∷ rs) =
    max (stage_output_items role r) (maximum_stage_output_items role rs)
