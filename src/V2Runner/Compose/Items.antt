-- ===== src/V2Runner/Compose/Items.antt =====
-- v2_runner.py: the items of a version 2 output, with what the pointing, burned area and spatial
-- stages of other packages left by input.
use fireviewer_orchestrator.Common.{
  ℕ, String, Bool, true, Option, none, some, List, [], ◌∷◌, ◌++◌, if◌then◌else◌, or_else, traverse,
}
use fireviewer_orchestrator.Common.Order.{◌==◌, string_ord}
use fireviewer_orchestrator.Common.Dict.{lookup, put}
use fireviewer_orchestrator.StageGates.{StageStatus}
use fireviewer_orchestrator.SessionRunner.Candidate.{ModelRun}
use fireviewer_orchestrator.SessionRunner.Stage.{StageTrace}
use fireviewer_orchestrator.SessionRunner.Run.{OverallStatus}
use fireviewer_orchestrator.V2Runner.{
  Externals, WorkerInputV2, WorkerBatchItemV2, LegacyResult, SourceAnnotationV2, WorkerItemResultV2,
  index_by,
}
use fireviewer_orchestrator.V2Runner.Annotations.{source_annotations}
use fireviewer_orchestrator.V2Runner.Spatial.{
  Proposal, hotspot_spatial_proposals, spatial_proposals,
}
use fireviewer_orchestrator.V2Runner.Facts.{fact_proposals}

pub record WorkerModelRunV2 : Type 0 where
  pub model_role : String
  pub model_id : String
  pub revision : String
  pub status : StageStatus
  pub load_ms : ℕ
  pub inference_ms : ℕ
  pub peak_vram_bytes : Option ℕ
  pub error_code : Option String

-- `xs or ys`
unfoldable pub or_list : {A : Type 0} → List A → List A → List A
or_list [] ys = ys
or_list (a ∷ xs) ys = a ∷ xs

-- `xs or ys` of optional sequences
unfoldable pub or_given : {A : Type 0} → Option (List A) → Option (List A) → Option (List A)
or_given (some (a ∷ xs)) ys = some (a ∷ xs)
or_given _ ys = ys

module _ (x : Externals) where
  -- The fields of `WorkerOutput` that are read.
  pub record LegacyOutput : Type 0 where
    pub status : OverallStatus
    pub retryable : Bool
    pub model_runs : List ModelRun
    pub items : List (LegacyResult x)
    pub validation_errors : List String
    pub boot_ms : ℕ

  pub record FirePointingExecution : Type 0 where
    pub annotations_by_input : List (String × List (SourceAnnotationV2 x))
    pub stage_trace : StageTrace
    pub model_run : Option WorkerModelRunV2

  pub record BurnedAreaExecution : Type 0 where
    pub annotations_by_input : List (String × List (SourceAnnotationV2 x))
    pub proposals_by_input : List (String × List (Proposal x))
    pub stage_trace : StageTrace
    pub model_run : Option WorkerModelRunV2

  pub record SpatialExecution : Type 0 where
    pub proposals_by_input : List (String × List (Proposal x))
    pub stage_traces : List StageTrace
    pub model_runs : List WorkerModelRunV2

  -- An entry of `prepared`.
  pub record Prepared : Type 0 where
    pub legacy_result : LegacyResult x
    pub source : WorkerBatchItemV2 x
    pub annotations : List (SourceAnnotationV2 x)

  unfoldable pub pointed_annotations :
      Option FirePointingExecution → String → List (SourceAnnotationV2 x)
  pointed_annotations none input_id = []
  pointed_annotations (some e) input_id = or_else (lookup input_id e.annotations_by_input) []

  unfoldable pub burned_area_annotations :
      Option BurnedAreaExecution → String → List (SourceAnnotationV2 x)
  burned_area_annotations none input_id = []
  burned_area_annotations (some e) input_id = or_else (lookup input_id e.annotations_by_input) []

  -- `source_by_id`
  abbrev pub source_by_id : List (WorkerBatchItemV2 x) → List (String × WorkerBatchItemV2 x)
  source_by_id items = index_by x (λ item. item) [] items

  -- The body of the first loop, where the source is found.
  unfoldable pub prepare_item :
      Option FirePointingExecution
      → Option BurnedAreaExecution
      → LegacyResult x
      → Option (WorkerBatchItemV2 x)
      → Option Prepared
  prepare_item pointing burned legacy_result none = none
  prepare_item pointing burned legacy_result (some source) = some (record {
    legacy_result = legacy_result;
    source = source;
    annotations =
        burned_area_annotations burned source.input_id
        ++ or_list (pointed_annotations pointing source.input_id)
            (source_annotations x source legacy_result);
  })

  -- `prepared`: none is the `KeyError` of an unknown input.
  unfoldable pub prepare :
      WorkerInputV2 x
      → Option FirePointingExecution
      → Option BurnedAreaExecution
      → List (LegacyResult x)
      → Option (List Prepared)
  prepare batch pointing burned results =
      traverse
        (λ (r : LegacyResult x).
          prepare_item pointing burned r (lookup r.input_id (source_by_id batch.items)))
        results

  -- `annotations_by_input`
  unfoldable pub annotations_by_input :
      List (String × List (SourceAnnotationV2 x))
      → List Prepared
      → List (String × List (SourceAnnotationV2 x))
  annotations_by_input d [] = d
  annotations_by_input d (p ∷ ps) = annotations_by_input (put p.source.input_id p.annotations d) ps

  unfoldable pub burned_area_proposals :
      Option BurnedAreaExecution → String → Option (List (Proposal x))
  burned_area_proposals none input_id = none
  burned_area_proposals (some e) input_id = lookup input_id e.proposals_by_input

  unfoldable pub projected_proposals : Option SpatialExecution → String → Option (List (Proposal x))
  projected_proposals none input_id = none
  projected_proposals (some e) input_id = lookup input_id e.proposals_by_input

  -- The spatial proposals of a prepared entry; none is an exception.
  unfoldable pub proposals_of :
      WorkerInputV2 x
      → Option BurnedAreaExecution
      → Option SpatialExecution
      → Prepared
      → Option (List (Proposal x))
  proposals_of batch burned spatial p =
      if p.source.media_type == "satellite_data"
      then hotspot_spatial_proposals x batch p.source
      else elim (or_given (burned_area_proposals burned p.source.input_id)
          (projected_proposals spatial p.source.input_id)) [
            | some proposals ↦ some proposals
            | none ↦ spatial_proposals x batch p.source p.annotations
          ]

  unfoldable pub item_of : WorkerInputV2 x → Prepared → List (Proposal x) → WorkerItemResultV2 x
  item_of batch p proposals = record {
    input_id = p.source.input_id;
    handed_on = p.legacy_result.handed_on;
    source_annotations = p.annotations;
    spatial_proposals = proposals;
    fact_proposals = fact_proposals x batch p.source p.legacy_result;
    requires_human_review = true;
  }

  -- The item of a prepared entry, where its proposals are found and its validators accept it: they
  -- limit the number of its proposals, among others, and belong to another package.
  unfoldable pub item_result :
      (WorkerItemResultV2 x → Bool)
      → WorkerInputV2 x
      → Option BurnedAreaExecution
      → Option SpatialExecution
      → Prepared
      → Option (WorkerItemResultV2 x)
  item_result accept_item batch burned spatial p = elim (proposals_of batch burned spatial p) [
    | none ↦ none
    | some proposals ↦
        if accept_item (item_of batch p proposals) then some (item_of batch p proposals) else none
  ]

  -- The second loop.
  abbrev pub item_results :
      (WorkerItemResultV2 x → Bool)
      → WorkerInputV2 x
      → Option BurnedAreaExecution
      → Option SpatialExecution
      → List Prepared
      → Option (List (WorkerItemResultV2 x))
  item_results accept_item batch burned spatial ps =
      traverse (item_result accept_item batch burned spatial) ps
