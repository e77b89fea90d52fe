-- ===== src/V2Runner/Annotations.antt =====
-- v2_runner.py: the annotations of an item's pixel regions.
use fireviewer_orchestrator.Common.{String, Option, none, some, List, [], ◌∷◌, if◌then◌else◌}
use fireviewer_orchestrator.Common.Order.{◌==◌, string_ord}
use fireviewer_orchestrator.Common.Sets.{contains}
use fireviewer_orchestrator.Common.Texts.{contains_one}
use fireviewer_orchestrator.V2Runner.{
  Externals, WorkerBatchItemV2, LegacyResult, PixelRegionV2, SourceAnnotationV2, stable_id,
}

module _ (x : Externals) where
  -- `_evidence_kind`
  unfoldable pub evidence_kind : WorkerBatchItemV2 x → String → String
  evidence_kind item evidence_id =
      if item.media_type == "satellite_image"
      then "satellite_image"
      else if contains evidence_id item.frame_ids
      then "frame"
      else "image"

  -- `_semantic_anchor`
  unfoldable pub semantic_anchor : String → Option String
  semantic_anchor label =
      let lowered = x.casefold label in
      if contains_one ("smoke" ∷ "fum" ∷ []) lowered
      then some "smoke_column_base"
      else if contains_one ("flame" ∷ "fire" ∷ "feu" ∷ []) lowered
      then some "active_fire_point"
      else none

  -- `_point_proposal_kind`
  unfoldable pub point_proposal_kind : SourceAnnotationV2 x → String
  point_proposal_kind annotation =
      if contains annotation.semantic_anchor ("smoke_column_base" ∷ "smoke_origin_point" ∷ [])
      then "smoke_origin_point"
      else "active_fire_point"

  unfoldable pub annotation_of :
      WorkerBatchItemV2 x → PixelRegionV2 x → String → SourceAnnotationV2 x
  annotation_of item region anchor = record {
    annotation_id = stable_id x "ANN" (item.input_id ∷ region.region_id ∷ anchor ∷ []);
    evidence_id = region.evidence_id;
    evidence_kind = evidence_kind item region.evidence_id;
    semantic_anchor = anchor;
    source_point_normalized = some (
      x.div (x.add region.x1 region.x2) (x.whole 2),
      x.div (x.add region.y1 region.y2) (x.whole 2),
    );
    model_score = region.model_score;
  }

  -- The loop of `_source_annotations`.
  unfoldable pub annotate :
      WorkerBatchItemV2 x → List (PixelRegionV2 x) → List (SourceAnnotationV2 x)
  annotate item [] = []
  annotate item (region ∷ regions) = elim (semantic_anchor region.label) [
    | none ↦ annotate item regions
    | some anchor ↦ annotation_of item region anchor ∷ annotate item regions
  ]

  -- `_source_annotations`
  unfoldable pub source_annotations :
      WorkerBatchItemV2 x → LegacyResult x → List (SourceAnnotationV2 x)
  source_annotations item legacy_result = annotate item legacy_result.pixel_regions
