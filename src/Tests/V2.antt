-- ===== src/Tests/V2.antt =====
-- A version 2 batch of a satellite image, satellite data and an article, with numbers as numbers.
use fireviewer_orchestrator.Common.{
  ℕ, ◌+◌, ◌*◌, ◌/◌, String, true, false, Option, none, some, List, [], ◌∷◌, ◌≡◌, refl, leb, All,
  length, ◌≤◌, ltb, traverse, prepend, if◌then◌else◌, nonempty, map,
}
use fireviewer_orchestrator.Common.Order.{string_ord}
use fireviewer_orchestrator.Common.Texts.{str_len, contains_text}
use fireviewer_orchestrator.Common.Dict.{lookup, put}
use fireviewer_orchestrator.Contracts.{StageRole}
use fireviewer_orchestrator.SessionRunner.Run.{OverallStatus}
use fireviewer_orchestrator.V2Runner.{
  Externals, Json, number, text, array, object, no_items, one_item, no_members, member,
  WorkerInputV2, WorkerBatchItemV2, HotspotV2, SatelliteV2, ProvenanceV2, SourceAnnotationV2,
  FactProposalV2, FactCategory, WorkerItemResultV2, index_by,
}
use fireviewer_orchestrator.V2Runner.Spatial.{
  Proposal, point_proposals, spatial_proposals, hotspot_proposals, payload_points, is_text,
  get_member, collection_points, count_items, or_no_hotspots, hotspot_points, keep_feature,
  feature_point, geometry_point, coordinates_of, add_feature, loaded_points, is_number, pair_of,
}
use fireviewer_orchestrator.V2Runner.Spatial.Laws.{
  WhenSome, ItemJustified, spatial_proposals-Justified, spatial_proposals-bounds,
}
use fireviewer_orchestrator.V2Runner.Facts.{
  is_key_char, safe_fact_key, fact_proposals, facts_from, fact_of, fact_category,
}
use fireviewer_orchestrator.V2Runner.Facts.Laws.{all_chars, safe_fact_key-bounds}
use fireviewer_orchestrator.V2Runner.Report.{
  SituationReportDraftV2, report, all_facts, source_by_input, accepts, accepted_draft,
  planned_report, drafted, sections_of, sources_section, sources_of, fact_sections, add_section,
  facts_by_section, draft_of, or_limitations, section_for_category,
}
use fireviewer_orchestrator.V2Runner.Report.Laws.{AllListed, report-returns}
use fireviewer_orchestrator.V2Runner.Compose.Items.{
  LegacyOutput, prepare, prepare_item, pointed_annotations, burned_area_annotations, or_list,
  annotations_by_input, proposals_of, or_given, burned_area_proposals, projected_proposals,
  item_result, item_of as result_of_item,
}
use fireviewer_orchestrator.V2Runner.Annotations.{source_annotations, annotate}
use mathlib.Core.Option.{map as map_option}
use fireviewer_orchestrator.V2Runner.Compose.{
  Stages, Checks, WorkerOutputV2, project_with, compose, compose_items, accepted_output,
  from_legacy_output,
}
use fireviewer_orchestrator.V2Runner.Compose.Laws.{IsFaithful, from_legacy_output-IsFaithful}
use fireviewer_orchestrator.V2Runner.Legacy.{
  LegacyItem, to_legacy_input, IsVersionOne, to_legacy_input-IsVersionOne,
}

abbrev if_le : ℕ → ℕ → ℕ
if_le a b = if leb a b then b else a

-- A GeoJSON point feature.
abbrev point : ℕ → ℕ → Json ℕ
point lon lat = object (
    member "geometry"
      (object (
        member "type" (text "Point") (
          member "coordinates" (array (one_item (number lon) (one_item (number lat) no_items)))
            no_members)))
      no_members)

-- The features of a collection: a point in the box and one outside.
abbrev collection : Json ℕ
collection = object (
    member "type" (text "FeatureCollection") (
      member "features" (array (one_item (point 3 44) (one_item (point 9 44) no_items)))
        no_members))

abbrev pub externals : Externals
externals = record {
  Real = ℕ;
  Time = ℕ;
  whole = λ n. n;
  neg = λ n. 0;
  add = λ a b. a + b;
  mul = λ a b. a * b;
  div = λ a b. a / b;
  max = λ a b. if_le a b;
  le = leb;
  casefold = λ s. s;
  normalize_crs = λ s. s;
  sha256_24 = λ s. s;
  isoformat = λ t. "2026-08-01T00:00:00";
  str = λ n. "n";
  to_float = λ r. some r;
  loads = λ s. some (some collection);
}

abbrev provenance : ProvenanceV2
provenance = record {
  source_key = "firms";
  source_policy_domain = none;
  attribution = some "NASA";
  source_kind = none;
  source_confidence = some "lead";
  trust = "official";
  source_reference_url = none;
}

abbrev item_of :
    String
    → String
    → Option (SatelliteV2 externals)
    → Option (HotspotV2 externals)
    → WorkerBatchItemV2 externals
item_of id media satellite hotspot = record {
  input_id = id;
  media_type = media;
  captured_at = none;
  working_file_url = none;
  frame_ids = [];
  audio_url = none;
  article_text = some "{}";
  camera = none;
  satellite = satellite;
  hotspot = hotspot;
  provenance = provenance;
}

abbrev image : WorkerBatchItemV2 externals
image =
    item_of "image" "satellite_image"
      (some (record {
        crs = "EPSG:4326";
        raster_width_px = 10;
        raster_height_px = 10;
        origin_x = 3;
        pixel_x = 1;
        rotation_x = 0;
        origin_y = 40;
        rotation_y = 0;
        pixel_y = 1;
        acquired_at = 1;
        resolution_m = 10;
      }))
      none

abbrev hotspots : WorkerBatchItemV2 externals
hotspots = item_of "hotspots" "satellite_data" none (
    some (record {
      min_lon = 2;
      min_lat = 43;
      max_lon = 4;
      max_lat = 45;
      acquired_at = 1;
      resolution_m = 375;
    }))

abbrev pub batch : WorkerInputV2 externals
batch = record {
  batch_id = "batch";
  analysis_id = "analysis";
  local_date = "2026-08-01";
  window_end_at = 5;
  reference_manifest = some "digest";
  items = image ∷ hotspots ∷ [];
}

abbrev annotation : SourceAnnotationV2 externals
annotation = record {
  annotation_id = "ANN-1";
  evidence_id = "image";
  evidence_kind = "satellite_image";
  semantic_anchor = "active_fire_point";
  source_point_normalized = some (1, 1);
  model_score = none;
}

-- The hotspot in the box, and not the other.
hotspot_run :
    map_option
      (λ (ps : List (Proposal externals)). length ps)
      (spatial_proposals externals batch hotspots [])
    ≡ some 1
unfolding spatial_proposals hotspot_proposals payload_points is_text get_member collection_points
    count_items or_no_hotspots hotspot_points add_feature loaded_points is_number pair_of
    keep_feature feature_point geometry_point coordinates_of
hotspot_run = refl

hotspots_bounds_example :
    WhenSome
      (λ ps. (1 ≤ length ps) × (length ps ≤ 5000))
      (spatial_proposals externals batch hotspots [])
hotspots_bounds_example = spatial_proposals-bounds externals batch hotspots [] refl

image_justified_example :
    WhenSome
      (All (ItemJustified externals batch image))
      (spatial_proposals externals batch image (annotation ∷ []))
image_justified_example = spatial_proposals-Justified externals batch image (annotation ∷ [])

fact_key_example :
    (1 ≤ str_len (safe_fact_key "surface brûlée (ha)"))
    × ((str_len (safe_fact_key "surface brûlée (ha)") ≤ 128)
        × (all_chars is_key_char (safe_fact_key "surface brûlée (ha)") ≡ true))
fact_key_example = safe_fact_key-bounds "surface brûlée (ha)"

legacy_example :
    (map (λ (i : LegacyItem externals). i.input_id) (to_legacy_input externals batch).items
      ≡ map (λ (i : WorkerBatchItemV2 externals). i.input_id) batch.items)
    × All (IsVersionOne externals) (to_legacy_input externals batch).items
legacy_example = to_legacy_input-IsVersionOne externals batch

abbrev fact : FactProposalV2 externals
fact = record {
  fact_id = "FACT-1";
  input_id = "image";
  category = FactCategory.burned_area;
  fact_key = "surface";
  as_of = 1;
  evidence_kind = "satellite_image";
  evidence_id = "image";
  certainty = "explicit";
  value_text = "12 ha";
  summary = "12 ha";
}

abbrev results : List (WorkerItemResultV2 externals)
results =
    record {
      input_id = "image";
      handed_on = "";
      source_annotations = annotation ∷ [];
      spatial_proposals = [];
      fact_proposals = fact ∷ [];
      requires_human_review = true;
    }
    ∷ []

image_known :
    (source : ProvenanceV2) × (lookup "image" (source_by_input externals batch.items) ≡ some source)
unfolding index_by lookup put
image_known = (provenance, refl)

abbrev pub checks : Checks externals
checks = record {
  report = record { accept_section = λ s. true; accept_draft = λ d. true };
  accept_item = λ i. ltb (length i.spatial_proposals) 513;
  accept_output = λ out. true;
}

report_example :
    (draft : SituationReportDraftV2) × (report externals checks.report batch results
      ≡ (if accepts checks.report draft then some draft else none))
    × (planned_report externals batch results ≡ some draft)
    × (nonempty draft.sections ≡ true)
    × AllListed externals (all_facts externals results) draft.sections
report_example = report-returns externals checks.report batch results (image_known, tt)

abbrev legacy : LegacyOutput externals
legacy = record {
  status = OverallStatus.succeeded;
  retryable = false;
  model_runs = [];
  items =
      record {
        input_id = "image";
        pixel_regions = [];
        factual_observations =
            record {
              kind = "burned_area";
              description = "12 ha";
              evidence_kind = "image";
              evidence_id = "image";
              certainty = "explicit";
            }
            ∷ [];
        handed_on = "";
      }
      ∷ [];
  validation_errors = [];
  boot_ms = 7;
}

abbrev stages : Stages externals
stages = record {
  stage_traces = [];
  candidate_runs = [];
  consensus_results = [];
  contract_digest = "digest";
  fire_pointing_execution = none;
  burned_area_execution = none;
  spatial_pipeline = some (λ b annotations n.
      some (record { proposals_by_input = []; stage_traces = []; model_runs = [] }));
}

abbrev pub contract_of : StageRole → String
contract_of role = "contract"

abbrev pub no_time : String → ℕ
no_time role = 0

-- What the code builds of them.
abbrev built : Option (WorkerOutputV2 externals)
built = from_legacy_output externals checks contract_of no_time batch legacy stages

output_built : (out : WorkerOutputV2 externals) × (built ≡ some out)
unfolding from_legacy_output compose compose_items accepted_output project_with prepare prepare_item
    traverse prepend index_by lookup put pointed_annotations burned_area_annotations or_list
    source_annotations annotations_by_input proposals_of or_given burned_area_proposals
    projected_proposals spatial_proposals item_result result_of_item fact_proposals facts_from
    fact_of report accepted_draft accepts planned_report drafted sections_of sources_section
    sources_of fact_sections add_section facts_by_section draft_of or_limitations annotate
    point_proposals section_for_category fact_category contains_text
output_built = (_, refl)

from_legacy_output_example : IsFaithful externals batch legacy stages output_built.0
from_legacy_output_example =
    from_legacy_output-IsFaithful externals checks contract_of no_time batch legacy stages
      output_built.0 output_built.1
