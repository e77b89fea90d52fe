-- ===== src/V2Runner/Compose.antt =====
-- v2_runner.py, `from_legacy_output`: the version 2 output of a session, from what its stages left.
pub mod Items
pub mod Laws
use mathlib.Core.Option.{map as map_option}
use fireviewer_orchestrator.Common.{
  ℕ, suc, ◌+◌, String, Bool, true, false, not, Option, none, some, List, [], ◌∷◌, ◌++◌, ◌||◌, ◌&&◌,
  if◌then◌else◌, length, any, map, nonempty,
}
use fireviewer_orchestrator.Contracts.{StageRole}
use fireviewer_orchestrator.StageGates.{StageStatus, GatePhase, GateDecision}
use fireviewer_orchestrator.SessionRunner.Candidate.{
  ModelRun, CandidateRun, StageAttempt, AttemptKind,
}
use fireviewer_orchestrator.SessionRunner.Patches.{model_role_v2}
use fireviewer_orchestrator.SessionRunner.Stage.{StageTrace, ConsensusResult, is_failed}
use fireviewer_orchestrator.SessionRunner.Run.{OverallStatus}
use fireviewer_orchestrator.V2Runner.{
  Externals, WorkerInputV2, WorkerItemResultV2, SourceAnnotationV2,
}
use fireviewer_orchestrator.V2Runner.Report.{SituationReportDraftV2, ReportChecks, report}
use fireviewer_orchestrator.V2Runner.Compose.Items.{
  LegacyOutput, WorkerModelRunV2, FirePointingExecution, BurnedAreaExecution, SpatialExecution,
  Prepared, prepare, annotations_by_input, item_results,
}

-- `_orchestration_trace`: the contract and the time taken are those of other packages.
unfoldable pub orchestration_trace :
    (StageRole → String) → ℕ → String → ℕ → List String → List String → StageTrace
orchestration_trace contract_of inference_ms role sequence before after = record {
  stage_role = StageRole.other role;
  contract_id = contract_of (StageRole.other role);
  sequence = sequence;
  status = StageStatus.succeeded;
  retryable = false;
  preflight = record {
    phase = GatePhase.preflight;
    decision = GateDecision.proceed;
    reason_codes = "requirements_satisfied" ∷ [];
    available_capabilities = before;
    missing_capabilities = [];
    downstream_possible = true;
  };
  postflight = some (record {
    phase = GatePhase.postflight;
    decision = GateDecision.proceed;
    reason_codes = "output_contract_satisfied" ∷ [];
    available_capabilities = after;
    missing_capabilities = [];
    downstream_possible = true;
  });
  attempts =
      record {
        attempt = 1;
        kind = AttemptKind.initial;
        status = StageStatus.succeeded;
        inference_ms = inference_ms;
        peak_vram_bytes = none;
        error_code = none;
      }
      ∷ [];
}

-- One of the two rules that lower the status: a stage that ran and failed.
unfoldable pub lower_status : Option StageTrace → OverallStatus → OverallStatus
lower_status (some t) OverallStatus.succeeded =
    if is_failed t.status then OverallStatus.partial_failure else OverallStatus.succeeded
lower_status _ status = status

unfoldable pub run_v2 : ModelRun → WorkerModelRunV2
run_v2 run = record {
  model_role = model_role_v2 run.model_role;
  model_id = run.model_id;
  revision = run.revision;
  status = run.status;
  load_ms = run.load_ms;
  inference_ms = run.inference_ms;
  peak_vram_bytes = run.peak_vram_bytes;
  error_code = run.error_code;
}

-- `(e.f,) if e is not None else ()`
abbrev pub given : {A : Type 0} → Option A → List A
given none = []
given (some a) = a ∷ []

abbrev pub and_then : {A B : Type 0} → (A → Option B) → Option A → Option B
and_then f none = none
and_then f (some a) = f a

pub record WorkerOutputV2 (x : Externals) : Type 0 where
  pub batch_id : String
  pub analysis_id : String
  pub status : OverallStatus
  pub retryable : Bool
  pub orchestration_contract_digest : String
  pub stage_traces : List StageTrace
  pub model_runs : List WorkerModelRunV2
  pub candidate_runs : List CandidateRun
  pub consensus_results : List ConsensusResult
  pub items : List (WorkerItemResultV2 x)
  pub report_draft : SituationReportDraftV2
  pub validation_errors : List String
  pub boot_ms : ℕ

-- What `from_legacy_output` is given besides the batch and the session's output. The spatial pipeline
-- gets the batch, the annotations by input and the number of its first trace; none is an exception.
pub record Stages (x : Externals) : Type 0 where
  pub stage_traces : List StageTrace
  pub candidate_runs : List CandidateRun
  pub consensus_results : List ConsensusResult
  pub contract_digest : String
  pub fire_pointing_execution : Option (FirePointingExecution x)
  pub burned_area_execution : Option (BurnedAreaExecution x)
  pub spatial_pipeline : Option (
      WorkerInputV2 x
      → List (String × List (SourceAnnotationV2 x))
      → ℕ
      → Option (SpatialExecution x))

-- The validators of the records that the output is made of, with those of the traces and runs inside
-- it. They belong to another package.
pub record Checks (x : Externals) : Type 0 where
  pub report : ReportChecks
  pub accept_item : WorkerItemResultV2 x → Bool
  pub accept_output : WorkerOutputV2 x → Bool

module _ (x : Externals) (checks : Checks x) (contract_of : StageRole → String)
    (inference_ms : String → ℕ) (batch : WorkerInputV2 x) (legacy : LegacyOutput x)
    (stages : Stages x) where
  abbrev pub pointing_trace : Option StageTrace
  pointing_trace =
      map_option (λ (e : FirePointingExecution x). e.stage_trace) stages.fire_pointing_execution

  abbrev pub burned_area_trace : Option StageTrace
  burned_area_trace =
      map_option (λ (e : BurnedAreaExecution x). e.stage_trace) stages.burned_area_execution

  unfoldable pub traces_before_spatial : List StageTrace
  traces_before_spatial = (stages.stage_traces ++ given pointing_trace) ++ given burned_area_trace

  abbrev pub Project : Type 0
  Project =
      WorkerInputV2 x
      → List (String × List (SourceAnnotationV2 x))
      → ℕ
      → Option (SpatialExecution x)

  unfoldable pub project_with :
      Option Project → List (Prepared x) → Option (Option (SpatialExecution x))
  project_with none prepared = some none
  project_with (some project) prepared =
      map_option some
        (project batch (annotations_by_input x [] prepared) (suc (length traces_before_spatial)))

  -- `spatial_execution`, under an option for the exceptions.
  abbrev pub spatial_execution : List (Prepared x) → Option (Option (SpatialExecution x))
  spatial_execution prepared = project_with stages.spatial_pipeline prepared

  abbrev pub has_evidence : WorkerItemResultV2 x → Bool
  has_evidence item =
      nonempty item.source_annotations
      || nonempty item.spatial_proposals
      || nonempty item.fact_proposals

  -- The traces of a spatial execution and its runs.
  abbrev pub spatial_traces : Option (SpatialExecution x) → List StageTrace
  spatial_traces none = []
  spatial_traces (some e) = e.stage_traces

  abbrev pub spatial_runs : Option (SpatialExecution x) → List WorkerModelRunV2
  spatial_runs none = []
  spatial_runs (some e) = e.model_runs

  -- The traces of fusion and report, after `n` others.
  unfoldable pub closing_traces : Bool → ℕ → List StageTrace
  closing_traces evidence_available n =
      orchestration_trace contract_of (inference_ms "evidence_fusion") "evidence_fusion" (n + 1)
        (if evidence_available
          then "factual_observations" ∷ "spatial_proposals" ∷ []
          else "explicit_abstention" ∷ [])
        (if evidence_available then "evidence_graph" ∷ [] else "explicit_abstention" ∷ [])
      ∷ orchestration_trace contract_of (inference_ms "situation_report") "situation_report" (n + 2)
          ("evidence_graph" ∷ []) ("report_draft" ∷ [])
      ∷ []

  unfoldable pub final_status : OverallStatus
  final_status = lower_status burned_area_trace (lower_status pointing_trace legacy.status)

  -- The output, before its validators.
  unfoldable pub output_of :
      Option (SpatialExecution x)
      → List (WorkerItemResultV2 x)
      → SituationReportDraftV2
      → WorkerOutputV2 x
  output_of spatial items draft =
      let traces = traces_before_spatial ++ spatial_traces spatial in
      record {
        batch_id = batch.batch_id;
        analysis_id = batch.analysis_id;
        status = final_status;
        retryable = legacy.retryable;
        orchestration_contract_digest = stages.contract_digest;
        stage_traces = traces ++ closing_traces (any has_evidence items) (length traces);
        model_runs =
            ((map run_v2 legacy.model_runs
                ++ given (
                    and_then (λ (e : FirePointingExecution x). e.model_run)
                      stages.fire_pointing_execution))
              ++ given (
                  and_then (λ (e : BurnedAreaExecution x). e.model_run)
                    stages.burned_area_execution))
            ++ spatial_runs spatial;
        candidate_runs = stages.candidate_runs;
        consensus_results = stages.consensus_results;
        items = items;
        report_draft = draft;
        validation_errors = legacy.validation_errors;
        boot_ms = legacy.boot_ms;
      }

  unfoldable pub accepted_output : WorkerOutputV2 x → Option (WorkerOutputV2 x)
  accepted_output out = if checks.accept_output out then some out else none

  unfoldable pub compose_items :
      Option (SpatialExecution x) → List (WorkerItemResultV2 x) → Option (WorkerOutputV2 x)
  compose_items spatial items =
      and_then (λ draft. accepted_output (output_of spatial items draft))
        (report x checks.report batch items)

  unfoldable pub compose :
      List (Prepared x) → Option (SpatialExecution x) → Option (WorkerOutputV2 x)
  compose prepared spatial =
      and_then (compose_items spatial)
        (item_results x checks.accept_item batch stages.burned_area_execution spatial prepared)

  -- `from_legacy_output`: none is an exception.
  unfoldable pub from_legacy_output : Option (WorkerOutputV2 x)
  from_legacy_output =
      and_then (λ prepared. and_then (compose prepared) (spatial_execution prepared))
        (prepare x batch stages.fire_pointing_execution stages.burned_area_execution legacy.items)
