-- ===== src/Handler/Batch.antt =====
-- handler.py: a batch of version 1 or 2, through a session under the lock.
use mathlib.Core.Option.{map as map_option}
use fireviewer_orchestrator.Common.{
  ◌+◌, String, ◌+++◌, Bool, true, false, Option, none, some, [], ◌∷◌, if◌then◌else◌, map, is_some,
  length,
}
use fireviewer_orchestrator.Common.Order.{Ord}
use fireviewer_orchestrator.Contracts.{WorkerInput, ModelGroupSpec}
use fireviewer_orchestrator.SessionRunner.Effects.{Outcome, ok, raised, State}
use fireviewer_orchestrator.SessionRunner.Patches.{PipelineModelRole}
use fireviewer_orchestrator.SessionRunner.Run.{SessionRunResult, WorkerOutput, run_with_trace}
use fireviewer_orchestrator.V2Runner.{Externals, Json, text, object, Members, WorkerInputV2}
use fireviewer_orchestrator.V2Runner.Spatial.{get_member}
use fireviewer_orchestrator.V2Runner.Legacy.{to_legacy_input}
use fireviewer_orchestrator.V2Runner.Compose.{WorkerOutputV2, Stages, from_legacy_output}
use fireviewer_orchestrator.V2Runner.Compose.Items.{
  LegacyOutput, FirePointingExecution, BurnedAreaExecution,
}
use fireviewer_orchestrator.Handler.{
  Exception, configuration_error, output_validation_error, registry_error, validation_error,
  describe, Answer, returned, threw, waiting, Action, after, try_gpu, on_gpu, Services, FailedBatch,
  Response, failed_batch, worker_output, worker_output_v2, text_member, ◌>>=◌, ◌>>◌,
}

-- One call on the runtime after another.
unfoldable pub chain :
    {W A B : Type 0} → (A → State W → Answer B × State W) → Answer A × State W → Answer B × State W
chain f (returned a, g) = f a g
chain f (threw e, g) = (threw e, g)
chain f (waiting, g) = (waiting, g)

-- The failed window's id.
unfoldable pub window_id : {R : Type 0} → Option (Json R) → Json R
window_id (some (object window)) = elim (get_member "analysis_id" window) [
  | none ↦ text "INVALID"
  | some id ↦ id
]
window_id _ = text "INVALID"

module _ (x : Externals) {W Cap : Type 0} ⦃o : Ord Cap⦄ (services : Services x W Cap) where
  -- What is ready before the lock is tried.
  pub record Prepared : Type 0 where
    pub batch_v2 : Option (WorkerInputV2 x)
    pub batch : WorkerInput
    pub registry : PipelineModelRole → Option ModelGroupSpec

  abbrev pub prepared_with : Option (WorkerInputV2 x) → WorkerInput → Answer Prepared
  prepared_with batch_v2 batch = services.registry >>= λ registry.
      returned (record { batch_v2 = batch_v2; batch = batch; registry = registry })

  -- The statements before the lock.
  unfoldable pub prepare : Bool → Members x.Real → Answer Prepared
  prepare true raw = do
    hosts ← services.allowed_media_hosts
    batch_v2 ← services.validate_v2 raw
    services.validate_v2_internal_urls batch_v2 hosts
    batch ← services.validate_legacy (to_legacy_input x batch_v2)
    prepared_with (some batch_v2) batch
  prepare false raw = do
    hosts ← services.allowed_media_hosts
    batch ← services.validate_v1 raw
    services.validate_internal_urls batch hosts
    prepared_with none batch

  abbrev pub contract_digest : Prepared → String
  contract_digest p = (services.session p.registry).contract_digest

  -- `busy`
  unfoldable pub busy : Prepared → FailedBatch x.Real
  busy p = record {
    schema_version = if is_some p.batch_v2 then "2.0" else "1.0";
    batch_id = p.batch.batch_id;
    retryable = true;
    validation_errors = "worker:gpu_session_already_active" ∷ [];
    boot_ms = services.boot_ready_ms;
    analysis_id = map_option (λ (b : WorkerInputV2 x). text b.analysis_id) p.batch_v2;
    orchestration_contract_digest =
        map_option (λ (b : WorkerInputV2 x). contract_digest p) p.batch_v2;
  }

  -- The session's output as version 2 reads it.
  abbrev pub legacy_of : WorkerOutput → LegacyOutput x
  legacy_of output = record {
    status = output.status;
    retryable = output.retryable;
    model_runs = output.model_runs;
    items = map services.read_item output.items;
    validation_errors = output.validation_errors;
    boot_ms = output.boot_ms;
  }

  abbrev pub stages_of :
      SessionRunResult Cap → FirePointingExecution x → BurnedAreaExecution x → Stages x
  stages_of execution pointing burned = record {
    stage_traces = execution.stage_traces;
    candidate_runs = execution.candidate_runs;
    consensus_results = execution.consensus_results;
    contract_digest = execution.contract_digest;
    fire_pointing_execution = some pointing;
    burned_area_execution = some burned;
    spatial_pipeline = services.spatial_pipeline;
  }

  -- The composition of the output; which exception it raises is not told apart.
  abbrev pub composed : Exception → Option (WorkerOutputV2 x) → Answer (Response x)
  composed e none = threw e
  composed e (some output) = returned (worker_output_v2 output)

  -- After the session: the output, or the stages of version 2 first.
  unfoldable pub after_session :
      Option (WorkerInputV2 x) → SessionRunResult Cap → State W → Answer (Response x) × State W
  after_session none execution g = (returned (worker_output execution.output), g)
  after_session (some batch_v2) execution g =
      chain
        (λ pointing g1.
          chain
            (λ burned g2. (
              composed
                  (services.composition_exception batch_v2 (legacy_of execution.output)
                    (stages_of execution pointing burned))
                  (from_legacy_output x services.checks services.contract_of
                    services.orchestration_ms batch_v2 (legacy_of execution.output)
                    (stages_of execution pointing burned)),
              g2,
            ))
            (services.run_burned_area_stage batch_v2 (length execution.stage_traces + 2) g1))
        (services.run_fire_pointing_stage batch_v2 execution (length execution.stage_traces + 1) g)

  abbrev pub answer_of : {A : Type 0} → Outcome A → Answer A
  answer_of (ok a) = returned a
  answer_of (raised f) = threw (services.exception_of f)

  abbrev pub run_session : Prepared → State W → Answer (SessionRunResult Cap) × State W
  run_session p g =
      let end = run_with_trace services.runtime (services.session p.registry) p.batch g in
      (answer_of end.0, end.1)

  -- The job's scope, with the session and what comes after it.
  unfoldable pub session_job : Prepared → State W → Answer (Response x) × State W
  unfolding chain after_session
  session_job p g =
      let end = chain (after_session p.batch_v2) (run_session p (services.enter_scope g)) in
      (end.0, services.leave_scope end.1)

  unfoldable pub try_session : Prepared → Action W (Response x)
  try_session p = try_gpu (λ w. (returned (failed_batch (busy p)), w)) (on_gpu (session_job p))

  -- `failed`
  unfoldable pub failure : Bool → Members x.Real → Exception → FailedBatch x.Real
  failure is_v2 raw e = record {
    schema_version = if is_v2 then "2.0" else "1.0";
    batch_id = text_member "batch_id" raw;
    retryable = false;
    validation_errors = ("input:" +++ describe e) ∷ [];
    boot_ms = services.boot_ready_ms;
    analysis_id = if is_v2 then some (window_id (get_member "analysis_window" raw)) else none;
    orchestration_contract_digest = if is_v2 then some services.contracts_digest else none;
  }

  -- The `except` clause; other exceptions leave the handler.
  unfoldable pub end_batch : Bool → Members x.Real → Answer (Response x) → Answer (Response x)
  end_batch is_v2 raw (returned r) = returned r
  end_batch is_v2 raw waiting = waiting
  end_batch is_v2 raw (threw (configuration_error m)) =
      returned (failed_batch (failure is_v2 raw (configuration_error m)))
  end_batch is_v2 raw (threw (output_validation_error m)) =
      returned (failed_batch (failure is_v2 raw (output_validation_error m)))
  end_batch is_v2 raw (threw (registry_error m)) =
      returned (failed_batch (failure is_v2 raw (registry_error m)))
  end_batch is_v2 raw (threw (validation_error es m)) =
      returned (failed_batch (failure is_v2 raw (validation_error es m)))
  end_batch is_v2 raw (threw e) = threw e

  -- The last part of `handle_job`.
  unfoldable pub batch_job : Bool → Members x.Real → Action W (Response x)
  batch_job is_v2 raw w =
      let end = after try_session (prepare is_v2 raw) w in (end_batch is_v2 raw end.0, end.1)
