-- ===== src/Handler/Job.antt =====
-- handler.py, `handle_job`: the job's input and its schema choose the branch.
pub mod Lock
pub mod Errors
use fireviewer_orchestrator.Common.{
  String, Bool, true, false, Option, none, some, List, [], ◌∷◌, ◌&&◌, if◌then◌else◌,
}
use fireviewer_orchestrator.Common.Order.{Ord}
use fireviewer_orchestrator.V2Runner.{Externals, Json, object, Members}
use fireviewer_orchestrator.V2Runner.Spatial.{get_member, is_text}
use fireviewer_orchestrator.Handler.{
  Answer, returned, Worker, Action, after, with_gpu, on_gpu, Services, FailedBatch, Response,
  failed_batch, probe_result, on_answer,
}
use fireviewer_orchestrator.Handler.Event.{event_job}
use fireviewer_orchestrator.Handler.Research.{research_job}
use fireviewer_orchestrator.Handler.Batch.{batch_job}

module _ (x : Externals) {W Cap : Type 0} ⦃o : Ord Cap⦄ (services : Services x W Cap) where
  -- The literal for an input that is not an object.
  unfoldable pub missing_input : FailedBatch x.Real
  missing_input = record {
    schema_version = "1.0";
    batch_id = "INVALID";
    retryable = false;
    validation_errors = "input:missing_or_not_an_object" ∷ [];
    boot_ms = services.boot_ready_ms;
    analysis_id = none;
    orchestration_contract_digest = none;
  }

  -- The branch for a laboratory probe: it waits for the lock.
  unfoldable pub probe_job : Members x.Real → Action W (Response x)
  probe_job raw w =
      after
        (λ hosts. with_gpu (
          on_gpu (λ g.
            let end = services.run_probe raw g in
            (on_answer (λ r. returned (probe_result r)) end.0, end.1))))
        services.allowed_media_hosts w

  -- The requested schema; a missing one is that of version 1.
  unfoldable pub schema_is : String → Members x.Real → Bool
  schema_is s raw = is_text s (get_member "schema_version" raw)

  unfoldable pub route : Members x.Real → Action W (Response x)
  route raw =
      if schema_is "lab-bonsai-integration-1" raw && services.lab_probes_enabled
      then probe_job raw
      else if schema_is "event-2.0" raw
      then event_job x services raw
      else if schema_is "research-1.0" raw
      then research_job x services raw
      else batch_job x services (schema_is "2.0" raw) raw

  -- `handle_job`, at `job.get("input")`.
  unfoldable pub handle_job : Option (Json x.Real) → Action W (Response x)
  unfolding route missing_input
  handle_job (some (object raw)) w = route raw w
  handle_job _ w = (returned (failed_batch missing_input), w)
