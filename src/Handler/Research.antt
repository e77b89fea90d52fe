-- ===== src/Handler/Research.antt =====
-- handler.py: a research job.
use fireviewer_orchestrator.Common.{String, ◌+++◌, Bool, true, false, [], ◌∷◌}
use fireviewer_orchestrator.Common.Texts.{str_take}
use fireviewer_orchestrator.Contracts.{ModelSpec}
use fireviewer_orchestrator.V2Runner.{Externals, Members}
use fireviewer_orchestrator.Handler.{
  Exception, registry_error, validation_error, research_service_error, describe, Answer, returned,
  threw, waiting, Action, after, try_gpu, on_gpu, Services, Response, FailedResearch,
  failed_research, research_result, text_member, on_answer,
}

module _ (x : Externals) {W Cap : Type 0} (services : Services x W Cap) (raw : Members x.Real) where
  abbrev pub failure_record : String → String → Bool → ModelSpec → FailedResearch
  failure_record error_code detail retryable spec = record {
    research_id = text_member "research_id" raw;
    retryable = retryable;
    model_id = spec.model_id;
    revision = spec.revision;
    error_code = str_take 128 error_code;
    validation_errors = str_take 1000 detail ∷ [];
  }

  -- `_research_failure`: the registry and the validators may raise.
  unfoldable pub research_failure : String → String → Bool → Answer (Response x)
  research_failure error_code detail retryable =
      on_answer
        (λ spec.
          let f = failure_record error_code detail retryable spec in
          on_answer (λ _. returned (failed_research f)) (services.validate_research_output f))
        services.source_research

  -- The `except` clauses. An exception of `_research_failure` within them leaves the job.
  unfoldable pub recover_research : Exception → Answer (Response x)
  recover_research (research_service_error code detail) = research_failure code detail true
  recover_research (registry_error message) =
      research_failure "research_input_invalid" ("input:" +++ describe (registry_error message))
        false
  recover_research (validation_error errors message) =
      research_failure "research_input_invalid"
        ("input:" +++ describe (validation_error errors message)) false
  recover_research e =
      research_failure "research_worker_unhandled_exception" ("research:" +++ describe e) true

  unfoldable pub end_research : Answer (Response x) → Answer (Response x)
  unfolding recover_research
  end_research (returned r) = returned r
  end_research (threw e) = recover_research e
  end_research waiting = waiting

  -- The isolated service, under the lock.
  unfoldable pub research_call : services.Research → Action W (Response x)
  research_call research =
      try_gpu
        (λ w. (
          research_failure "gpu_session_already_active" "worker:gpu_session_already_active" true,
          w,
        ))
        (on_gpu (λ g.
          let end = services.run_isolated_research research g in
          (on_answer (λ r. returned (research_result r)) end.0, end.1)))

  -- The branch of `handle_job` for `research-1.0`.
  unfoldable pub research_job : Action W (Response x)
  unfolding end_research
  research_job w =
      let end = after research_call (services.validate_research raw) w in
      (end_research end.0, end.1)
