-- ===== src/Handler/Job/Errors.antt =====
-- What a job's exceptions become.
use fireviewer_orchestrator.Common.{String, Bool, true, false, ◌≡◌, refl, sym, ap, ◌∙◌, arith}
use fireviewer_orchestrator.Common.Order.{Ord}
use fireviewer_orchestrator.SessionRunner.Effects.{State}
use fireviewer_orchestrator.V2Runner.{Externals, Members}
use fireviewer_orchestrator.Handler.{
  Exception, configuration_error, output_validation_error, registry_error, validation_error,
  research_service_error, other_exception, Answer, returned, threw, waiting, Worker, after, holding,
  try_gpu, Services, Response, FailedResearch, failed_research, text_member, on_answer,
}
use fireviewer_orchestrator.Handler.Research.{
  failure_record, research_failure, research_call, end_research, research_job,
}
use fireviewer_orchestrator.Contracts.{ModelSpec}
use fireviewer_orchestrator.Handler.Batch.{prepare, end_batch, batch_job, try_session}

-- A call that does not wait.
abbrev pub Ends : {A : Type 0} → Answer A → Type 0
Ends (returned a) = Unit
Ends (threw e) = Unit
Ends waiting = ⊥

-- `except (ConfigurationError, OutputValidationError, RegistryError, ValidationError)`
abbrev pub is_caught : Exception → Bool
is_caught (configuration_error m) = true
is_caught (output_validation_error m) = true
is_caught (registry_error m) = true
is_caught (validation_error es m) = true
is_caught (research_service_error c d) = false
is_caught (other_exception n m) = false

module _ (x : Externals) {W Cap : Type 0} ⦃o : Ord Cap⦄ (services : Services x W Cap) where
  -- A response is returned.
  abbrev pub Responds : Answer (Response x) → Type 0
  Responds a = (r : Response x) × (a ≡ returned r)

  Ends-on_answer :
      {A B : Type 0} (f : A → B) (a : Answer A) → Ends a → Ends (on_answer (λ v. returned (f v)) a)
  Ends-on_answer f (returned a) h = tt
  Ends-on_answer f (threw e) h = tt
  Ends-on_answer f waiting h = absurd h

  -- The registry names the model of the research, and the validators accept the failures that carry
  -- the request's id.
  pub record Reports (raw : Members x.Real) : Type 0 where
    pub spec : ModelSpec
    pub named : services.source_research ≡ returned spec
    pub accepted :
        (f : FailedResearch)
        → f.research_id ≡ text_member "research_id" raw
        → services.validate_research_output f ≡ returned tt

  module _ (raw : Members x.Real) (reports : Reports raw) where
    research_failure-Responds :
        (code detail : String) (retryable : Bool)
        → Responds (research_failure x services raw code detail retryable)
    unfolding research_failure
    research_failure-Responds code detail retryable =
        let f = failure_record x services raw code detail retryable reports.spec in
        (failed_research f, rw (reports.named, reports.accepted f refl) refl)

    end_research-Responds :
        (a : Answer (Response x)) → Ends a → Responds (end_research x services raw a)
    unfolding end_research
    end_research-Responds (returned r) h = (r, refl)
    end_research-Responds (threw (research_service_error c d)) h = research_failure-Responds _ _ _
    end_research-Responds (threw (registry_error m)) h = research_failure-Responds _ _ _
    end_research-Responds (threw (validation_error es m)) h = research_failure-Responds _ _ _
    end_research-Responds (threw (configuration_error m)) h = research_failure-Responds _ _ _
    end_research-Responds (threw (output_validation_error m)) h = research_failure-Responds _ _ _
    end_research-Responds (threw (other_exception n m)) h = research_failure-Responds _ _ _
    end_research-Responds waiting h = absurd h

    Responds-Ends : (a : Answer (Response x)) → Responds a → Ends a
    Responds-Ends (returned r) h = tt
    Responds-Ends (threw e) h = tt
    Responds-Ends waiting (r, h) = absurd (ground (arith, h))

    research_call-Ends :
        (r : services.Research) (l : Bool) (g : State W)
        → ((h : State W) → Ends (services.run_isolated_research r h).0)
        → Ends (research_call x services raw r (record { lock = l; gpu = g })).0
    unfolding research_call try_gpu holding
    research_call-Ends r true g h = Responds-Ends _ (research_failure-Responds _ _ _)
    research_call-Ends r false g h =
        Ends-on_answer Response.research_result (services.run_isolated_research r g).0 (h g)

    after-Ends :
        (a : Answer services.Research) (w : Worker W)
        → Ends a
        → ((r : services.Research) (h : State W) → Ends (services.run_isolated_research r h).0)
        → Ends (after (research_call x services raw) a w).0
    after-Ends (returned r) w h k = research_call-Ends r w.lock w.gpu (k r)
    after-Ends (threw e) w h k = tt
    after-Ends waiting w h k = absurd h

    pub research_job-Responds :
        (w : Worker W)
        → Ends (services.validate_research raw)
        → ((r : services.Research) (g : State W) → Ends (services.run_isolated_research r g).0)
        → Responds (research_job x services raw w).0
    unfolding research_job
    research_job-Responds w valid ends =
        end_research-Responds _ (after-Ends (services.validate_research raw) w valid ends)

  -- The exception that an answer throws is one of the caught ones.
  abbrev throws_caught : Answer (Response x) → Bool
  throws_caught (returned r) = false
  throws_caught (threw e) = is_caught e
  throws_caught waiting = false

  end_batch-uncaught :
      (is_v2 : Bool) (raw : Members x.Real) (a : Answer (Response x))
      → throws_caught (end_batch x services is_v2 raw a) ≡ false
  unfolding end_batch
  end_batch-uncaught is_v2 raw (returned r) = refl
  end_batch-uncaught is_v2 raw waiting = refl
  end_batch-uncaught is_v2 raw (threw (configuration_error m)) = refl
  end_batch-uncaught is_v2 raw (threw (output_validation_error m)) = refl
  end_batch-uncaught is_v2 raw (threw (registry_error m)) = refl
  end_batch-uncaught is_v2 raw (threw (validation_error es m)) = refl
  end_batch-uncaught is_v2 raw (threw (research_service_error c d)) = refl
  end_batch-uncaught is_v2 raw (threw (other_exception n m)) = refl

  -- No configuration, validation or registry error leaves a batch job, from its validation, its
  -- session or the stages of version 2.
  pub batch_job-threw :
      (is_v2 : Bool) (raw : Members x.Real) (w : Worker W) (e : Exception)
      → (batch_job x services is_v2 raw w).0 ≡ threw e
      → is_caught e ≡ false
  unfolding batch_job
  batch_job-threw is_v2 raw w e h =
      sym (ap throws_caught h)
      ∙ end_batch-uncaught is_v2 raw
          (after (try_session x services) (prepare x services is_v2 raw) w).0
