-- ===== src/SessionRunner/Adjudicator.antt =====
-- session_runner.py, `_execute_adjudicator`: the judge's run on a disagreement.

use fireviewer_orchestrator.Common.{
  ℕ, ◌+◌, ◌-◌, String, Bool, true, false, Option, none, some, List,
}
use fireviewer_orchestrator.Contracts.{ModelCandidateSpec}
use fireviewer_orchestrator.StageGates.{succeeded, failed}
use fireviewer_orchestrator.SessionRunner.Effects.{
  Fault, model_output_error, output_validation_error, other_error, Outcome, ok, raised, created,
  loaded, released, Exec, Payload, JudgeCandidate, ConsensusJudgeVerdict, pure, lift, ◌>>=◌, ◌>>◌,
  attempt, note, Runtime, call, read,
}
use fireviewer_orchestrator.SessionRunner.Patches.{PipelineModelRole}
use fireviewer_orchestrator.SessionRunner.Candidate.{CandidateRun, RunChecks}

pub record AdjudicatorExecution : Type 0 where
  pub candidate_run : CandidateRun
  pub verdict : Option ConsensusJudgeVerdict

-- What the local variables hold when the `try` statement ends.
pub record JudgeBody : Type 0 where
  pub load_ms : ℕ
  pub inference_ms : ℕ
  pub repaired : Bool
  pub verdict : Option ConsensusJudgeVerdict
  pub output_payload : Option Payload
  pub fault : Option Fault

-- Here an `OutputValidationError` is no `ModelOutputError`.
abbrev pub judge_fault_code : Fault → String
judge_fault_code model_output_error = "invalid_model_output"
judge_fault_code output_validation_error = "model_runtime_error"
judge_fault_code other_error = "model_runtime_error"

abbrev pub failed_judge : ℕ → Fault → JudgeBody
failed_judge load_ms f = record {
  load_ms = load_ms;
  inference_ms = 0;
  repaired = false;
  verdict = none;
  output_payload = none;
  fault = some f;
}

unfoldable pub judge_execution_of :
    (Payload → String)
    → PipelineModelRole
    → ModelCandidateSpec
    → Option ℕ
    → JudgeBody
    → AdjudicatorExecution
judge_execution_of json_digest role adjudicator peak body = record {
  candidate_run = record {
    candidate_id = adjudicator.candidate_id;
    candidate_rank = adjudicator.rank;
    stage_role = role;
    model_role = "consensus_judge";
    model_id = adjudicator.spec.model_id;
    revision = adjudicator.spec.revision;
    status = elim body.fault [ none ↦ succeeded | some f ↦ failed ];
    load_ms = body.load_ms;
    inference_ms = body.inference_ms;
    peak_vram_bytes = peak;
    repaired = body.repaired;
    output_digest = elim body.output_payload [ none ↦ none | some p ↦ some (json_digest p) ];
    output_payload = body.output_payload;
    error_code = elim body.fault [ none ↦ none | some f ↦ some (judge_fault_code f) ];
  };
  verdict = body.verdict;
}

-- The validators of the judge's record.
unfoldable pub checked_judge : RunChecks → AdjudicatorExecution → Outcome AdjudicatorExecution
checked_judge checks e = elim (checks.check_candidate_run e.candidate_run) [
  | raised f ↦ raised f
  | ok _ ↦ ok e
]

module _ {W : Type 0} (rt : Runtime W) where
  module _ (adjudicator : ModelCandidateSpec) (candidates : List JudgeCandidate)
      (comparison_payload : List (String × String)) where
    -- `synchronize_cuda` once `verdict` is bound: its failure leaves `verdict` bound.
    unfoldable pub after_synchronize :
        ℕ → ℕ → Bool → ConsensusJudgeVerdict → Outcome (Unit {0}) → Exec W JudgeBody
    after_synchronize load_ms inference_ms repaired verdict (ok _) = pure (record {
      load_ms = load_ms;
      inference_ms = inference_ms;
      repaired = repaired;
      verdict = some verdict;
      output_payload = some (Payload.verdict verdict.output_payload);
      fault = none;
    })
    after_synchronize load_ms inference_ms repaired verdict (raised f) = pure (record {
      load_ms = load_ms;
      inference_ms = inference_ms;
      repaired = repaired;
      verdict = some verdict;
      output_payload = none;
      fault = some f;
    })

    unfoldable pub after_correction : ℕ → ℕ → ℕ → Outcome ConsensusJudgeVerdict → Exec W JudgeBody
    after_correction load_ms first_ms started (raised f) = pure (failed_judge load_ms f)
    after_correction load_ms first_ms started (ok verdict) = do
      now ← read rt.clock
      synced ← attempt (call rt.synchronize)
      after_synchronize load_ms (first_ms + (now - started)) true verdict synced

    unfoldable pub after_adjudicate : ℕ → ℕ → Outcome ConsensusJudgeVerdict → Exec W JudgeBody
    after_adjudicate load_ms started (ok verdict) = do
      now ← read rt.clock
      synced ← attempt (call rt.synchronize)
      after_synchronize load_ms (now - started) false verdict synced
    after_adjudicate load_ms started (raised model_output_error) = do
      now ← read rt.clock
      restarted ← read rt.clock
      corrected ← attempt (call (rt.adjudicate adjudicator candidates comparison_payload true))
      after_correction load_ms (now - started) restarted corrected
    after_adjudicate load_ms started (raised output_validation_error) =
        pure (failed_judge load_ms output_validation_error)
    after_adjudicate load_ms started (raised other_error) = pure (failed_judge load_ms other_error)

    unfoldable pub load_judge : Exec W ℕ
    load_judge = do
      call rt.reset_peak
      load_started ← read rt.clock
      note (loaded adjudicator.candidate_id)
      call (rt.load adjudicator)
      call rt.synchronize
      now ← read rt.clock
      pure (now - load_started)

    unfoldable pub after_judge_load : Outcome ℕ → Exec W JudgeBody
    after_judge_load (raised f) = pure (failed_judge 0 f)
    after_judge_load (ok load_ms) = do
      infer_started ← read rt.clock
      first ← attempt (call (rt.adjudicate adjudicator candidates comparison_payload false))
      after_adjudicate load_ms infer_started first

  module _ (checks : RunChecks) (json_digest : Payload → String) (role : PipelineModelRole)
      (adjudicator : ModelCandidateSpec) (candidates : List JudgeCandidate)
      (comparison_payload : List (String × String)) where
    -- The `finally` clause once the judge is created, and what follows it.
    unfoldable pub finish_judge : JudgeBody → Exec W AdjudicatorExecution
    finish_judge body = do
      peak ← call rt.peak_vram
      call (rt.release adjudicator)
      note (released adjudicator.candidate_id)
      lift (checked_judge checks (judge_execution_of json_digest role adjudicator peak body))

    -- The judge is released only if it was created. A factory without a judge raises in `create_judge`.
    unfoldable pub after_judge_create : Outcome (Unit {0}) → Exec W AdjudicatorExecution
    after_judge_create (raised f) = do
      peak ← call rt.peak_vram
      lift (
          checked_judge checks
            (judge_execution_of json_digest role adjudicator peak (failed_judge 0 f)))
    after_judge_create (ok _) = do
      note (created adjudicator.candidate_id)
      load_outcome ← attempt (load_judge adjudicator candidates comparison_payload)
      body ← after_judge_load adjudicator candidates comparison_payload load_outcome
      finish_judge body

    -- `_execute_adjudicator`. An exception leaves it only from the `finally` clause or a validator.
    unfoldable pub execute_adjudicator : Exec W AdjudicatorExecution
    execute_adjudicator = do
      judge ← attempt (call (rt.create_judge adjudicator))
      after_judge_create judge
