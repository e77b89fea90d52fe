-- ===== src/SessionRunner/Candidate.antt =====
-- session_runner.py, `_execute_candidate`: one model's run on a stage, with at most one repair.
-- Wall-clock stamps are left out; durations are differences of readings of the clock.

pub mod Laws
pub mod Lifecycle
use fireviewer_orchestrator.Common.{
  ℕ, ◌+◌, ◌-◌, String, Bool, true, false, Option, none, some, List, [], ◌∷◌, ◌++◌, ◌≡◌,
  if◌then◌else◌, ltb, map,
}
use fireviewer_orchestrator.Contracts.{ItemResult, BatchItem, WorkerInput, ModelCandidateSpec}
use fireviewer_orchestrator.StageGates.{StageStatus, succeeded, failed}
use fireviewer_orchestrator.SessionRunner.Effects.{
  Fault, is_invalid_output, Outcome, ok, raised, Effect, created, loaded, released, inferred, State,
  Exec, Payload, pure, raise, lift, ◌>>=◌, ◌>>◌, attempt, note, Runtime, call, read,
}
use fireviewer_orchestrator.SessionRunner.Patches.{
  Results, Patches, PipelineModelRole, role_text, model_role_v2, as_patch, validated_candidates,
  candidate_payload,
}

-- `kind` of `WorkerStageAttemptV2`
pub data AttemptKind : Type 0 where
  initial repair : AttemptKind

pub record StageAttempt : Type 0 where
  pub attempt : ℕ
  pub kind : AttemptKind
  pub status : StageStatus
  pub inference_ms : ℕ
  pub peak_vram_bytes : Option ℕ
  pub error_code : Option String

pub record ModelRun : Type 0 where
  pub model_role : PipelineModelRole
  pub model_id : String
  pub revision : String
  pub status : StageStatus
  pub load_ms : ℕ
  pub inference_ms : ℕ
  pub peak_vram_bytes : Option ℕ
  pub error_code : Option String

-- `WorkerModelCandidateRunV2`. The digest is a function of the payload, by another library.
pub record CandidateRun : Type 0 where
  pub candidate_id : String
  pub candidate_rank : ℕ
  pub stage_role : PipelineModelRole
  pub model_role : String
  pub model_id : String
  pub revision : String
  pub status : StageStatus
  pub load_ms : ℕ
  pub inference_ms : ℕ
  pub peak_vram_bytes : Option ℕ
  pub repaired : Bool
  pub output_digest : Option String
  pub output_payload : Option Payload
  pub error_code : Option String

pub record CandidateExecution : Type 0 where
  pub candidate : ModelCandidateSpec
  pub run : ModelRun
  pub candidate_run : CandidateRun
  pub results : Option Results
  pub attempts : List StageAttempt
  pub repaired : Bool

-- What the local variables hold when the `try` statement ends.
pub record Body : Type 0 where
  pub load_ms : ℕ
  pub inference_ms : ℕ
  pub attempts : List StageAttempt
  pub repaired : Bool
  pub results : Option Results
  pub output_payload : Option Patches
  pub fault : Option Fault

-- The validators of the two records that a run builds; they belong to another package.
pub record RunChecks : Type 0 where
  pub check_run : ModelRun → Outcome (Unit {0})
  pub check_candidate_run : CandidateRun → Outcome (Unit {0})

-- What an inference and its validation return.
pub record Pass : Type 0 where
  pub patches : Patches
  pub results : Results
  pub finished : ℕ

-- the error code of an exception, in the records of attempts and of the run
abbrev pub fault_code : Fault → String
fault_code f = if is_invalid_output f then "invalid_model_output" else "model_runtime_error"

abbrev pub failed_attempt : ℕ → AttemptKind → ℕ → Option ℕ → Fault → StageAttempt
failed_attempt n kind ms peak f = record {
  attempt = n;
  kind = kind;
  status = failed;
  inference_ms = ms;
  peak_vram_bytes = peak;
  error_code = some (fault_code f);
}

abbrev pub succeeded_attempt : ℕ → AttemptKind → ℕ → Option ℕ → StageAttempt
succeeded_attempt n kind ms peak = record {
  attempt = n;
  kind = kind;
  status = succeeded;
  inference_ms = ms;
  peak_vram_bytes = peak;
  error_code = none;
}

abbrev pub failed_body : ℕ → ℕ → List StageAttempt → Fault → Body
failed_body load_ms inference_ms attempts f = record {
  load_ms = load_ms;
  inference_ms = inference_ms;
  attempts = attempts;
  repaired = false;
  results = none;
  output_payload = none;
  fault = some f;
}

-- A failed attempt is listed with the memory that it used; where that cannot be read, the new
-- exception takes the place of the old one.
abbrev pub failed_measured :
    ℕ → ℕ → List StageAttempt → ℕ → AttemptKind → ℕ → Fault → Outcome (Option ℕ) → Body
failed_measured load_ms inference_ms before n kind ms f (ok peak) =
    failed_body load_ms inference_ms (before ++ failed_attempt n kind ms peak f ∷ []) f
failed_measured load_ms inference_ms before n kind ms f (raised g) =
    failed_body load_ms inference_ms before g

-- So is a successful one, whose results are bound already.
abbrev pub succeeded_measured :
    ℕ → ℕ → List StageAttempt → ℕ → AttemptKind → ℕ → Bool → Pass → Outcome (Option ℕ) → Body
succeeded_measured load_ms inference_ms before n kind ms repaired pass (ok peak) = record {
  load_ms = load_ms;
  inference_ms = inference_ms;
  attempts = before ++ succeeded_attempt n kind ms peak ∷ [];
  repaired = repaired;
  results = some pass.results;
  output_payload = some (candidate_payload pass.patches);
  fault = none;
}
succeeded_measured load_ms inference_ms before n kind ms repaired pass (raised g) = record {
  load_ms = load_ms;
  inference_ms = inference_ms;
  attempts = before;
  repaired = repaired;
  results = some pass.results;
  output_payload = none;
  fault = some g;
}

-- The base results as the adapter sees them.
abbrev pub as_patches : Results → Patches
as_patches [] = []
as_patches ((k, r) ∷ rest) = (k, as_patch r) ∷ as_patches rest

-- The records themselves.
unfoldable pub records_of :
    (Payload → String)
    → PipelineModelRole
    → ModelCandidateSpec
    → Option ℕ
    → Body
    → CandidateExecution
records_of json_digest role candidate peak body =
    let status : StageStatus = elim body.fault [ none ↦ succeeded | some f ↦ failed ] in
    let error_code : Option String = elim body.fault [
      | none ↦ none
      | some f ↦ some (fault_code f)
    ] in
    record {
      candidate = candidate;
      run = record {
        model_role = role;
        model_id = candidate.spec.model_id;
        revision = candidate.spec.revision;
        status = status;
        load_ms = body.load_ms;
        inference_ms = body.inference_ms;
        peak_vram_bytes = peak;
        error_code = error_code;
      };
      candidate_run = record {
        candidate_id = candidate.candidate_id;
        candidate_rank = candidate.rank;
        stage_role = role;
        model_role = model_role_v2 role;
        model_id = candidate.spec.model_id;
        revision = candidate.spec.revision;
        status = status;
        load_ms = body.load_ms;
        inference_ms = body.inference_ms;
        peak_vram_bytes = peak;
        repaired = body.repaired;
        output_digest = elim body.output_payload [
          | none ↦ none
          | some p ↦ some (json_digest (Payload.patches p))
        ];
        output_payload = elim body.output_payload [
          | none ↦ none
          | some p ↦ some (Payload.patches p)
        ];
        error_code = error_code;
      };
      results = body.results;
      attempts = body.attempts;
      repaired = body.repaired;
    }

-- The two records that are built after the `try` statement, each with its validators.
unfoldable pub execution_of :
    RunChecks
    → (Payload → String)
    → PipelineModelRole
    → ModelCandidateSpec
    → Option ℕ
    → Body
    → Outcome CandidateExecution
unfolding records_of
execution_of checks json_digest role candidate peak body =
    let e = records_of json_digest role candidate peak body in
    elim (checks.check_run e.run) [
      | raised f ↦ raised f
      | ok _ ↦ elim (checks.check_candidate_run e.candidate_run) [
        | raised f ↦ raised f
        | ok _ ↦ ok e
      ]
    ]

module _ {W : Type 0} (rt : Runtime W) (validate_item_result : BatchItem → ItemResult → Bool) where
  module _ (candidate : ModelCandidateSpec) (batch : WorkerInput) (base_results : Results) where
    -- `adapter.infer`, `synchronize_cuda` and `_validated_candidates`
    unfoldable pub infer_pass : Bool → Exec W Pass
    infer_pass correction = do
      note (inferred candidate.candidate_id correction)
      patches ← call (rt.infer candidate batch.items (as_patches base_results) correction)
      call rt.synchronize
      finished ← read rt.clock
      results ← lift (validated_candidates validate_item_result batch base_results patches)
      pure (record { patches = patches; results = results; finished = finished })

    -- `memory.reset_peak`, `adapter.load` and `synchronize_cuda`
    unfoldable pub load_adapter : Exec W (Unit {0})
    load_adapter = do
      call rt.reset_peak
      note (loaded candidate.candidate_id)
      call (rt.load candidate)
      call rt.synchronize

    -- After the inference with `correction=True`: its `except` clauses, and what follows them.
    unfoldable pub after_repair : ℕ → ℕ → ℕ → StageAttempt → Outcome Pass → Exec W Body
    after_repair load_ms first_ms started first second = do
      now ← read rt.clock
      measured ← attempt (call rt.peak_vram)
      pure (elim second [
        | raised f ↦
            failed_measured load_ms (first_ms + (now - started)) (first ∷ []) 2 repair
              (now - started) f measured
        | ok pass ↦
            succeeded_measured load_ms (first_ms + (now - started)) (first ∷ []) 2 repair
              (now - started) true pass measured
      ])

    -- The `except` clauses of the first inference, once the memory is read: a second inference where
    -- the output was invalid and the contract allows a repair.
    unfoldable pub after_failure : ℕ → ℕ → ℕ → Fault → Outcome (Option ℕ) → Exec W Body
    after_failure max_repair_attempts load_ms first_ms f (raised g) =
        pure (failed_body load_ms first_ms [] g)
    after_failure max_repair_attempts load_ms first_ms f (ok peak) = do
      let first = failed_attempt 1 initial first_ms peak f
      let stop = pure {W = W} (failed_body load_ms first_ms (first ∷ []) f)
      let again = do
        restarted ← read rt.clock
        second ← attempt (infer_pass true)
        after_repair load_ms first_ms restarted first second
      if is_invalid_output f then (if ltb max_repair_attempts 1 then stop else again) else stop

    -- After the first inference: its `except` and `else` clauses.
    unfoldable pub after_first : ℕ → ℕ → ℕ → Outcome Pass → Exec W Body
    after_first max_repair_attempts load_ms started (ok pass) = do
      measured ← attempt (call rt.peak_vram)
      pure (
          succeeded_measured load_ms (pass.finished - started) [] 1 initial
            (pass.finished - started) false pass measured)
    after_first max_repair_attempts load_ms started (raised f) = do
      now ← read rt.clock
      measured ← attempt (call rt.peak_vram)
      after_failure max_repair_attempts load_ms (now - started) f measured

    -- After the adapter is loaded, or was not.
    unfoldable pub after_load : ℕ → ℕ → Outcome (Unit {0}) → Exec W Body
    after_load max_repair_attempts load_started (raised f) = pure (failed_body 0 0 [] f)
    after_load max_repair_attempts load_started (ok _) = do
      load_finished ← read rt.clock
      infer_started ← read rt.clock
      first ← attempt (infer_pass false)
      after_first max_repair_attempts (load_finished - load_started) infer_started first

    -- The whole `try` statement; it catches every exception.
    unfoldable pub try_candidate : ℕ → ℕ → Exec W Body
    try_candidate max_repair_attempts load_started = do
      load_outcome ← attempt load_adapter
      after_load max_repair_attempts load_started load_outcome

  module _ (checks : RunChecks) (json_digest : Payload → String) (role : PipelineModelRole) where
    -- The `finally` clause and what follows it. An exception of the clause leaves the session, with the
    -- adapter that was not released.
    unfoldable pub finish_candidate : ModelCandidateSpec → Body → Exec W CandidateExecution
    finish_candidate candidate body = do
      peak ← call rt.peak_vram
      call (rt.release candidate)
      note (released candidate.candidate_id)
      lift (execution_of checks json_digest role candidate peak body)

    -- `_execute_candidate` once the adapter is created.
    unfoldable pub run_created :
        ModelCandidateSpec → WorkerInput → Results → ℕ → Exec W CandidateExecution
    run_created candidate batch base_results max_repair_attempts = do
      note (created candidate.candidate_id)
      load_started ← read rt.clock
      body ← try_candidate candidate batch base_results max_repair_attempts load_started
      finish_candidate candidate body

    -- `_execute_candidate`. An exception of `create` leaves the session.
    unfoldable pub execute_candidate :
        ModelCandidateSpec → WorkerInput → Results → ℕ → Exec W CandidateExecution
    execute_candidate candidate batch base_results max_repair_attempts = do
      call (rt.create candidate)
      run_created candidate batch base_results max_repair_attempts
