-- ===== src/SessionRunner/Candidate/Lifecycle.antt =====
-- One model's run from the creation of its adapter to the release.
use fireviewer_orchestrator.Common.{
  ℕ, ◌≤◌, String, Bool, true, not, Option, some, List, [], ◌∷◌, ◌++◌, ◌≡◌, ◌↔◌, refl, sym, subst,
  ap, ◌∙◌, arith, is_some, length, if◌then◌else◌,
}
use mathlib.Core.List.{append_assoc}
use fireviewer_orchestrator.Common.Dict.{keys}
use fireviewer_orchestrator.Contracts.{ItemResult, BatchItem, WorkerInput, ModelCandidateSpec}
use fireviewer_orchestrator.StageGates.{succeeded, failed}
use fireviewer_orchestrator.SessionRunner.Effects.{
  Fault, Outcome, ok, raised, Effect, created, released, State, Runtime, Cleans, Payload, continue,
}
use fireviewer_orchestrator.SessionRunner.Patches.{Results, PipelineModelRole}
use fireviewer_orchestrator.SessionRunner.Candidate.{
  CandidateExecution, Body, RunChecks, execution_of, records_of, finish_candidate, run_created,
  execute_candidate,
}
use fireviewer_orchestrator.SessionRunner.Candidate.Laws.{
  total_ms, inferences, Uses, IsCoherent, WhenOk, Ends, try_candidate-Ends,
}

-- How the records of an execution hang together.
pub record IsConsistent (max_repair_attempts : ℕ) (base : Results) (e : CandidateExecution)
    : Type 0 where
  pub kept_ids : (r : Results) → e.results ≡ some r → keys r ≡ keys base
  pub status_iff : (e.run.status ≡ succeeded) ↔ (is_some e.results ≡ true)
  pub run_status : e.run.status ≡ (if is_some e.results then succeeded else failed)
  pub code_iff : is_some e.run.error_code ≡ not (is_some e.results)
  pub payload_iff : is_some e.candidate_run.output_payload ≡ is_some e.results
  pub digest_iff : is_some e.candidate_run.output_digest ≡ is_some e.results
  pub same_status : e.candidate_run.status ≡ e.run.status
  pub same_code : e.candidate_run.error_code ≡ e.run.error_code
  pub durations : e.run.inference_ms ≡ total_ms e.attempts
  pub at_most_two : length e.attempts ≤ 2
  pub second_allowed : length e.attempts ≡ 2 → 1 ≤ max_repair_attempts
  pub repaired_iff :
      (e.candidate_run.repaired ≡ true) ↔ ((length e.attempts ≡ 2) × (e.run.status ≡ succeeded))

records_of-IsConsistent :
    (json_digest : Payload → String) (role : PipelineModelRole) (c : ModelCandidateSpec)
    (peak : Option ℕ) (max : ℕ) (base : Results) (body : Body)
    → IsCoherent max base body
    → IsConsistent max base (records_of json_digest role c peak body)
unfolding records_of
records_of-IsConsistent json_digest role c peak max base body h = ground arith

WhenOk-checked :
    (P : CandidateExecution → Type 0) (e : CandidateExecution) (a b : Outcome (Unit {0}))
    → P e
    → WhenOk P
        (elim a [ raised f ↦ raised f | ok _ ↦ elim b [ raised f ↦ raised f | ok _ ↦ ok e ] ])
WhenOk-checked P e (raised f) b h = tt
WhenOk-checked P e (ok _) (raised f) h = tt
WhenOk-checked P e (ok _) (ok _) h = h

module _ {W : Type 0} (rt : Runtime W) (validate : BatchItem → ItemResult → Bool)
    (checks : RunChecks) (json_digest : Payload → String) (role : PipelineModelRole)
    (c : ModelCandidateSpec) (batch : WorkerInput) (base : Results) (max : ℕ) where
  -- What an execution that began with the log `start` leaves behind.
  pub record Finishes (start : List Effect) (r : Outcome CandidateExecution × State W)
      : Type 0 where
    pub during : List Effect
    pub log : r.1.log ≡ start ++ created c.candidate_id ∷ (during ++ released c.candidate_id ∷ [])
    pub uses : Uses c.candidate_id during
    pub outcome :
        WhenOk
          (λ (e : CandidateExecution).
            IsConsistent max base e
            × (length e.attempts ≡ inferences during)
            × (e.run.model_role ≡ role))
          r.0

  module _ (clean : Cleans rt) where
    -- `finish_candidate` where the calls of its `finally` clause return
    finish_candidate_lem :
        (body : Body) (s : State W)
        → let measured = rt.peak_vram s.world in
          (peak : Option ℕ) × (finish_candidate rt validate checks json_digest role c body s ≡ (
            execution_of checks json_digest role c peak body,
            record s {
              world = (rt.release c measured.1).1;
              log = s.log ++ released c.candidate_id ∷ [];
            },
          ))
    unfolding finish_candidate
    finish_candidate_lem body s =
        let (peak, e) = clean.measures s.world in
        let e' = clean.releases c (rt.peak_vram s.world).1 in (peak, rw (e, e'))

    execution_of-WhenOk :
        (peak : Option ℕ) (during : List Effect) (body : Body)
        → IsCoherent max base body × (length body.attempts ≡ inferences during)
        → WhenOk
            (λ (e : CandidateExecution).
              IsConsistent max base e
              × (length e.attempts ≡ inferences during)
              × (e.run.model_role ≡ role))
            (execution_of checks json_digest role c peak body)
    unfolding execution_of records_of
    execution_of-WhenOk peak during body h =
        WhenOk-checked
          (λ (e : CandidateExecution).
            IsConsistent max base e
            × (length e.attempts ≡ inferences during)
            × (e.run.model_role ≡ role))
          _ _ _ (records_of-IsConsistent json_digest role c peak max base body h.0, h.1, refl)

    finish_candidate-Finishes :
        (start : List Effect) (o : Outcome Body) (s : State W)
        → Ends c.candidate_id base max 0 (start ++ created c.candidate_id ∷ []) (o, s)
        → Finishes start (continue o (finish_candidate rt validate checks json_digest role c) s)
    finish_candidate-Finishes start (raised f) s e = absurd e.outcome
    finish_candidate-Finishes start (ok body) s e =
        let (peak, same) = finish_candidate_lem body s in
        subst (Finishes start) (sym same) (record {
          during = e.during;
          log =
              ap (λ l. l ++ released c.candidate_id ∷ []) e.log
              ∙ ap (λ l. l ++ released c.candidate_id ∷ [])
                  (append_assoc start (created c.candidate_id ∷ []) e.during)
              ∙ append_assoc start (created c.candidate_id ∷ e.during)
                  (released c.candidate_id ∷ []);
          uses = e.uses;
          outcome =
              execution_of-WhenOk peak e.during body (e.outcome.0, omega (arith, e.outcome.1));
        })

    run_created-Finishes :
        (s : State W)
        → Finishes s.log (run_created rt validate checks json_digest role c batch base max s)
    unfolding run_created
    run_created-Finishes s =
        finish_candidate-Finishes s.log _ _
          (try_candidate-Ends rt validate clean c batch base max _ _)

    pub execute_candidate-released :
        (s : State W)
        → (rt.create c s.world).0 ≡ ok tt
        → Finishes s.log (execute_candidate rt validate checks json_digest role c batch base max s)
    unfolding execute_candidate
    execute_candidate-released s h = rw h (run_created-Finishes _)

  -- If its adapter cannot be created, the exception leaves the run and nothing is logged.
  pub execute_candidate-uncreated :
      (s : State W) {f : Fault}
      → (rt.create c s.world).0 ≡ raised f
      → let (result, s') =
          execute_candidate rt validate checks json_digest role c batch base max s in
        (result ≡ raised f) × (s'.log ≡ s.log)
  unfolding execute_candidate
  execute_candidate-uncreated s h = (rw h, rw h)
