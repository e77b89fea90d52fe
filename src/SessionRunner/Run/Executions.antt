-- ===== src/SessionRunner/Run/Executions.antt =====
-- What the executions of a stage's candidates are like, where the stage gets that far.
use fireviewer_orchestrator.Common.{ℕ, Bool, false, List, [], ◌∷◌, sym, subst, All, inl, inr}
use fireviewer_orchestrator.Contracts.{WorkerInput, ModelCandidateSpec, ModelGroupSpec}
use fireviewer_orchestrator.SessionRunner.Effects.{Runtime, Cleans, pure}
use fireviewer_orchestrator.SessionRunner.Patches.{Results, PipelineModelRole}
use fireviewer_orchestrator.SessionRunner.Candidate.{CandidateExecution, execute_candidate}
use fireviewer_orchestrator.SessionRunner.Candidate.Laws.{WhenOk, WhenOk-imp, Outcome-cases}
use fireviewer_orchestrator.SessionRunner.Candidate.Lifecycle.{
  execute_candidate-released, execute_candidate-uncreated,
}
use fireviewer_orchestrator.SessionRunner.Stage.{Session}
use fireviewer_orchestrator.SessionRunner.Stage.Laws.{Reliable}
use fireviewer_orchestrator.SessionRunner.Stage.Execute.{is_enough, run_candidates}
use fireviewer_orchestrator.SessionRunner.Run.Yields.{
  Yields, Yields-continue, Yields-if, WhenOk-any,
}

module _ {W Cap : Type 0} (rt : Runtime W) (session : Session Cap) (batch : WorkerInput)
    (clean : Cleans rt) where
  execute_candidate-Yields :
      (role : PipelineModelRole) (c : ModelCandidateSpec) (base : Results) (max : ℕ)
      → Yields (Reliable role) (
          execute_candidate rt session.validate_item_result session.checks.runs session.json_digest
            role c batch base max)
  execute_candidate-Yields role c base max s = elim (Outcome-cases (rt.create c s.world).0) [
    | inl (u, e) ↦
        let f =
          execute_candidate-released rt session.validate_item_result session.checks.runs
            session.json_digest role c batch base max clean s e in
        WhenOk-imp _ (Reliable role) _
          (λ x h. record { run_status = h.0.run_status; run_role = h.2 }) f.outcome
    | inr (f, e) ↦
        subst (WhenOk (Reliable role))
          (sym
            (execute_candidate-uncreated rt session.validate_item_result session.checks.runs
              session.json_digest role c batch base max s e).0)
          tt
  ]

  pub run_candidates-Yields :
      (role : PipelineModelRole) (group : ModelGroupSpec) (base : Results) (max : ℕ) (first : Bool)
      (cs : List ModelCandidateSpec)
      → Yields (All (Reliable role)) (run_candidates rt session role group batch base max first cs)
  unfolding run_candidates
  run_candidates-Yields role group base max first [] s = tt
  run_candidates-Yields role group base max first (c ∷ cs) s =
      Yields-continue (Reliable role) (All (Reliable role)) _ _ _
        (execute_candidate-Yields role c base max s)
        λ e h t.
          Yields-continue {W = W} {A = Bool} {B = List CandidateExecution} (λ b. Unit)
            (All (Reliable role)) (is_enough session.consensus role group first e) _ t
            (WhenOk-any _)
            λ enough u v.
              Yields-if (All (Reliable role)) enough _ _ v (λ _. (h, tt))
                (λ _.
                  Yields-continue {W = W} {A = List CandidateExecution}
                    {B = List CandidateExecution} (All (Reliable role)) (All (Reliable role)) _
                    (λ es. pure (e ∷ es)) _ (run_candidates-Yields role group base max false cs v)
                    λ es k w. (h, k))
