-- ===== src/SessionRunner/Stage/Judge.antt =====
-- What becomes of a judge's verdict.
use fireviewer_orchestrator.Common.{ℕ, String, Bool, Option, List, [], ◌≡◌, refl, map}
use fireviewer_orchestrator.StageGates.{failed}
use fireviewer_orchestrator.Contracts.{ModelCandidateSpec, ModelGroupSpec}
use fireviewer_orchestrator.SessionRunner.Effects.{
  Fault, ok, raised, State, Runtime, Payload, ConsensusJudgeVerdict, JudgeCandidate,
}
use fireviewer_orchestrator.SessionRunner.Patches.{PipelineModelRole}
use fireviewer_orchestrator.SessionRunner.Candidate.Laws.{Returns, WhenOk}
use fireviewer_orchestrator.SessionRunner.Adjudicator.{
  JudgeBody, after_synchronize, judge_execution_of,
}
use fireviewer_orchestrator.SessionRunner.Stage.{
  Consensus, ConsensusEvaluation, SuccessfulCandidate,
}
use fireviewer_orchestrator.SessionRunner.Stage.Execute.{Judged, after_judge}

-- A judge whose GPU synchronisation raises after its verdict is recorded as failed, and its verdict is
-- applied all the same, with no error listed, where that does not raise.
pub failed_judge_applied :
    {W : Type 0} (rt : Runtime W) (consensus : Consensus) (json_digest : Payload → String)
    (role : PipelineModelRole) (group : ModelGroupSpec) (successful : List SuccessfulCandidate)
    (evaluation : ConsensusEvaluation) (c : ModelCandidateSpec) (peak : Option ℕ)
    (load_ms inference_ms : ℕ) (repaired : Bool) (verdict : ConsensusJudgeVerdict) (f : Fault)
    (cs : List JudgeCandidate) (p : List (String × String)) (s : State W)
    (applied : ConsensusEvaluation)
    → consensus.apply_adjudication evaluation verdict
        (map (λ (k : SuccessfulCandidate). k.candidate_id) successful)
        group.adjudication_confidence_threshold
        group.disagreement_decision
      ≡ ok applied
    → Returns
        (λ (body : JudgeBody).
          let a = judge_execution_of json_digest role c peak body in
          (a.candidate_run.status ≡ failed)
          × WhenOk
              (λ (judged : Judged). (judged.evaluation ≡ applied) × (judged.judge_errors ≡ []))
              (after_judge consensus role group successful evaluation c a))
        (after_synchronize rt c cs p load_ms inference_ms repaired verdict (raised f) s).0
unfolding after_synchronize judge_execution_of after_judge
failed_judge_applied rt consensus json_digest role group successful evaluation c peak l i r v f cs p
      s applied e =
    (refl, rw (e, WhenOk) (refl, refl))
