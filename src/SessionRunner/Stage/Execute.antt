-- ===== src/SessionRunner/Stage/Execute.antt =====
-- session_runner.py, `_run_with_trace`: a stage's candidates, their consensus and the judge.
use fireviewer_orchestrator.Common.{
  ℕ, String, Bool, false, not, Option, none, some, List, [], ◌∷◌, ◌++◌, ◌+++◌, ◌&&◌, if◌then◌else◌,
  nat_eq, map,
}
use fireviewer_orchestrator.Common.Order.{string_ord}
use fireviewer_orchestrator.Common.Dict.{put}
use fireviewer_orchestrator.Contracts.{WorkerInput, ModelCandidateSpec, ModelGroupSpec}
use fireviewer_orchestrator.SessionRunner.Effects.{
  other_error, Outcome, ok, raised, Exec, JudgeCandidate, pure, raise, lift, ◌>>=◌, Runtime,
}
use fireviewer_orchestrator.SessionRunner.Patches.{Results, PipelineModelRole, role_text}
use fireviewer_orchestrator.SessionRunner.Candidate.{
  CandidateRun, CandidateExecution, execute_candidate,
}
use fireviewer_orchestrator.SessionRunner.Adjudicator.{AdjudicatorExecution, execute_adjudicator}
use fireviewer_orchestrator.SessionRunner.Stage.{
  SuccessfulCandidate, ConsensusEvaluation, Consensus, Session, is_succeeded, is_failed, is_cascade,
  shown,
}

-- The test that ends the loop over the candidates after the first of them.
unfoldable pub is_enough :
    Consensus → PipelineModelRole → ModelGroupSpec → Bool → CandidateExecution → Outcome Bool
is_enough consensus role group is_first e = elim e.results [
  | none ↦ ok false
  | some results ↦
      if is_cascade group.strategy
        && is_first
        && nat_eq group.minimum_successful 1
        && nat_eq group.minimum_agreeing 1
        && not group.always_challenge
      then elim (consensus.candidate_requires_challenge role results) [
        | ok challenged ↦ ok (not challenged)
        | raised f ↦ raised f
      ]
      else ok false
]

-- `successful`
unfoldable pub successful_candidates : List CandidateExecution → List SuccessfulCandidate
successful_candidates [] = []
successful_candidates (e ∷ es) =
    let rest = successful_candidates es in
    elim e.results [
      | none ↦ rest
      | some results ↦
          if is_succeeded e.run.status
          then record {
            candidate_id = e.candidate.candidate_id;
            results = results;
            repaired = e.repaired;
          }
            ∷ rest
          else rest
    ]

-- `judge_candidates`
unfoldable pub judge_candidates : List CandidateExecution → List JudgeCandidate
judge_candidates [] = []
judge_candidates (e ∷ es) =
    let rest = judge_candidates es in
    elim e.candidate_run.output_payload [
      | none ↦ rest
      | some payload ↦
          if is_succeeded e.run.status
          then record {
            candidate_id = e.candidate.candidate_id;
            model_id = e.candidate.spec.model_id;
            revision = e.candidate.spec.revision;
            output_payload = payload;
          }
            ∷ rest
          else rest
    ]

-- What the loop over the candidates adds to `errors`.
unfoldable pub candidate_errors : PipelineModelRole → List CandidateExecution → List String
candidate_errors role [] = []
candidate_errors role (e ∷ es) =
    (if is_failed e.run.status
      then (role_text role +++ ":" +++ e.candidate.candidate_id +++ ":" +++ shown e.run.error_code)
        ∷ []
      else [])
    ++ candidate_errors role es

-- A stage's evaluation, with what the judge adds to `candidate_runs` and `errors`.
pub record Judged : Type 0 where
  pub evaluation : ConsensusEvaluation
  pub judge_runs : List CandidateRun
  pub adjudicator_candidate_id : Option String
  pub judge_errors : List String

-- The branches of `if adjudication.verdict is not None`.
unfoldable pub after_judge :
    Consensus
    → PipelineModelRole
    → ModelGroupSpec
    → List SuccessfulCandidate
    → ConsensusEvaluation
    → ModelCandidateSpec
    → AdjudicatorExecution
    → Outcome Judged
after_judge consensus role group successful evaluation adjudicator adjudication =
    elim adjudication.verdict [
      | some verdict ↦
          elim (consensus.apply_adjudication evaluation verdict
            (map (λ (s : SuccessfulCandidate). s.candidate_id) successful)
            group.adjudication_confidence_threshold group.disagreement_decision) [
              | raised f ↦ raised f
              | ok applied ↦ ok (record {
                evaluation = applied;
                judge_runs = adjudication.candidate_run ∷ [];
                adjudicator_candidate_id = some adjudicator.candidate_id;
                judge_errors = [];
              })
            ]
      | none ↦ ok (record {
        evaluation = record {
          decision = group.disagreement_decision;
          selected_candidate_id = none;
          agreement_score = evaluation.agreement_score;
          reason_codes = "adjudicator_failed" ∷ [];
          downstream_allowed = false;
          requires_adjudication = false;
          comparison_payload =
              put "adjudication" (shown adjudication.candidate_run.error_code)
                evaluation.comparison_payload;
        };
        judge_runs = adjudication.candidate_run ∷ [];
        adjudicator_candidate_id = some adjudicator.candidate_id;
        judge_errors =
            ("consensus:"
              +++ role_text role
              +++ ":adjudicator:"
              +++ shown adjudication.candidate_run.error_code)
            ∷ [];
      })
    ]

module _ {W Cap : Type 0} (rt : Runtime W) (session : Session Cap) (role : PipelineModelRole) where
  -- The loop over `group.candidates`.
  unfoldable pub run_candidates :
      ModelGroupSpec
      → WorkerInput
      → Results
      → ℕ
      → Bool
      → List ModelCandidateSpec
      → Exec W (List CandidateExecution)
  run_candidates group batch results repairs is_first [] = pure []
  run_candidates group batch results repairs is_first (c ∷ cs) = do
    e ←
        execute_candidate rt session.validate_item_result session.checks.runs session.json_digest
          role c batch results repairs
    let rest = run_candidates group batch results repairs false cs
    let more = do es ← rest; pure (e ∷ es)
    enough ← lift (is_enough session.consensus role group is_first e)
    if enough then pure (e ∷ []) else more

  -- The branch of `if evaluation.requires_adjudication`; without a judge the assertion fails.
  unfoldable pub ask_judge :
      ModelGroupSpec
      → List CandidateExecution
      → ConsensusEvaluation
      → Option ModelCandidateSpec
      → Exec W Judged
  ask_judge group executions evaluation none = raise other_error
  ask_judge group executions evaluation (some adjudicator) = do
    adjudication ←
        execute_adjudicator rt session.checks.runs session.json_digest role adjudicator
          (judge_candidates executions) evaluation.comparison_payload
    lift (
        after_judge session.consensus role group (successful_candidates executions) evaluation
          adjudicator adjudication)

  -- The evaluation, with the judge's where it is asked for.
  unfoldable pub judge_stage :
      ModelGroupSpec → List CandidateExecution → ConsensusEvaluation → Exec W Judged
  judge_stage group executions evaluation =
      if evaluation.requires_adjudication
      then ask_judge group executions evaluation group.adjudicator
      else pure (record {
        evaluation = evaluation;
        judge_runs = [];
        adjudicator_candidate_id = none;
        judge_errors = [];
      })
