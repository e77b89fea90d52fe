-- ===== src/SessionRunner/Stage/Settle.antt =====
-- session_runner.py, `_run_with_trace`: what a stage leaves in the variables of the loop.
use fireviewer_orchestrator.Common.{
  ℕ, String, Bool, false, Option, none, some, List, [], ◌∷◌, ◌++◌, ◌+++◌, if◌then◌else◌, length,
  nonempty, map,
}
use fireviewer_orchestrator.Common.Order.{Ord, ◌==◌, string_ord}
use fireviewer_orchestrator.Common.Sets.{contains}
use fireviewer_orchestrator.Common.Dict.{values}
use fireviewer_orchestrator.Contracts.{WorkerInput, ModelSpec, ModelGroupSpec}
use fireviewer_orchestrator.StageGates.{
  StageStatus, succeeded, failed, skipped, StageGateRecord, derive_capabilities,
}
use fireviewer_orchestrator.StageGates.Engine.{postflight}
use fireviewer_orchestrator.SessionRunner.Effects.{Payload, other_error, Outcome, ok, raised}
use fireviewer_orchestrator.SessionRunner.Patches.{
  Results, PipelineModelRole, role_text, maximum_stage_output_items,
}
use fireviewer_orchestrator.SessionRunner.Candidate.{StageAttempt, ModelRun, CandidateExecution}
use fireviewer_orchestrator.SessionRunner.Stage.{
  ConsensusEvaluation, ConsensusResult, StageTrace, Session, Loop, trace_gate, first_code,
  is_retryable, is_alarming, skipped_run, preflight_error, missing_model_code,
}
use fireviewer_orchestrator.SessionRunner.Stage.Execute.{
  Judged, candidate_errors, successful_candidates,
}

-- What `results`, `run`, `status`, `error_code` and `stage_attempts` become.
pub record Verdict : Type 0 where
  pub results : Results
  pub run : ModelRun
  pub status : StageStatus
  pub error_code : Option String
  pub attempts : List StageAttempt
  pub errors : List String

-- `f"{role}:{code}"` for an error code that is there
abbrev pub role_error : PipelineModelRole → Option String → List String
role_error role none = []
role_error role (some code) = (role_text role +++ ":" +++ code) ∷ []

-- `next((e for e in executions if e.candidate.candidate_id == selected), None)`
unfoldable pub find_selected : Option String → List CandidateExecution → Option CandidateExecution
find_selected none es = none
find_selected (some k) [] = none
find_selected (some k) (e ∷ es) =
    if e.candidate.candidate_id == k then some e else find_selected (some k) es

-- The `else` branch: no candidate's results are taken. `first` is `executions[0]`. An evaluation
-- without reason codes raises an `IndexError`.
unfoldable pub refuse :
    PipelineModelRole
    → Results
    → CandidateExecution
    → List CandidateExecution
    → ConsensusEvaluation
    → Outcome Verdict
refuse role results first executions evaluation = elim evaluation.reason_codes [
  | [] ↦ raised other_error
  | code ∷ codes ↦
      let consensus_error = "consensus_" +++ code in
      let some_succeeded = nonempty (successful_candidates executions) in
      ok (record {
        results = results;
        run =
            if some_succeeded
            then record (first.run) { status = failed; error_code = some consensus_error }
            else first.run;
        status = failed;
        error_code = if some_succeeded then some consensus_error else first.run.error_code;
        attempts = if some_succeeded then [] else first.attempts;
        errors = ("consensus:" +++ role_text role +++ ":" +++ code) ∷ [];
      })
]

-- `if evaluation.downstream_allowed and selected is not None and selected.results is not None`
unfoldable pub select :
    PipelineModelRole
    → Results
    → CandidateExecution
    → List CandidateExecution
    → ConsensusEvaluation
    → Outcome Verdict
select role results first executions evaluation =
    let refused = refuse role results first executions evaluation in
    elim (find_selected evaluation.selected_candidate_id executions) [
      | none ↦ refused
      | some e ↦ elim e.results [
        | none ↦ refused
        | some chosen ↦
            if evaluation.downstream_allowed
            then ok (record {
              results = chosen;
              run = e.run;
              status = succeeded;
              error_code = none;
              attempts = e.attempts;
              errors = [];
            })
            else refused
      ]
    ]

-- the gate error of a stage, unless it is listed already
abbrev pub gate_error :
    {Cap : Type 0} → PipelineModelRole → StageGateRecord Cap → List String → List String
gate_error role gate errors =
    let e = "gate:" +++ role_text role +++ ":" +++ first_code gate.reason_codes in
    if is_alarming gate.decision
    then (if contains e errors then errors else errors ++ e ∷ [])
    else errors

module _ {Cap : Type 0} ⦃o : Ord Cap⦄ (session : Session Cap) (role : PipelineModelRole) where
  -- `WorkerConsensusResultV2(...)`
  unfoldable pub consensus_result :
      ModelGroupSpec → List CandidateExecution → Judged → ConsensusResult
  consensus_result group executions judged = record {
    consensus_id = "consensus:" +++ role_text role;
    stage_role = role;
    decision = judged.evaluation.decision;
    candidate_ids = map (λ (e : CandidateExecution). e.candidate.candidate_id) executions;
    selected_candidate_id = judged.evaluation.selected_candidate_id;
    adjudicator_candidate_id = judged.adjudicator_candidate_id;
    reason_codes = judged.evaluation.reason_codes;
    successful_candidates = length (successful_candidates executions);
    required_successful = group.minimum_successful;
    agreement_score = judged.evaluation.agreement_score;
    agreement_threshold = group.agreement_threshold;
    downstream_allowed = judged.evaluation.downstream_allowed;
    comparison_digest =
        session.json_digest (Payload.comparison judged.evaluation.comparison_payload);
    comparison_payload = judged.evaluation.comparison_payload;
  }

  -- Both validators of a skipped stage: of its run, then of its trace.
  abbrev pub checked : ModelRun → StageTrace → Loop Cap → Outcome (Loop Cap)
  checked run trace l = elim (session.checks.runs.check_run run) [
    | raised f ↦ raised f
    | ok _ ↦ elim (session.checks.check_trace trace) [ raised f ↦ raised f | ok _ ↦ ok l ]
  ]

  abbrev pub skipped_trace :
      ℕ → Bool → StageGateRecord Cap → Option (StageGateRecord Cap) → StageTrace
  skipped_trace sequence retryable gate after_gate = record {
    stage_role = (session.contracts role).role;
    contract_id = (session.contracts role).contract_id;
    sequence = sequence;
    status = skipped;
    retryable = retryable;
    preflight = trace_gate session.value gate;
    postflight = elim after_gate [ none ↦ none | some g ↦ some (trace_gate session.value g) ];
    attempts = [];
  }

  -- The branch of a preflight that does not let the stage proceed.
  unfoldable pub skip_stage :
      ℕ → Option ModelSpec → StageGateRecord Cap → Loop Cap → Outcome (Loop Cap)
  skip_stage sequence spec gate l =
      let run = skipped_run role spec (preflight_error gate) in
      let trace = skipped_trace sequence (is_retryable gate.decision) gate none in
      checked run trace (record l {
        errors = l.errors ++ role_error role (preflight_error gate);
        runs = l.runs ++ run ∷ [];
        gate_records = l.gate_records ++ gate ∷ [];
        stage_traces = l.stage_traces ++ trace ∷ [];
      })

  -- The branch of a role with no model group.
  unfoldable pub unconfigured_stage :
      ℕ → List Cap → StageGateRecord Cap → Loop Cap → Outcome (Loop Cap)
  unconfigured_stage sequence before gate l =
      let code = missing_model_code role in
      let run = skipped_run role none (some code) in
      let after_gate = postflight (session.contracts role) before before skipped (some code) 0 0 in
      let trace = skipped_trace sequence false gate (some after_gate) in
      checked run trace (record l {
        errors = l.errors ++ role_error role (some code);
        runs = l.runs ++ run ∷ [];
        gate_records = l.gate_records ++ gate ∷ after_gate ∷ [];
        stage_traces = l.stage_traces ++ trace ∷ [];
      })

  -- After the choice of results: the postflight, the trace and its validator, and the errors.
  -- `elapsed` is the stage's wall time.
  unfoldable pub settle_verdict :
      ℕ
      → WorkerInput
      → List Cap
      → StageGateRecord Cap
      → List CandidateExecution
      → Judged
      → ConsensusResult
      → ℕ
      → Loop Cap
      → Verdict
      → Outcome (Loop Cap)
  settle_verdict sequence batch before gate executions judged result elapsed l v =
      let contract = session.contracts role in
      let after = derive_capabilities session.names batch (values v.results) in
      let after_gate =
        postflight contract before after v.status v.error_code elapsed
          (maximum_stage_output_items role (values v.results)) in
      let errors =
        l.errors ++ (candidate_errors role executions ++ (judged.judge_errors ++ v.errors)) in
      let trace : StageTrace = record {
        stage_role = contract.role;
        contract_id = contract.contract_id;
        sequence = sequence;
        status = v.status;
        retryable = is_retryable after_gate.decision;
        preflight = trace_gate session.value gate;
        postflight = some (trace_gate session.value after_gate);
        attempts = v.attempts;
      } in
      elim (session.checks.check_trace trace) [
        | raised f ↦ raised f
        | ok _ ↦ ok (record {
          results = v.results;
          runs = l.runs ++ v.run ∷ [];
          errors = gate_error role after_gate errors;
          gate_records = l.gate_records ++ gate ∷ after_gate ∷ [];
          stage_traces = l.stage_traces ++ trace ∷ [];
          candidate_runs =
              l.candidate_runs
              ++ (map (λ (e : CandidateExecution). e.candidate_run) executions
                  ++ judged.judge_runs);
          consensus_results = l.consensus_results ++ result ∷ [];
        })
      ]

  -- After the consensus: the rest of the loop's body.
  unfoldable pub settle_stage :
      ℕ
      → WorkerInput
      → List Cap
      → StageGateRecord Cap
      → ModelGroupSpec
      → CandidateExecution
      → List CandidateExecution
      → Judged
      → ℕ
      → Loop Cap
      → Outcome (Loop Cap)
  settle_stage sequence batch before gate group first executions judged elapsed l =
      let result = consensus_result group executions judged in
      elim (session.checks.check_consensus result) [
        | raised f ↦ raised f
        | ok _ ↦ elim (select role l.results first executions judged.evaluation) [
          | raised f ↦ raised f
          | ok v ↦ settle_verdict sequence batch before gate executions judged result elapsed l v
        ]
      ]
