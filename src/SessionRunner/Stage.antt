-- ===== src/SessionRunner/Stage.antt =====
-- session_runner.py, `_run_with_trace`: the body of the loop over the stages.
pub mod Execute
pub mod Settle
pub mod Laws
pub mod Judge
use fireviewer_orchestrator.Common.{
  ℕ, suc, ◌+◌, ◌-◌, String, Bool, true, false, not, Option, none, some, List, [], ◌∷◌, ◌++◌, ◌+++◌,
  ◌&&◌, ◌||◌, if◌then◌else◌, nat_eq, is_some, length, nonempty, map, keep,
}
use fireviewer_orchestrator.Common.Order.{Ord, ◌==◌, string_ord}
use fireviewer_orchestrator.Common.Sets.{contains}
use fireviewer_orchestrator.Common.Dict.{keys, values, lookup, put}
use fireviewer_orchestrator.Contracts.{
  CapabilityNames, StageContract, StageRole, ItemResult, BatchItem, WorkerInput, ModelSpec,
  ModelCandidateSpec, ModelGroupSpec, ConsensusStrategy,
}
use fireviewer_orchestrator.StageGates.{
  GatePhase, GateDecision, StageStatus, succeeded, failed, skipped, StageGateRecord,
  derive_capabilities,
}
use fireviewer_orchestrator.StageGates.Engine.{preflight, postflight}
use fireviewer_orchestrator.SessionRunner.Effects.{
  Fault, other_error, Outcome, ok, raised, State, Exec, Payload, JudgeCandidate,
  ConsensusJudgeVerdict, pure, raise, lift, ◌>>=◌, ◌>>◌, Runtime, read,
}
use fireviewer_orchestrator.SessionRunner.Patches.{
  Results, PipelineModelRole, fire_detection, role_text, maximum_stage_output_items,
}
use fireviewer_orchestrator.SessionRunner.Candidate.{
  StageAttempt, ModelRun, CandidateRun, RunChecks, CandidateExecution, execute_candidate,
}
use fireviewer_orchestrator.SessionRunner.Output.{WorkerOutput}
use fireviewer_orchestrator.SessionRunner.Adjudicator.{AdjudicatorExecution, execute_adjudicator}

pub record SuccessfulCandidate : Type 0 where
  pub candidate_id : String
  pub results : Results
  pub repaired : Bool

-- Scores are kept as their texts.
pub record ConsensusEvaluation : Type 0 where
  pub decision : String
  pub selected_candidate_id : Option String
  pub agreement_score : String
  pub reason_codes : List String
  pub downstream_allowed : Bool
  pub requires_adjudication : Bool
  pub comparison_payload : List (String × String)

-- The package `fireviewer_vision_runtime.consensus`, whose functions may raise.
pub record Consensus : Type 0 where
  pub candidate_requires_challenge : PipelineModelRole → Results → Outcome Bool
  pub evaluate_consensus :
      PipelineModelRole → ModelGroupSpec → List SuccessfulCandidate → Outcome ConsensusEvaluation
  pub apply_adjudication :
      ConsensusEvaluation
      → ConsensusJudgeVerdict
      → List String
      → String
      → String
      → Outcome ConsensusEvaluation

-- `WorkerConsensusResultV2`
pub record ConsensusResult : Type 0 where
  pub consensus_id : String
  pub stage_role : PipelineModelRole
  pub decision : String
  pub candidate_ids : List String
  pub selected_candidate_id : Option String
  pub adjudicator_candidate_id : Option String
  pub reason_codes : List String
  pub successful_candidates : ℕ
  pub required_successful : ℕ
  pub agreement_score : String
  pub agreement_threshold : String
  pub downstream_allowed : Bool
  pub comparison_digest : String
  pub comparison_payload : List (String × String)

-- `WorkerStageGateV2`: a gate record with the texts of its capabilities.
pub record StageGate : Type 0 where
  pub phase : GatePhase
  pub decision : GateDecision
  pub reason_codes : List String
  pub available_capabilities : List String
  pub missing_capabilities : List String
  pub downstream_possible : Bool

-- `WorkerStageTraceV2`
pub record StageTrace : Type 0 where
  pub stage_role : StageRole
  pub contract_id : String
  pub sequence : ℕ
  pub status : StageStatus
  pub retryable : Bool
  pub preflight : StageGate
  pub postflight : Option StageGate
  pub attempts : List StageAttempt

-- The validators of the records that a stage and the session build; they belong to another package.
pub record SessionChecks : Type 0 where
  pub runs : RunChecks
  pub check_consensus : ConsensusResult → Outcome (Unit {0})
  pub check_trace : StageTrace → Outcome (Unit {0})
  pub check_output : WorkerOutput → Outcome (Unit {0})

-- The session's fixed parts: `registry`, `contracts` and the functions of other packages.
pub record Session (Cap : Type 0) : Type 0 where
  pub registry : PipelineModelRole → Option ModelGroupSpec
  pub contracts : PipelineModelRole → StageContract Cap
  pub contract_digest : String
  pub boot_ms : ℕ
  pub names : CapabilityNames Cap
  pub value : Cap → String
  pub consensus : Consensus
  pub json_digest : Payload → String
  pub validate_item_result : BatchItem → ItemResult → Bool
  pub checks : SessionChecks

-- The variables that the loop updates.
pub record Loop (Cap : Type 0) : Type 0 where
  pub results : Results
  pub runs : List ModelRun
  pub errors : List String
  pub gate_records : List (StageGateRecord Cap)
  pub stage_traces : List StageTrace
  pub candidate_runs : List CandidateRun
  pub consensus_results : List ConsensusResult

-- `_trace_gate`
unfoldable pub trace_gate : {Cap : Type 0} → (Cap → String) → StageGateRecord Cap → StageGate
trace_gate value g = record {
  phase = g.phase;
  decision = g.decision;
  reason_codes = g.reason_codes;
  available_capabilities = map value g.available_capabilities;
  missing_capabilities = map value g.missing_capabilities;
  downstream_possible = g.downstream_possible;
}

-- an optional text inside an f-string
abbrev pub shown : Option String → String
shown none = "None"
shown (some s) = s

-- `codes[0]` of a gate record; the gate engine gives at least one code
abbrev pub first_code : List String → String
first_code [] = ""
first_code (c ∷ cs) = c

abbrev pub is_retryable : GateDecision → Bool
is_retryable GateDecision.failed_retryable = true
is_retryable _ = false

-- the decisions that make a run incomplete
abbrev pub is_alarming : GateDecision → Bool
is_alarming GateDecision.human_review = true
is_alarming GateDecision.failed_retryable = true
is_alarming GateDecision.failed_terminal = true
is_alarming _ = false

abbrev pub is_succeeded : StageStatus → Bool
is_succeeded succeeded = true
is_succeeded _ = false

abbrev pub is_failed : StageStatus → Bool
is_failed failed = true
is_failed _ = false

abbrev pub is_skipped : StageStatus → Bool
is_skipped skipped = true
is_skipped _ = false

abbrev pub is_proceed : GateDecision → Bool
is_proceed GateDecision.proceed = true
is_proceed _ = false

abbrev pub is_cascade : ConsensusStrategy → Bool
is_cascade ConsensusStrategy.cascade = true
is_cascade _ = false

abbrev pub skipped_run : PipelineModelRole → Option ModelSpec → Option String → ModelRun
skipped_run role spec error_code = record {
  model_role = role;
  model_id = elim spec [ none ↦ "unconfigured" | some m ↦ m.model_id ];
  revision = elim spec [ none ↦ "unconfigured" | some m ↦ m.revision ];
  status = skipped;
  load_ms = 0;
  inference_ms = 0;
  peak_vram_bytes = none;
  error_code = error_code;
}

-- `group.candidates[0].spec if group is not None else None`
unfoldable pub primary_spec : Option ModelGroupSpec → Outcome (Option ModelSpec)
primary_spec none = ok none
primary_spec (some g) = elim g.candidates [ [] ↦ raised other_error | c ∷ cs ↦ ok (some c.spec) ]

-- `None if decision == NOT_APPLICABLE else f"gate_{reason_codes[0]}"`
unfoldable pub preflight_error : {Cap : Type 0} → StageGateRecord Cap → Option String
preflight_error gate = elim gate.decision [
  | GateDecision.not_applicable ↦ none
  | _ ↦ some ("gate_" +++ first_code gate.reason_codes)
]

-- `checkpoint_not_configured` or `model_not_configured`
abbrev pub missing_model_code : PipelineModelRole → String
missing_model_code fire_detection = "checkpoint_not_configured"
missing_model_code _ = "model_not_configured"
