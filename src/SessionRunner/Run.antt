-- ===== src/SessionRunner/Run.antt =====
-- session_runner.py, `run_with_trace`: the loop over the stages and the session's output.
pub mod Protocol
pub mod Yields
pub mod Executions
pub mod Shape
use fireviewer_orchestrator.Common.{
  ℕ, suc, ◌+◌, ◌-◌, String, Bool, true, false, not, Option, none, some, List, [], ◌∷◌, ◌++◌, ◌&&◌,
  ◌||◌, if◌then◌else◌, nat_eq, length, nonempty, any, count_if,
}
use fireviewer_orchestrator.Common.Order.{Ord, string_ord}
use fireviewer_orchestrator.Common.Dict.{values, lookup}
use fireviewer_orchestrator.Contracts.{
  truthy, BatchItem, ItemResult, WorkerInput, ModelSpec, ModelGroupSpec,
}
use fireviewer_orchestrator.StageGates.{StageStatus, StageGateRecord, derive_capabilities}
use fireviewer_orchestrator.StageGates.Engine.{preflight}
use fireviewer_orchestrator.SessionRunner.Effects.{
  Fault, other_error, Outcome, ok, raised, Effect, finalized, State, Exec, pure, raise, lift, ◌>>=◌,
  ◌>>◌, Runtime, read, call, note, attempt,
}
use fireviewer_orchestrator.SessionRunner.Patches.{Results, PipelineModelRole, role_order}
use fireviewer_orchestrator.SessionRunner.Initial.{initial_results}
use fireviewer_orchestrator.SessionRunner.Candidate.{ModelRun, CandidateRun, CandidateExecution}
pub use fireviewer_orchestrator.SessionRunner.Output.{OverallStatus, WorkerOutput}
use fireviewer_orchestrator.SessionRunner.Stage.{
  Session, Loop, StageTrace, ConsensusResult, Consensus, primary_spec, is_proceed, is_succeeded,
  is_failed, is_skipped, is_alarming, is_retryable,
}
use fireviewer_orchestrator.SessionRunner.Stage.Execute.{
  Judged, run_candidates, judge_stage, successful_candidates,
}
use fireviewer_orchestrator.SessionRunner.Stage.Settle.{
  skip_stage, unconfigured_stage, settle_stage,
}

pub record SessionRunResult (Cap : Type 0) : Type 0 where
  pub output : WorkerOutput
  pub gate_records : List (StageGateRecord Cap)
  pub stage_traces : List StageTrace
  pub candidate_runs : List CandidateRun
  pub consensus_results : List ConsensusResult
  pub contract_digest : String

-- `incomplete`
abbrev pub is_incomplete : {Cap : Type 0} → List ModelRun → List (StageGateRecord Cap) → Bool
is_incomplete runs gates =
    any (λ (r : ModelRun). is_skipped r.status && truthy r.error_code) runs
    || any (λ g. is_alarming g.decision) gates

unfoldable pub overall_status :
    {Cap : Type 0} → List ModelRun → List (StageGateRecord Cap) → OverallStatus
overall_status runs gates =
    let succeeded_runs = count_if (λ (r : ModelRun). is_succeeded r.status) runs in
    let failed_runs = count_if (λ (r : ModelRun). is_failed r.status) runs in
    if nat_eq failed_runs 0 && not (is_incomplete runs gates)
    then OverallStatus.succeeded
    else if not (nat_eq succeeded_runs 0) || is_incomplete runs gates
    then OverallStatus.partial_failure
    else OverallStatus.failed

-- `tuple(results[item.input_id] for item in batch.items)`
unfoldable pub items_of : List BatchItem → Results → Outcome (List ItemResult)
items_of [] results = ok []
items_of (item ∷ items) results = elim (lookup item.input_id results) [
  | none ↦ raised other_error
  | some r ↦ elim (items_of items results) [ raised f ↦ raised f | ok rs ↦ ok (r ∷ rs) ]
]

module _ {W Cap : Type 0} ⦃o : Ord Cap⦄ (rt : Runtime W) (session : Session Cap)
    (batch : WorkerInput) where
  -- The output, its validators and the result, once the items are collected.
  unfoldable pub finish_items :
      Loop Cap → Outcome (List ItemResult) → Outcome (SessionRunResult Cap)
  finish_items l (raised f) = raised f
  finish_items l (ok items) =
      let output : WorkerOutput = record {
        batch_id = batch.batch_id;
        status = overall_status l.runs l.gate_records;
        retryable = any (λ g. is_retryable g.decision) l.gate_records;
        model_runs = l.runs;
        items = items;
        validation_errors = l.errors;
        boot_ms = session.boot_ms;
      } in
      elim (session.checks.check_output output) [
        | raised f ↦ raised f
        | ok _ ↦ ok (record {
          output = output;
          gate_records = l.gate_records;
          stage_traces = l.stage_traces;
          candidate_runs = l.candidate_runs;
          consensus_results = l.consensus_results;
          contract_digest = session.contract_digest;
        })
      ]

  unfoldable pub finish : Loop Cap → Outcome (SessionRunResult Cap)
  unfolding finish_items
  finish l = finish_items l (items_of batch.items l.results)

  -- `executions[0]` is there: a group with no candidates raises before.
  unfoldable pub settle_executions :
      ℕ
      → PipelineModelRole
      → List Cap
      → StageGateRecord Cap
      → ModelGroupSpec
      → List CandidateExecution
      → Judged
      → ℕ
      → Loop Cap
      → Exec W (Loop Cap)
  settle_executions sequence role before gate group [] judged elapsed l = raise other_error
  settle_executions sequence role before gate group (e ∷ es) judged elapsed l =
      lift (settle_stage session role sequence batch before gate group e (e ∷ es) judged elapsed l)

  -- A stage with a model group and an open preflight.
  unfoldable pub execute_stage :
      ℕ
      → PipelineModelRole
      → List Cap
      → StageGateRecord Cap
      → ModelGroupSpec
      → Loop Cap
      → Exec W (Loop Cap)
  execute_stage sequence role before gate group l = do
    stage_started ← read rt.clock
    executions ←
        run_candidates rt session role group batch l.results
          (session.contracts role).max_repair_attempts true group.candidates
    evaluation ←
        lift (session.consensus.evaluate_consensus role group (successful_candidates executions))
    judged ← judge_stage rt session role group executions evaluation
    now ← read rt.clock
    settle_executions sequence role before gate group executions judged (now - stage_started) l

  -- The branches of the loop's body.
  unfoldable pub branch_stage :
      ℕ
      → PipelineModelRole
      → List Cap
      → StageGateRecord Cap
      → Option ModelGroupSpec
      → Option ModelSpec
      → Loop Cap
      → Exec W (Loop Cap)
  branch_stage sequence role before gate none spec l = lift (
      if is_proceed gate.decision
      then unconfigured_stage session role sequence before gate l
      else skip_stage session role sequence spec gate l)
  branch_stage sequence role before gate (some group) spec l =
      if is_proceed gate.decision
      then execute_stage sequence role before gate group l
      else lift (skip_stage session role sequence spec gate l)

  -- The body of the loop over `ROLE_ORDER`.
  unfoldable pub run_stage : ℕ → PipelineModelRole → Loop Cap → Exec W (Loop Cap)
  run_stage sequence role l = do
    let before = derive_capabilities session.names batch (values l.results)
    let gate = preflight session.names (session.contracts role) before (length batch.items)
    spec ← lift (primary_spec (session.registry role))
    branch_stage sequence role before gate (session.registry role) spec l

  unfoldable pub run_stages : ℕ → List PipelineModelRole → Loop Cap → Exec W (Loop Cap)
  run_stages sequence [] l = pure l
  run_stages sequence (role ∷ roles) l = do
    l' ← run_stage sequence role l
    run_stages (sequence + 1) roles l'

  -- The variables before the loop.
  abbrev pub start : Results → Loop Cap
  start results = record {
    results = results;
    runs = [];
    errors = [];
    gate_records = [];
    stage_traces = [];
    candidate_runs = [];
    consensus_results = [];
  }

  -- `_run_with_trace`
  unfoldable pub run_session : Exec W (SessionRunResult Cap)
  run_session = do
    results ← lift (initial_results batch.items [])
    l ← run_stages 1 role_order (start results)
    lift (finish l)

  -- `run_with_trace`: `finally` ends the job whatever happens; an exception of `finalize_job` leaves
  -- in place of the outcome.
  unfoldable pub run_with_trace : Exec W (SessionRunResult Cap)
  run_with_trace = do outcome ← attempt run_session; call rt.finalize; note finalized; lift outcome
