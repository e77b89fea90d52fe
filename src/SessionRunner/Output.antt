-- ===== src/SessionRunner/Output.antt =====
-- session_runner.py: the output of a session, a record of another package.
use fireviewer_orchestrator.Common.{ℕ, String, Bool, List}
use fireviewer_orchestrator.Contracts.{ItemResult}
use fireviewer_orchestrator.SessionRunner.Candidate.{ModelRun}

-- `Literal["succeeded", "partial_failure", "failed"]`
pub data OverallStatus : Type 0 where
  succeeded partial_failure failed : OverallStatus

pub record WorkerOutput : Type 0 where
  pub batch_id : String
  pub status : OverallStatus
  pub retryable : Bool
  pub model_runs : List ModelRun
  pub items : List ItemResult
  pub validation_errors : List String
  pub boot_ms : ℕ
