-- ===== src/StageGates/Engine.antt =====
-- stage_gates.py, `StageGateEngine`: the gate before a stage and the gate after it. The source's
-- early returns are the branches, in order.
pub mod Preflight
pub mod Postflight
use fireviewer_orchestrator.Common.{
  ℕ, String, Bool, true, false, not, Option, none, some, List, [], ◌∷◌, ◌++◌, ◌≡◌, ◌&&◌,
  if◌then◌else◌, nonempty, ltb,
}
use fireviewer_orchestrator.Common.Order.{Ord}
use fireviewer_orchestrator.Common.Sets.{contains, minus, intersection, ordered}
use fireviewer_orchestrator.Contracts.{truthy, text_or, CapabilityNames, StageContract}
use fireviewer_orchestrator.StageGates.{
  GatePhase, GateDecision, StageStatus, StageGateRecord, is_human_review, is_block,
  is_runtime_error, missing_requirements, is_not_applicable,
}

module _ {Cap : Type 0} ⦃o : Ord Cap⦄ where
  unfoldable pub preflight :
      CapabilityNames Cap → StageContract Cap → List Cap → ℕ → StageGateRecord Cap
  preflight n contract capabilities input_items =
      let missing = missing_requirements contract capabilities in
      if ltb contract.max_input_items input_items
      then record {
        role = contract.role;
        phase = GatePhase.preflight;
        decision = GateDecision.failed_terminal;
        reason_codes = "stage_input_limit_exceeded" ∷ [];
        available_capabilities = ordered capabilities;
        missing_capabilities = [];
        downstream_possible = false;
      }
      else if not (nonempty missing)
      then record {
        role = contract.role;
        phase = GatePhase.preflight;
        decision = GateDecision.proceed;
        reason_codes = "requirements_satisfied" ∷ [];
        available_capabilities = ordered capabilities;
        missing_capabilities = [];
        downstream_possible = true;
      }
      else if contract.skip_when_not_applicable && is_not_applicable n contract.role capabilities
      then record {
        role = contract.role;
        phase = GatePhase.preflight;
        decision = GateDecision.not_applicable;
        reason_codes = "no_applicable_input" ∷ [];
        available_capabilities = ordered capabilities;
        missing_capabilities = missing;
        downstream_possible = true;
      }
      else record {
        role = contract.role;
        phase = GatePhase.preflight;
        decision =
            if is_human_review contract.failure_policy
            then GateDecision.human_review
            else if is_block contract.failure_policy
            then GateDecision.failed_terminal
            else GateDecision.abstain;
        reason_codes = "required_capability_missing" ∷ [];
        available_capabilities = ordered capabilities;
        missing_capabilities = missing;
        downstream_possible = not (is_block contract.failure_policy);
      }

  -- The branches of `postflight` after a stage that succeeded.
  unfoldable pub postflight_succeeded :
      StageContract Cap → List Cap → List Cap → ℕ → ℕ → StageGateRecord Cap
  postflight_succeeded contract before after elapsed_seconds maximum_output_items =
      let produced = intersection (minus after before) contract.minimum_output_any in
      if ltb contract.max_wall_time_seconds elapsed_seconds
      then record {
        role = contract.role;
        phase = GatePhase.postflight;
        decision = GateDecision.failed_retryable;
        reason_codes = "stage_wall_time_exceeded" ∷ [];
        available_capabilities = ordered after;
        missing_capabilities = [];
        downstream_possible = false;
      }
      else if ltb contract.max_output_items_per_input maximum_output_items
      then record {
        role = contract.role;
        phase = GatePhase.postflight;
        decision = GateDecision.failed_terminal;
        reason_codes = "stage_output_limit_exceeded" ∷ [];
        available_capabilities = ordered after;
        missing_capabilities = [];
        downstream_possible = false;
      }
      else if nonempty produced
      then record {
        role = contract.role;
        phase = GatePhase.postflight;
        decision = GateDecision.proceed;
        reason_codes = "minimum_output_satisfied" ∷ [];
        available_capabilities = ordered after;
        missing_capabilities = [];
        downstream_possible = true;
      }
      else record {
        role = contract.role;
        phase = GatePhase.postflight;
        decision =
            if is_human_review contract.failure_policy
            then GateDecision.human_review
            else GateDecision.abstain;
        reason_codes = "minimum_output_missing" ∷ [];
        available_capabilities = ordered after;
        missing_capabilities = contract.minimum_output_any;
        downstream_possible = not (is_block contract.failure_policy);
      }

  unfoldable pub postflight :
      StageContract Cap
      → List Cap
      → List Cap
      → StageStatus
      → Option String
      → ℕ
      → ℕ
      → StageGateRecord Cap
  unfolding postflight_succeeded
  postflight contract before after StageStatus.failed error_code elapsed_seconds max_items =
      record {
        role = contract.role;
        phase = GatePhase.postflight;
        decision =
            if is_runtime_error error_code
            then GateDecision.failed_retryable
            else GateDecision.failed_terminal;
        reason_codes = text_or error_code "stage_failed" ∷ [];
        available_capabilities = ordered after;
        missing_capabilities = [];
        downstream_possible = not (is_block contract.failure_policy);
      }
  postflight contract before after StageStatus.skipped error_code elapsed_seconds max_items =
      record {
        role = contract.role;
        phase = GatePhase.postflight;
        decision = if truthy error_code then GateDecision.abstain else GateDecision.not_applicable;
        reason_codes = text_or error_code "stage_skipped" ∷ [];
        available_capabilities = ordered after;
        missing_capabilities = [];
        downstream_possible = true;
      }
  postflight contract before after StageStatus.succeeded error_code elapsed_seconds max_items =
      postflight_succeeded contract before after elapsed_seconds max_items
