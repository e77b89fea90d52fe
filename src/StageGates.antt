-- ===== src/StageGates.antt =====
-- stage_gates.py: the capabilities that a batch offers, and the gates before and after a stage.
-- A frozenset of capabilities is a list seen through membership.
pub mod Engine
use fireviewer_orchestrator.Common.{
  ℕ, String, Bool, true, false, not, Option, none, some, List, [], ◌∷◌, ◌++◌, ◌≡◌, ◌&&◌, ◌||◌, any,
  if◌then◌else◌, is_some, nonempty, ltb,
}
use fireviewer_orchestrator.Common.Order.{Ord, ◌==◌, string_ord}
use fireviewer_orchestrator.Common.Sets.{contains, minus, intersection, ordered}
use fireviewer_orchestrator.Common.Dict.{values}
use fireviewer_orchestrator.Contracts.{
  truthy, text_or, CapabilityNames, StageRole, FailurePolicy, StageContract, ItemResult,
  WorkerInput,
}

pub data GatePhase : Type 0 where
  preflight postflight : GatePhase

pub data GateDecision : Type 0 where
  proceed not_applicable abstain human_review failed_retryable failed_terminal : GateDecision

-- `Literal["succeeded", "failed", "skipped"]`
pub data StageStatus : Type 0 where
  succeeded failed skipped : StageStatus

pub record StageGateRecord (Cap : Type 0) : Type 0 where
  pub role : StageRole
  pub phase : GatePhase
  pub decision : GateDecision
  pub reason_codes : List String
  pub available_capabilities : List Cap
  pub missing_capabilities : List Cap
  pub downstream_possible : Bool

abbrev pub is_human_review : FailurePolicy → Bool
is_human_review FailurePolicy.human_review = true
is_human_review _ = false

abbrev pub is_block : FailurePolicy → Bool
is_block FailurePolicy.block = true
is_block _ = false

-- `error_code == "model_runtime_error"`
abbrev pub is_runtime_error : Option String → Bool
is_runtime_error none = false
is_runtime_error (some code) = code == "model_runtime_error"

module _ {Cap : Type 0} where
  -- `if test: capabilities.add(c)`
  abbrev pub add_if : Bool → Cap → List Cap → List Cap
  add_if test c cs = if test then c ∷ cs else cs

  -- The tests of the loop body over one result.
  unfoldable pub result_capabilities : CapabilityNames Cap → ItemResult → List Cap → List Cap
  result_capabilities n r cs = add_if (nonempty r.segments) n.transcript (
      add_if (any (λ s. s.selected_for_grounding) r.visual_evidence_selection) n.selected_visual (
        add_if (any (λ p. p.task == "fire_detection") r.pixel_regions) n.detection_regions (
          add_if (any (λ p. contains p.task ("phrase_grounding" ∷ "ocr" ∷ [])) r.pixel_regions)
            n.grounded_regions
            (add_if (nonempty r.factual_observations) n.factual_observations cs))))

  unfoldable pub results_capabilities : CapabilityNames Cap → List ItemResult → List Cap → List Cap
  unfolding result_capabilities
  results_capabilities n [] cs = cs
  results_capabilities n (r ∷ rs) cs = results_capabilities n rs (result_capabilities n r cs)

  -- `results` is given by its values, in order.
  unfoldable pub derive_capabilities :
      CapabilityNames Cap → WorkerInput → List ItemResult → List Cap
  unfolding results_capabilities
  derive_capabilities n batch results = results_capabilities n results (
      add_if (any (λ i. is_some i.audio_url) batch.items) n.audio_input (
        add_if (any (λ i. is_some i.working_file_url || nonempty i.frame_ids) batch.items)
          n.visual_input (add_if (any (λ i. truthy i.article_text) batch.items) n.text_input [])))

module _ {Cap : Type 0} ⦃o : Ord Cap⦄ where
  unfoldable pub missing_requirements : StageContract Cap → List Cap → List Cap
  missing_requirements contract capabilities =
      let missing = minus contract.required_all capabilities in
      ordered (
        if nonempty contract.required_any
          && not (nonempty (intersection capabilities contract.required_any))
        then missing ++ contract.required_any
        else missing)

  -- The dictionary of direct inputs, read at a role.
  abbrev pub direct_input : CapabilityNames Cap → StageRole → Option Cap
  direct_input n StageRole.asr = some n.audio_input
  direct_input n StageRole.fire_detection = some n.visual_input
  direct_input n StageRole.visual_grounding = some n.visual_input
  direct_input n StageRole.fire_pointing = some n.visual_input
  direct_input n (StageRole.other s) = none

  unfoldable pub is_not_applicable : CapabilityNames Cap → StageRole → List Cap → Bool
  is_not_applicable n role capabilities = elim (direct_input n role) [
    | none ↦ false
    | some c ↦ not (contains c capabilities)
  ]
