-- ===== src/Tests/Gates.antt =====
-- stage_gates.py and evidence_merge.py at concrete inputs. Capabilities are numbers here.
use fireviewer_orchestrator.Common.{
  ℕ, String, true, false, Option, none, some, [], ◌∷◌, ◌≡◌, ◌↔◌, ◌⊎◌, ◌≤◌, ◌<◌, refl, arith, All,
  ◌&&◌,
}
use fireviewer_orchestrator.Common.Order.{nat_ord, string_ord, str_le}
use fireviewer_orchestrator.Common.Sets.{contains, IsSorted, ordered, insert}
use fireviewer_orchestrator.Common.Dict.{lookup, put}
use fireviewer_orchestrator.Contracts.{CapabilityNames, StageContract, StageRole, FailurePolicy}
use fireviewer_orchestrator.StageGates.{
  GateDecision, succeeded, failed, skipped, is_block, is_not_applicable,
}
use fireviewer_orchestrator.StageGates.Engine.{preflight, postflight}
use fireviewer_orchestrator.StageGates.Engine.Preflight.{
  Satisfied, Lacks, preflight-proceed_iff, preflight-terminal_iff, preflight-missing, preflight-ext,
}
use fireviewer_orchestrator.StageGates.Engine.Postflight.{
  IsNewOutput, is_one_reason, postflight-proceed_iff, postflight-retryable_iff, gate-reason_codes,
}
use fireviewer_orchestrator.EvidenceMerge.{
  source, Items, merged, merge_records, merge_collections, merge_collection, pick_items,
}
use fireviewer_orchestrator.EvidenceMerge.Laws.{Kept, merge_records-Kept}

abbrev capability_names : CapabilityNames ℕ
capability_names = record {
  audio_input = 0;
  visual_input = 1;
  text_input = 2;
  transcript = 3;
  selected_visual = 4;
  detection_regions = 5;
  grounded_regions = 6;
  factual_observations = 7;
}

abbrev asr_contract : StageContract ℕ
asr_contract = record {
  contract_id = "asr-v1";
  role = StageRole.asr;
  model_binding = "asr";
  required_all = 0 ∷ [];
  required_any = [];
  minimum_output_any = 3 ∷ [];
  max_input_items = 4;
  max_output_items_per_input = 10;
  max_wall_time_seconds = 60;
  max_repair_attempts = 1;
  skip_when_not_applicable = true;
  failure_policy = FailurePolicy.human_review;
}

preflight-proceed_iff_example :
    ((preflight capability_names asr_contract (0 ∷ []) 1).decision ≡ GateDecision.proceed)
    ↔ ((1 ≤ 4) × Satisfied asr_contract (0 ∷ []))
preflight-proceed_iff_example = preflight-proceed_iff capability_names asr_contract (0 ∷ []) 1

preflight-terminal_iff_example :
    let gate = preflight capability_names asr_contract (1 ∷ []) 9 in
    ((gate.downstream_possible ≡ false) ↔ (gate.decision ≡ GateDecision.failed_terminal))
    × ((gate.decision ≡ GateDecision.failed_terminal) ↔ (
        (4 < 9)
        ⊎ ((¬ Satisfied asr_contract (1 ∷ []))
            × (is_block asr_contract.failure_policy ≡ true)
            × ((asr_contract.skip_when_not_applicable
                  && is_not_applicable capability_names asr_contract.role (1 ∷ []))
                ≡ false))))
preflight-terminal_iff_example = preflight-terminal_iff capability_names asr_contract (1 ∷ []) 9

preflight-missing_example :
    let gate = preflight capability_names asr_contract (1 ∷ []) 1 in
    ((c : ℕ) → (contains c gate.missing_capabilities ≡ true) ↔ Lacks asr_contract (1 ∷ []) c)
    × IsSorted gate.missing_capabilities
preflight-missing_example = preflight-missing capability_names asr_contract (1 ∷ []) 1 (omega arith)

repeated-contains : (c : ℕ) → contains c (0 ∷ 1 ∷ []) ≡ contains c (1 ∷ 0 ∷ 1 ∷ [])
repeated-contains c = ground arith

preflight-ext_example :
    preflight capability_names asr_contract (0 ∷ 1 ∷ []) 1
    ≡ preflight capability_names asr_contract (1 ∷ 0 ∷ 1 ∷ []) 1
preflight-ext_example =
    preflight-ext capability_names asr_contract (0 ∷ 1 ∷ []) (1 ∷ 0 ∷ 1 ∷ []) 1 repeated-contains

postflight-proceed_iff_example :
    ((postflight asr_contract (0 ∷ []) (0 ∷ 3 ∷ []) succeeded none 5 2).decision
      ≡ GateDecision.proceed)
    ↔ ((succeeded ≡ succeeded)
        × (5 ≤ 60)
        × (2 ≤ 10)
        × ((c : ℕ) × IsNewOutput asr_contract (0 ∷ []) (0 ∷ 3 ∷ []) c))
postflight-proceed_iff_example =
    postflight-proceed_iff asr_contract (0 ∷ []) (0 ∷ 3 ∷ []) succeeded none 5 2

abbrev runtime_code : Option String
runtime_code = some "model_runtime_error"

postflight-retryable_iff_example :
    let gate = postflight asr_contract (0 ∷ []) (0 ∷ []) failed runtime_code 5 0 in
    ((gate.decision ≡ GateDecision.failed_retryable) ↔ (
      ((failed ≡ failed) × (runtime_code ≡ some "model_runtime_error"))
      ⊎ ((failed ≡ succeeded) × (60 < 5))))
    × (failed ≡ skipped → gate.downstream_possible ≡ true)
postflight-retryable_iff_example =
    postflight-retryable_iff asr_contract (0 ∷ []) (0 ∷ []) failed runtime_code 5 0

gate-reason_codes_example :
    (is_one_reason (preflight capability_names asr_contract (0 ∷ []) 1).reason_codes ≡ true)
    × (is_one_reason (postflight asr_contract (0 ∷ []) (0 ∷ []) failed (some "") 5 0).reason_codes
        ≡ true)
gate-reason_codes_example =
    gate-reason_codes capability_names asr_contract (0 ∷ []) (0 ∷ []) failed (some "") 1 5 0

-- Items that are their own identifiers.
abbrev text_items : Items String
text_items = record {
  same = string_ord.eqb;
  same_iff = string_ord.eqb_iff;
  identifier = λ label s. s;
}

two_records-merged :
    merge_records text_items source (("b" ∷ []) ∷ ("a" ∷ "b" ∷ []) ∷ []) ≡ merged ("a" ∷ "b" ∷ [])
unfolding merge_records merge_collections merge_collection pick_items lookup put ordered insert
    str_le
two_records-merged = refl

merge_records-Kept_example :
    All (All (Kept text_items source ("a" ∷ "b" ∷ []))) (("b" ∷ []) ∷ ("a" ∷ "b" ∷ []) ∷ [])
merge_records-Kept_example =
    merge_records-Kept text_items source (("b" ∷ []) ∷ ("a" ∷ "b" ∷ []) ∷ []) ("a" ∷ "b" ∷ [])
      two_records-merged
