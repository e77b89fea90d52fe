-- ===== src/Tests/Session.antt =====
-- session_runner.py at concrete inputs: a runtime whose calls all succeed.
use fireviewer_orchestrator.Common.{
  ℕ, ◌+◌, String, Bool, true, false, none, some, List, [], ◌∷◌, ◌++◌, ◌≡◌, refl, All, arith, nat_eq,
  if◌then◌else◌,
}
use fireviewer_orchestrator.Common.Order.{nat_ord, string_ord}
use fireviewer_orchestrator.Common.Sets.{contains, ordered}
use fireviewer_orchestrator.Common.Dict.{keys, lookup, put}
use fireviewer_orchestrator.Contracts.{
  ItemResult, ItemPatch, BatchItem, WorkerInput, ModelCandidateSpec, StageRole, FailurePolicy,
  LocationStatus, ModelGroupSpec, ConsensusStrategy,
}
use fireviewer_orchestrator.SessionRunner.Effects.{
  Outcome, ok, Effect, finalized, scan, State, Runtime, Cleans, Payload,
}
use fireviewer_orchestrator.SessionRunner.Patches.{
  Results, Patches, asr, as_patch, merge, validated_candidates, apply_patches, validate_items,
  candidate_payload,
}
use fireviewer_orchestrator.SessionRunner.Patches.Laws.{
  AllValid, merge-last_wins, validated_candidates-ok, keys-candidate_payload,
}
use fireviewer_orchestrator.SessionRunner.Candidate.{RunChecks, execute_candidate}
use fireviewer_orchestrator.SessionRunner.Candidate.Lifecycle.{Finishes, execute_candidate-released}
use fireviewer_orchestrator.SessionRunner.Stage.{Session, ConsensusEvaluation}
use fireviewer_orchestrator.SessionRunner.Registry.{single, normalized, group_of, normalize}
use fireviewer_orchestrator.SessionRunner.Registry.Laws.{WellFormed, normalize-WellFormed}
use fireviewer_orchestrator.SessionRunner.Run.{SessionRunResult, run_session, run_with_trace}
use fireviewer_orchestrator.SessionRunner.Run.Shape.{IsComplete, run_with_trace-IsComplete}
use fireviewer_orchestrator.SessionRunner.Candidate.Laws.{WhenOk}
use fireviewer_orchestrator.SessionRunner.Run.Protocol.{run_with_trace-protocol}

abbrev empty_result : ItemResult
empty_result = record {
  input_id = "i1";
  segments = [];
  pixel_regions = [];
  visual_evidence_selection = [];
  factual_observations = [];
  explicit_places = [];
  explicit_times = [];
  location_status = LocationStatus.no_location;
  marker_origin = none;
  capture_location_available = false;
  capture_location_origin = none;
}

abbrev transcript_patch : ItemPatch
transcript_patch = record {
  transcript = some ("hello" ∷ []);
  pixel_regions = none;
  visual_evidence_selection = none;
  factual_observations = none;
  explicit_places = none;
  explicit_times = none;
}

abbrev pub batch : WorkerInput
batch = record {
  batch_id = "b1";
  items =
      record {
        input_id = "i1";
        audio_url = some "https://audio";
        working_file_url = none;
        frame_ids = [];
        article_text = none;
        latitude = none;
        location_origin = none;
      }
      ∷ [];
}

abbrev pub results : Results
results = ("i1", empty_result) ∷ []

abbrev patches : Patches
patches = ("i1", transcript_patch) ∷ []

abbrev accept : BatchItem → ItemResult → Bool
accept item result = true

abbrev patched : Results
patched = ("i1", merge empty_result transcript_patch) ∷ []

patches-validated : validated_candidates accept batch results patches ≡ ok patched
unfolding validated_candidates apply_patches validate_items lookup put
patches-validated = refl

validated_candidates-ok_example :
    (keys patched ≡ keys results)
    × All (λ k. contains k (keys results) ≡ true) (keys patches)
    × AllValid accept batch.items patched
validated_candidates-ok_example =
    validated_candidates-ok accept batch results patches patches-validated

keys-candidate_payload_example : keys (candidate_payload patches) ≡ ordered (keys patches)
keys-candidate_payload_example = keys-candidate_payload patches

-- A runtime in which `create` has the given outcome and nothing else fails.
abbrev pub runtime_of : Outcome (Unit {0}) → Runtime ℕ
runtime_of creation = record {
  create = λ c w. (creation, w);
  create_judge = λ c w. (creation, w);
  reset_peak = λ w. (ok tt, w);
  load = λ c w. (ok tt, w);
  synchronize = λ w. (ok tt, w);
  infer = λ c items patches correction w. (ok (("i1", transcript_patch) ∷ []), w);
  adjudicate = λ c cs p correction w. (ok (record { output_payload = "verdict" }), w);
  peak_vram = λ w. (ok (some 1), w);
  release = λ c w. (ok tt, w);
  finalize = λ w. (ok tt, w);
  clock = λ w. (w, w + 1);
}

abbrev pub idle : State ℕ
idle = record { world = 0; log = [] }

abbrev digest : Payload → String
digest p = "digest"

abbrev run_checks : RunChecks
run_checks = record { check_run = λ r. ok tt; check_candidate_run = λ r. ok tt }

abbrev cleans : Cleans (runtime_of (ok tt))
cleans = record { measures = λ w. (some 1, refl); releases = λ c w. refl; finalizes = λ w. refl }

abbrev candidate : ModelCandidateSpec
candidate = record {
  candidate_id = "asr.primary";
  spec = record { model_id = "m"; revision = "r" };
  rank = 1;
}

execute_candidate-released_example :
    Finishes (runtime_of (ok tt)) accept run_checks digest asr candidate batch results 1 [] (
      execute_candidate
        (runtime_of (ok tt))
        accept
        run_checks
        digest
        asr
        candidate
        batch
        results
        1
        idle)
execute_candidate-released_example =
    execute_candidate-released (runtime_of (ok tt)) accept run_checks digest asr candidate batch
      results 1 cleans idle refl

merge-last_wins_example :
    (merge (merge empty_result transcript_patch) (as_patch empty_result)
      ≡ merge empty_result (record {
        transcript = some [];
        pixel_regions = some [];
        visual_evidence_selection = some [];
        factual_observations = some [];
        explicit_places = some [];
        explicit_times = some [];
      }))
    × (merge empty_result (as_patch empty_result) ≡ empty_result)
unfolding as_patch
merge-last_wins_example = merge-last_wins empty_result transcript_patch (as_patch empty_result)

abbrev group : ModelGroupSpec
group = record {
  role = "asr";
  candidates = candidate ∷ [];
  strategy = ConsensusStrategy.cascade;
  minimum_successful = 1;
  minimum_agreeing = 1;
  always_challenge = false;
  adjudicator = none;
  adjudication_confidence_threshold = "0.5";
  disagreement_decision = "abstained";
  agreement_threshold = "0.5";
}

abbrev accepted : ConsensusEvaluation
accepted = record {
  decision = "accepted";
  selected_candidate_id = some "asr.primary";
  agreement_score = "1.0";
  reason_codes = "single_candidate" ∷ [];
  downstream_allowed = true;
  requires_adjudication = false;
  comparison_payload = [];
}

abbrev pub session : Session ℕ
session = record {
  registry = λ role. some group;
  contracts = λ role. record {
    contract_id = "v1";
    role = StageRole.asr;
    model_binding = "asr";
    required_all = 0 ∷ [];
    required_any = [];
    minimum_output_any = 3 ∷ [];
    max_input_items = 4;
    max_output_items_per_input = 10;
    max_wall_time_seconds = 60;
    max_repair_attempts = 1;
    skip_when_not_applicable = true;
    failure_policy = FailurePolicy.human_review;
  };
  contract_digest = "contracts";
  boot_ms = 0;
  names = record {
    audio_input = 0;
    visual_input = 1;
    text_input = 2;
    transcript = 3;
    selected_visual = 4;
    detection_regions = 5;
    grounded_regions = 6;
    factual_observations = 7;
  };
  value = λ c. if nat_eq c 0 then "audio_input" else "transcript";
  consensus = record {
    candidate_requires_challenge = λ role r. ok false;
    evaluate_consensus = λ role g cs. ok accepted;
    apply_adjudication = λ e v ids t d. ok e;
  };
  json_digest = digest;
  validate_item_result = accept;
  checks = record {
    runs = run_checks;
    check_consensus = λ r. ok tt;
    check_trace = λ t. ok tt;
    check_output = λ out. ok tt;
  };
}

run_with_trace-protocol_example :
    (during : List Effect) × ((run_with_trace (runtime_of (ok tt)) session batch idle).1.log
      ≡ during ++ finalized ∷ [])
    × (scan none during ≡ some none)
    × (scan none ((run_with_trace (runtime_of (ok tt)) session batch idle).1.log) ≡ some none)
    × ((run_with_trace (runtime_of (ok tt)) session batch idle).0
        ≡ (run_session (runtime_of (ok tt)) session batch idle).0)
run_with_trace-protocol_example =
    run_with_trace-protocol (runtime_of (ok tt)) session batch cleans idle refl

none-WellFormed : WellFormed (λ role spec. group) (λ g. true) []
unfolding lookup WellFormed
none-WellFormed k g h = absurd (ground arith)

group-normalized :
    normalize (λ role spec. group) (λ g. true) [] (("asr", single candidate.spec) ∷ [])
    ≡ normalized (("asr", group) ∷ [])
unfolding normalize group_of put
group-normalized = refl

normalize-WellFormed_example : WellFormed (λ role spec. group) (λ g. true) (("asr", group) ∷ [])
normalize-WellFormed_example =
    normalize-WellFormed (λ role spec. group) (λ g. true) [] (("asr", single candidate.spec) ∷ [])
      (("asr", group) ∷ []) none-WellFormed group-normalized

run_with_trace-IsComplete_example :
    WhenOk
      (IsComplete (runtime_of (ok tt)) session batch)
      (run_with_trace (runtime_of (ok tt)) session batch idle).0
run_with_trace-IsComplete_example =
    run_with_trace-IsComplete (runtime_of (ok tt)) session batch cleans idle

-- The session at this input runs to its end and returns.
session_returns :
    (execution : SessionRunResult ℕ) × ((run_with_trace (runtime_of (ok tt)) session batch idle).0
      ≡ ok execution)
unfolding fireviewer_orchestrator.SessionRunner.Stage.primary_spec
    fireviewer_orchestrator.SessionRunner.Initial.initial_result
    fireviewer_orchestrator.SessionRunner.Initial.initial_results
    fireviewer_orchestrator.SessionRunner.Candidate.execution_of
    fireviewer_orchestrator.SessionRunner.Candidate.infer_pass
    fireviewer_orchestrator.SessionRunner.Candidate.load_adapter
    fireviewer_orchestrator.SessionRunner.Candidate.after_first
    fireviewer_orchestrator.SessionRunner.Candidate.after_load
    fireviewer_orchestrator.SessionRunner.Candidate.try_candidate
    fireviewer_orchestrator.SessionRunner.Candidate.finish_candidate
    fireviewer_orchestrator.SessionRunner.Candidate.run_created
    fireviewer_orchestrator.SessionRunner.Candidate.execute_candidate
    fireviewer_orchestrator.SessionRunner.Run.items_of
    fireviewer_orchestrator.SessionRunner.Run.finish
    fireviewer_orchestrator.SessionRunner.Run.settle_executions
    fireviewer_orchestrator.SessionRunner.Run.execute_stage
    fireviewer_orchestrator.SessionRunner.Run.branch_stage
    fireviewer_orchestrator.SessionRunner.Run.run_stage
    fireviewer_orchestrator.SessionRunner.Run.run_stages
    fireviewer_orchestrator.SessionRunner.Run.run_session
    fireviewer_orchestrator.SessionRunner.Run.run_with_trace
    fireviewer_orchestrator.SessionRunner.Patches.merge
    fireviewer_orchestrator.SessionRunner.Patches.apply_patches
    fireviewer_orchestrator.SessionRunner.Patches.validate_items
    fireviewer_orchestrator.SessionRunner.Patches.validated_candidates
    fireviewer_orchestrator.SessionRunner.Stage.Settle.find_selected
    fireviewer_orchestrator.SessionRunner.Stage.Settle.select
    fireviewer_orchestrator.SessionRunner.Stage.Settle.settle_verdict
    fireviewer_orchestrator.SessionRunner.Stage.Settle.settle_stage
    fireviewer_orchestrator.SessionRunner.Stage.Execute.is_enough
    fireviewer_orchestrator.SessionRunner.Stage.Execute.run_candidates
    fireviewer_orchestrator.SessionRunner.Stage.Execute.judge_stage
    fireviewer_orchestrator.StageGates.derive_capabilities
    fireviewer_orchestrator.StageGates.missing_requirements
    fireviewer_orchestrator.StageGates.Engine.preflight fireviewer_orchestrator.Common.Sets.insert
    fireviewer_orchestrator.Common.Sets.ordered fireviewer_orchestrator.Common.Dict.lookup
    fireviewer_orchestrator.Common.Dict.put
session_returns = (_, refl)
