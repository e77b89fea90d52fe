-- ===== src/Handler.antt =====
-- handler.py: one job, from its input to its response, under the lock on the GPU session. What other
-- packages do, and the parts of `event_pipeline`, `lab_probe` and `security` that a job calls, are the
-- fields of `Services`.
pub mod Event
pub mod Research
pub mod Batch
pub mod Job
use fireviewer_orchestrator.Common.{
  ℕ, String, ◌+++◌, Bool, true, false, Option, none, some, List, [], ◌∷◌, if◌then◌else◌,
}
use fireviewer_orchestrator.Common.Order.{Ord, ◌==◌, string_ord}
use fireviewer_orchestrator.Contracts.{
  WorkerInput, ItemResult, ModelSpec, ModelGroupSpec, StageRole,
}
use fireviewer_orchestrator.EventPipeline.{PerceptionFailure}
use fireviewer_orchestrator.SessionRunner.Effects.{Fault, State, Runtime}
use fireviewer_orchestrator.SessionRunner.Patches.{PipelineModelRole}
use fireviewer_orchestrator.SessionRunner.Stage.{Session}
use fireviewer_orchestrator.SessionRunner.Run.{WorkerOutput, SessionRunResult}
use fireviewer_orchestrator.V2Runner.{
  Externals, Json, text, Members, WorkerInputV2, LegacyResult, SourceAnnotationV2,
}
use fireviewer_orchestrator.V2Runner.Spatial.{get_member}
use fireviewer_orchestrator.V2Runner.Legacy.{LegacyInput}
use fireviewer_orchestrator.V2Runner.Compose.{WorkerOutputV2, Stages, Checks}
use fireviewer_orchestrator.V2Runner.Compose.Items.{
  LegacyOutput, FirePointingExecution, BurnedAreaExecution, SpatialExecution,
}

-- The exceptions that the code tells apart, with their texts. A validation error has the place and
-- the type of each of its errors; the last kind has the name of its class.
pub data Exception : Type 0 where
  configuration_error output_validation_error registry_error : String → Exception
  validation_error : List (String × String) → String → Exception
  research_service_error : String → String → Exception
  other_exception : String → String → Exception

-- `f"{type(exc).__name__}:{exc}"`
abbrev pub describe : Exception → String
describe (configuration_error message) = "ConfigurationError:" +++ message
describe (output_validation_error message) = "OutputValidationError:" +++ message
describe (registry_error message) = "RegistryError:" +++ message
describe (validation_error errors message) = "ValidationError:" +++ message
describe (research_service_error code detail) = "ResearchServiceError:" +++ detail
describe (other_exception name message) = name +++ ":" +++ message

-- How a call ends; `waiting` is a call that waits for a lock.
pub data Answer (A : Type 0) : Type 0 where
  returned : A → Answer A
  threw : Exception → Answer A
  waiting : Answer A

-- `_GPU_SESSION_LOCK` and the runtime.
pub record Worker (W : Type 0) : Type 0 where
  pub lock : Bool
  pub gpu : State W

abbrev pub Action : Type 0 → Type 0 → Type 0
Action W A = Worker W → Answer A × Worker W

-- One call after another, for calls that touch no state and for actions.
abbrev pub on_answer : {A B : Type 0} → (A → Answer B) → Answer A → Answer B
on_answer f (returned a) = f a
on_answer f (threw e) = threw e
on_answer f waiting = waiting

abbrev pub after : {W A B : Type 0} → (A → Action W B) → Answer A → Action W B
after f (returned a) w = f a w
after f (threw e) w = (threw e, w)
after f waiting w = (waiting, w)

infixl 10 ◌>>=◌ ◌>>◌
abbrev pub ◌>>=◌ : {A B : Type 0} → Answer A → (A → Answer B) → Answer B
m >>= f = on_answer f m

abbrev pub ◌>>◌ : {A B : Type 0} → Answer A → Answer B → Answer B
m >> n = on_answer (λ _. n) m

-- `try: body finally: _GPU_SESSION_LOCK.release()`, once the lock is acquired.
unfoldable pub holding : {W A : Type 0} → Action W A → Action W A
holding body w =
    let end = body (record w { lock = true }) in (end.0, record { lock = false; gpu = end.1.gpu })

-- `if not _GPU_SESSION_LOCK.acquire(blocking=False): busy else: …`
unfoldable pub try_gpu : {W A : Type 0} → Action W A → Action W A → Action W A
unfolding holding
try_gpu busy body w = if w.lock then busy w else holding body w

-- `with _GPU_SESSION_LOCK:`
unfoldable pub with_gpu : {W A : Type 0} → Action W A → Action W A
unfolding holding
with_gpu body w = if w.lock then (waiting, w) else holding body w

pub record EventAnchor : Type 0 where
  pub anchor_id : String
  pub evidence_asset_id : String
  pub handed_on : String

pub record EventEvidence : Type 0 where
  pub anchor_id : String
  pub handed_on : String

-- `EventPipelineInput`: the assets of the bundle with their working addresses, the anchors and the
-- evidence.
pub record EventRequest : Type 0 where
  pub assets : List (String × Option String)
  pub perception_anchors : List EventAnchor
  pub spatial_evidence : List EventEvidence
  pub handed_on : String

-- A failed research, before its validators.
pub record FailedResearch : Type 0 where
  pub research_id : String
  pub retryable : Bool
  pub model_id : String
  pub revision : String
  pub error_code : String
  pub validation_errors : List String

-- What a job calls. An action on the runtime takes and gives its state.
pub record Services (x : Externals) (W Cap : Type 0) : Type 1 where
  -- the process's environment
  pub allowed_media_hosts : Answer (List String)
  pub lab_probes_enabled : Bool
  pub event_pipeline_enabled : Bool
  pub boot_ready_ms : ℕ
  -- validators
  pub validate_event : Members x.Real → Answer EventRequest
  pub revalidate_event : EventRequest → Answer EventRequest
  pub Research : Type 0
  pub validate_research : Members x.Real → Answer Research
  pub validate_v2 : Members x.Real → Answer (WorkerInputV2 x)
  pub validate_v2_internal_urls : WorkerInputV2 x → List String → Answer (Unit {0})
  pub validate_legacy : LegacyInput x → Answer WorkerInput
  pub validate_v1 : Members x.Real → Answer WorkerInput
  pub validate_internal_urls : WorkerInput → List String → Answer (Unit {0})
  -- probes, research and events
  pub run_probe : Members x.Real → State W → Answer String × State W
  -- `build_registry()["source_research"]`, and the validators of `ResearchOutputV1`
  pub source_research : Answer ModelSpec
  pub validate_research_output : FailedResearch → Answer (Unit {0})
  pub run_isolated_research : Research → State W → Answer String × State W
  pub validate_event_working_urls : EventRequest → List String → List PerceptionFailure
  pub event_requires_image_inference : EventRequest → List PerceptionFailure → Bool
  pub run_event_image_perception :
      EventRequest
      → Bool
      → List PerceptionFailure
      → Option String
      → State W
      → Answer (EventRequest × List PerceptionFailure) × State W
  pub run_event_pipeline : EventRequest → List PerceptionFailure → Answer String
  -- the arguments `event_perception_adapter` and `factory`, where given, and whether a runtime
  -- factory has an adapter for perception
  pub perception_adapter_given : Bool
  pub factory_given : Bool
  pub runtime_perception_adapter : Bool
  -- sessions
  pub registry : Answer (PipelineModelRole → Option ModelGroupSpec)
  pub session : (PipelineModelRole → Option ModelGroupSpec) → Session Cap
  pub contracts_digest : String
  pub runtime : Runtime W
  pub enter_scope : State W → State W
  pub leave_scope : State W → State W
  pub exception_of : Fault → Exception
  pub read_item : ItemResult → LegacyResult x
  pub run_fire_pointing_stage :
      WorkerInputV2 x
      → SessionRunResult Cap
      → ℕ
      → State W
      → Answer (FirePointingExecution x) × State W
  pub run_burned_area_stage :
      WorkerInputV2 x → ℕ → State W → Answer (BurnedAreaExecution x) × State W
  pub spatial_pipeline : Option (
      WorkerInputV2 x
      → List (String × List (SourceAnnotationV2 x))
      → ℕ
      → Option (SpatialExecution x))
  pub checks : Checks x
  -- the exception of a composition that fails
  pub composition_exception : WorkerInputV2 x → LegacyOutput x → Stages x → Exception
  pub contract_of : StageRole → String
  pub orchestration_ms : String → ℕ

-- A failed batch, as the literals of the code build it.
pub record FailedBatch (R : Type 0) : Type 0 where
  pub schema_version : String
  pub batch_id : String
  pub retryable : Bool
  pub validation_errors : List String
  pub boot_ms : ℕ
  pub analysis_id : Option (Json R)
  pub orchestration_contract_digest : Option String

pub record FailedEvent : Type 0 where
  pub candidate_id : String
  pub reason_codes : List String

-- What `handle_job` returns.
pub data Response (x : Externals) : Type 0 where
  failed_batch : FailedBatch x.Real → Response x
  failed_event : FailedEvent → Response x
  failed_research : FailedResearch → Response x
  probe_result event_result research_result : String → Response x
  worker_output : WorkerOutput → Response x
  worker_output_v2 : WorkerOutputV2 x → Response x

abbrev pub text_or_invalid : {R : Type 0} → Option (Json R) → String
text_or_invalid (some (text t)) = t
text_or_invalid _ = "INVALID"

-- `raw_input.get(key, "INVALID")`, or that text where it is not a text.
abbrev pub text_member : {R : Type 0} → String → Members R → String
text_member key raw = text_or_invalid (get_member key raw)

-- A call on the runtime as an action.
abbrev pub on_gpu : {W A : Type 0} → (State W → Answer A × State W) → Action W A
on_gpu f w = let end = f w.gpu in (end.0, record w { gpu = end.1 })
