-- ===== src/Handler/Event.antt =====
-- handler.py: an event job: its working addresses, its perception under the lock, and the pipeline.
use fireviewer_orchestrator.Common.{
  String, ◌+++◌, Bool, true, false, not, Option, none, some, List, [], ◌∷◌, ◌&&◌, ◌||◌,
  if◌then◌else◌, map, keep, any, is_some, nonempty,
}
use fireviewer_orchestrator.Common.Order.{string_ord}
use fireviewer_orchestrator.Common.Sets.{contains}
use fireviewer_orchestrator.EventPipeline.{PerceptionFailure}
use fireviewer_orchestrator.SessionRunner.Effects.{State}
use fireviewer_orchestrator.V2Runner.{
  Externals, null, boolean, number, text, array, object, Members,
}
use fireviewer_orchestrator.V2Runner.Spatial.{get_member}
use fireviewer_orchestrator.Handler.{
  validation_error, configuration_error, other_exception, Answer, returned, threw, waiting, Action,
  after, ◌>>=◌, try_gpu, on_gpu, Services, EventRequest, EventAnchor, EventEvidence, Response,
  failed_event, event_result, text_or_invalid,
}

-- `_event_candidate_id`
unfoldable pub event_candidate_id : {R : Type 0} → Members R → String
event_candidate_id raw = elim (get_member "bundle" raw) [
  | none ↦ "INVALID"
  | some bundle ↦ elim bundle [
    | object members ↦ text_or_invalid (get_member "candidate_id" members)
    | null ↦ "INVALID"
    | boolean b ↦ "INVALID"
    | number r ↦ "INVALID"
    | text t ↦ "INVALID"
    | array js ↦ "INVALID"
  ]
]

-- `_event_validation_codes`
abbrev pub validation_code : String × String → String
validation_code (location, kind) = "event_input_invalid:" +++ location +++ ":" +++ kind

unfoldable pub event_validation_codes : List (String × String) → List String
event_validation_codes [] = "event_input_invalid" ∷ []
event_validation_codes (e ∷ es) = map validation_code (e ∷ es)

-- The failures where no host is allowed: one for each asset with a working address.
unfoldable pub unconfigured : List (String × Option String) → List PerceptionFailure
unconfigured [] = []
unconfigured ((id, none) ∷ assets) = unconfigured assets
unconfigured ((id, some url) ∷ assets) =
    record {
      evidence_asset_id = some id;
      reason_code = "media_url_allowlist_unconfigured";
      model_id = none;
      model_revision = none;
    }
    ∷ unconfigured assets

-- `event_has_working_urls`
abbrev pub event_has_working_urls : EventRequest → Bool
event_has_working_urls request = any (λ (a : String × Option String). is_some a.1) request.assets

-- `invalid_assets`
unfoldable pub invalid_assets : List PerceptionFailure → List String
invalid_assets [] = []
invalid_assets (f ∷ fs) = elim f.evidence_asset_id [
  | none ↦ invalid_assets fs
  | some id ↦ id ∷ invalid_assets fs
]

-- The request without the anchors of invalid assets, and without their evidence.
unfoldable pub restrict : List String → EventRequest → EventRequest
restrict invalid request =
    let safe_anchors =
      keep (λ (a : EventAnchor). not (contains a.evidence_asset_id invalid))
        request.perception_anchors in
    let safe_anchor_ids = map (λ (a : EventAnchor). a.anchor_id) safe_anchors in
    record request {
      perception_anchors = safe_anchors;
      spatial_evidence =
          keep (λ (e : EventEvidence). contains e.anchor_id safe_anchor_ids)
            request.spatial_evidence;
    }

-- A request with the failures of its addresses, and whether the settings were read.
pub record Checked : Type 0 where
  pub request : EventRequest
  pub url_failures : List PerceptionFailure
  pub has_settings : Bool

module _ (x : Externals) {W Cap : Type 0} (services : Services x W Cap) (raw : Members x.Real) where
  -- The settings and the failures of the addresses, by how reading the settings ended.
  unfoldable pub checked_urls : EventRequest → Answer (List String) → Answer Checked
  checked_urls request (returned hosts) = returned (record {
    request = request;
    url_failures = services.validate_event_working_urls request hosts;
    has_settings = true;
  })
  checked_urls request (threw (configuration_error message)) = returned (record {
    request = request;
    url_failures = unconfigured request.assets;
    has_settings = false;
  })
  checked_urls request (threw e) = threw e
  checked_urls request waiting = waiting

  unfoldable pub check_urls : EventRequest → Answer Checked
  unfolding checked_urls
  check_urls request =
      if event_has_working_urls request
      then checked_urls request services.allowed_media_hosts
      else returned (record { request = request; url_failures = []; has_settings = false })

  unfoldable pub restricted : Checked → Answer Checked
  restricted c =
      let invalid = invalid_assets c.url_failures in
      if nonempty invalid
      then (services.revalidate_event (restrict invalid c.request) >>= λ request.
          returned (record c { request = request }))
      else returned c

  -- The statements before perception.
  unfoldable pub check_event : Answer Checked
  check_event = do
    request ← services.validate_event raw
    checked ← check_urls request
    restricted checked

  abbrev pub requires_inference : Checked → Bool
  requires_inference c = services.event_requires_image_inference c.request c.url_failures

  -- `adapter_factory is not None`
  abbrev pub has_factory : Checked → Bool
  has_factory c = services.factory_given || (requires_inference c && c.has_settings)

  -- `adapter is not None`
  abbrev pub has_adapter : Checked → Bool
  has_adapter c =
      services.perception_adapter_given || (has_factory c && services.runtime_perception_adapter)

  abbrev pub Perceived : Type 0
  Perceived = EventRequest × List PerceptionFailure

  -- Perception under the lock, in the job's scope; without a factory the assertion fails.
  unfoldable pub perceive_on_gpu : Checked → State W → Answer Perceived × State W
  perceive_on_gpu c g =
      if has_factory c
      then (let end =
            services.run_event_image_perception c.request true c.url_failures none
              (services.enter_scope g) in
          (end.0, services.leave_scope end.1))
      else (threw (other_exception "AssertionError" ""), g)

  unfoldable pub perceive : Checked → Action W Perceived
  perceive c =
      if requires_inference c && has_adapter c
      then try_gpu
          (on_gpu (
            services.run_event_image_perception c.request false c.url_failures
              (some "gpu_session_already_active")))
          (on_gpu (perceive_on_gpu c))
      else on_gpu
          (services.run_event_image_perception c.request (has_adapter c) c.url_failures none)

  unfoldable pub propose : Perceived → Action W (Response x)
  propose (enriched, failures) w = (
    services.run_event_pipeline enriched failures >>= λ result. returned (event_result result),
    w,
  )

  -- The body of the `try`.
  unfoldable pub event_body : Action W (Response x)
  event_body w =
      let perceived = after perceive check_event w in after propose perceived.0 perceived.1

  -- The `except` clause; other exceptions leave the handler.
  unfoldable pub end_event : Answer (Response x) → Answer (Response x)
  end_event (threw (validation_error errors message)) = returned (
      failed_event (record {
        candidate_id = event_candidate_id raw;
        reason_codes = event_validation_codes errors;
      }))
  end_event answer = answer

  -- The branch of `handle_job` for `event-2.0`.
  unfoldable pub event_job : Action W (Response x)
  event_job =
      if services.event_pipeline_enabled
      then (λ w. let end = event_body w in (end_event end.0, end.1))
      else λ w. (
        returned (
            failed_event (record {
              candidate_id = event_candidate_id raw;
              reason_codes = "event_pipeline_disabled" ∷ [];
            })),
        w,
      )
