-- ===== src/Tests/Jobs.antt =====
-- handler.py at concrete inputs: a version 2 batch whose session has one item, and a research service
-- that raises.
use fireviewer_orchestrator.Common.{ℕ, true, false, none, some, [], ◌∷◌, ◌≡◌, refl}
use fireviewer_orchestrator.Common.Order.{nat_ord, string_ord}
use fireviewer_orchestrator.SessionRunner.Effects.{ok}
use fireviewer_orchestrator.SessionRunner.Stage.{StageTrace}
use fireviewer_orchestrator.V2Runner.{text, object, Members, no_members, member}
use fireviewer_orchestrator.V2Runner.Compose.{orchestration_trace}
use fireviewer_orchestrator.V2Runner.Compose.Items.{FirePointingExecution, BurnedAreaExecution}
use fireviewer_orchestrator.Handler.{
  validation_error, other_exception, returned, threw, Worker, Services,
}
use fireviewer_orchestrator.Handler.Research.{research_job}
use fireviewer_orchestrator.Handler.Batch.{prepare, batch_job, end_batch}
use fireviewer_orchestrator.Handler.Job.{handle_job}
use fireviewer_orchestrator.Handler.Job.Lock.{Guarded, IsIdle, handle_job-Guarded}
use fireviewer_orchestrator.Handler.Job.Errors.{
  Responds, is_caught, research_job-Responds, batch_job-threw, Reports,
}
use fireviewer_orchestrator.Tests.Session.{runtime_of, session, idle, batch as session_batch}
use fireviewer_orchestrator.Tests.V2.{externals, checks, batch, contract_of, no_time}

abbrev trace : StageTrace
trace = orchestration_trace contract_of 0 "stage" 5 [] []

abbrev pointing : FirePointingExecution externals
pointing = record { annotations_by_input = []; stage_trace = trace; model_run = none }

abbrev burned : BurnedAreaExecution externals
burned = record {
  annotations_by_input = [];
  proposals_by_input = [];
  stage_trace = trace;
  model_run = none;
}

abbrev services : Services externals ℕ ℕ
services = record {
  allowed_media_hosts = returned ("media" ∷ []);
  lab_probes_enabled = false;
  event_pipeline_enabled = true;
  boot_ready_ms = 1;
  validate_event = λ raw. threw (validation_error (("bundle", "missing") ∷ []) "1 error");
  revalidate_event = λ request. returned request;
  Research = ℕ;
  validate_research = λ raw. returned 0;
  validate_v2 = λ raw. returned batch;
  validate_v2_internal_urls = λ b hosts. returned tt;
  validate_legacy = λ b. returned session_batch;
  validate_v1 = λ raw. threw (validation_error [] "1 error");
  validate_internal_urls = λ b hosts. returned tt;
  run_probe = λ raw g. (returned "probe", g);
  source_research = returned (record { model_id = "m"; revision = "r" });
  validate_research_output = λ f. returned tt;
  run_isolated_research = λ r g. (threw (other_exception "TimeoutError" "slow"), g);
  validate_event_working_urls = λ r hosts. [];
  event_requires_image_inference = λ r fs. false;
  run_event_image_perception = λ r b fs c g. (returned (r, fs), g);
  run_event_pipeline = λ r fs. returned "event";
  perception_adapter_given = false;
  factory_given = true;
  runtime_perception_adapter = true;
  registry = returned session.registry;
  session = λ registry. record session { registry = registry };
  contracts_digest = "contracts";
  runtime = runtime_of (ok tt);
  enter_scope = λ g. g;
  leave_scope = λ g. g;
  exception_of = λ f. other_exception "Exception" "";
  read_item = λ r. record {
    input_id = "image";
    pixel_regions = [];
    factual_observations = [];
    handed_on = r.input_id;
  };
  run_fire_pointing_stage = λ b execution n g. (returned pointing, g);
  run_burned_area_stage = λ b n g. (returned burned, g);
  spatial_pipeline = none;
  checks = checks;
  composition_exception = λ b l s. validation_error [] "1 error";
  contract_of = contract_of;
  orchestration_ms = no_time;
}

services_idle : IsIdle externals services
services_idle = record { without_adapter = λ r fs c g. refl; without_images = λ r b fs c g h. refl }

abbrev raw : Members ℕ
raw = member "schema_version" (text "2.0") no_members

handle_job-Guarded_example : Guarded (handle_job externals services (some (object raw)))
handle_job-Guarded_example = handle_job-Guarded externals services services_idle (some (object raw))

abbrev free : Worker ℕ
free = record { lock = false; gpu = idle }

research-Reports : Reports externals services raw
research-Reports = record { spec = _; named = refl; accepted = λ f h. refl }

research_job-Responds_example :
    Responds externals services (research_job externals services raw free).0
research_job-Responds_example =
    research_job-Responds externals services raw research-Reports free tt (λ r g. tt)

abbrev broken : Services externals ℕ ℕ
broken = record services { registry = threw (other_exception "KeyError" "asr") }

registry_raises :
    (batch_job externals broken true raw free).0 ≡ threw (other_exception "KeyError" "asr")
unfolding batch_job prepare end_batch
registry_raises = refl

batch_job-threw_example : is_caught (other_exception "KeyError" "asr") ≡ false
batch_job-threw_example =
    batch_job-threw externals broken true raw free (other_exception "KeyError" "asr")
      registry_raises
