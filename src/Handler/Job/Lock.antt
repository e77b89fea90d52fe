-- ===== src/Handler/Job/Lock.antt =====
-- The lock on the GPU session across a job.
use fireviewer_orchestrator.Common.{
  String, Bool, true, false, Option, none, some, List, ◌≡◌, refl, ap, ◌∙◌, arith, ◌&&◌,
  if◌then◌else◌,
}
use fireviewer_orchestrator.Common.Order.{Ord}
use fireviewer_orchestrator.EventPipeline.{PerceptionFailure}
use fireviewer_orchestrator.SessionRunner.Effects.{State}
use fireviewer_orchestrator.V2Runner.{
  Externals, Json, null, boolean, number, text, array, object, Members,
}
use fireviewer_orchestrator.Handler.{
  Answer, returned, threw, waiting, Worker, Action, after, holding, try_gpu, with_gpu, on_gpu,
  Services, EventRequest,
}
use fireviewer_orchestrator.Handler.Event.{
  Checked, check_event, requires_inference, has_adapter, perceive, propose, event_body, end_event,
  event_job,
}
use fireviewer_orchestrator.Handler.Research.{research_call, end_research, research_job}
use fireviewer_orchestrator.Handler.Batch.{try_session, prepare, end_batch, batch_job}
use fireviewer_orchestrator.Handler.Job.{schema_is, probe_job, route, handle_job}

-- An action that ends with the lock as it found it, and that, if the lock was held, changed nothing.
pub record Guarded {W A : Type 0} (m : Action W A) : Type 0 where
  pub same_lock : (w : Worker W) → (m w).1.lock ≡ w.lock
  pub untouched : (w : Worker W) → w.lock ≡ true → (m w).1 ≡ w

Guarded-if :
    {W A : Type 0} (b : Bool) (m n : Action W A)
    → (b ≡ true → Guarded m)
    → (b ≡ false → Guarded n)
    → Guarded (if b then m else n)
Guarded-if true m n h k = h refl
Guarded-if false m n h k = k refl

Guarded-after :
    {W A B : Type 0} (f : A → Action W B) (a : Answer A)
    → ((v : A) → Guarded (f v))
    → Guarded (after f a)
Guarded-after f (returned a) h = h a
Guarded-after f (threw e) h = record { same_lock = λ w. refl; untouched = λ w l. refl }
Guarded-after f waiting h = record { same_lock = λ w. refl; untouched = λ w l. refl }

-- One guarded action after another.
Guarded-bind :
    {W A B : Type 0} (m : Action W A) (f : A → Action W B)
    → Guarded m
    → ((v : A) → Guarded (f v))
    → Guarded (λ w. after f (m w).0 (m w).1)
Guarded-bind m f h k = record {
  same_lock = λ w. (Guarded-after f (m w).0 k).same_lock (m w).1 ∙ h.same_lock w;
  untouched =
      λ w l. (Guarded-after f (m w).0 k).untouched (m w).1 (h.same_lock w ∙ l) ∙ h.untouched w l;
}

try_gpu-same_lock :
    {W A : Type 0} (busy body : Action W A)
    → Guarded busy
    → (l : Bool) (g : State W) → (try_gpu busy body (record { lock = l; gpu = g })).1.lock ≡ l
unfolding try_gpu holding
try_gpu-same_lock busy body h true g = h.same_lock _
try_gpu-same_lock busy body h false g = refl

try_gpu-untouched :
    {W A : Type 0} (busy body : Action W A)
    → Guarded busy
    → (l : Bool) (g : State W) → l ≡ true
    → (try_gpu busy body (record { lock = l; gpu = g })).1 ≡ record { lock = l; gpu = g }
unfolding try_gpu
try_gpu-untouched busy body h true g e = h.untouched _ refl
try_gpu-untouched busy body h false g e = absurd (ground (arith, e))

Guarded-try_gpu :
    {W A : Type 0} (busy body : Action W A) → Guarded busy → Guarded (try_gpu busy body)
Guarded-try_gpu busy body h = record {
  same_lock = λ w. try_gpu-same_lock busy body h w.lock w.gpu;
  untouched = λ w l. try_gpu-untouched busy body h w.lock w.gpu l;
}

-- An action that only answers.
Guarded-still : {W A : Type 0} (a : Answer A) → Guarded {W = W} (λ w. (a, w))
Guarded-still a = record { same_lock = λ w. refl; untouched = λ w l. refl }

with_gpu-same_lock :
    {W A : Type 0} (body : Action W A) (l : Bool) (g : State W)
    → (with_gpu body (record { lock = l; gpu = g })).1.lock ≡ l
unfolding with_gpu holding
with_gpu-same_lock body true g = refl
with_gpu-same_lock body false g = refl

with_gpu-untouched :
    {W A : Type 0} (body : Action W A) (l : Bool) (g : State W)
    → l ≡ true
    → (with_gpu body (record { lock = l; gpu = g })).1 ≡ record { lock = l; gpu = g }
unfolding with_gpu
with_gpu-untouched body true g e = refl
with_gpu-untouched body false g e = absurd (ground (arith, e))

Guarded-with_gpu : {W A : Type 0} (body : Action W A) → Guarded (with_gpu body)
Guarded-with_gpu body = record {
  same_lock = λ w. with_gpu-same_lock body w.lock w.gpu;
  untouched = λ w l. with_gpu-untouched body w.lock w.gpu l;
}

-- An answer that is changed afterwards.
Guarded-answer :
    {W A B : Type 0} (f : Answer A → Answer B) (m : Action W A)
    → Guarded m
    → Guarded (λ w. (f (m w).0, (m w).1))
Guarded-answer f m h = record { same_lock = h.same_lock; untouched = h.untouched }

-- A call on the runtime that leaves it as it is.
Guarded-on_gpu :
    {W A : Type 0} (f : State W → Answer A × State W)
    → ((g : State W) → (f g).1 ≡ g)
    → Guarded (on_gpu f)
Guarded-on_gpu f h = record {
  same_lock = λ w. refl;
  untouched = λ w l. ap (λ g. record w { gpu = g }) (h w.gpu);
}

module _ (x : Externals) {W Cap : Type 0} ⦃o : Ord Cap⦄ (services : Services x W Cap) where
  -- Perception leaves the runtime as it is where it has no adapter, or no image to infer from.
  pub record IsIdle : Type 0 where
    pub without_adapter :
        (r : EventRequest) (fs : List PerceptionFailure) (c : Option String) (g : State W)
        → (services.run_event_image_perception r false fs c g).1 ≡ g
    pub without_images :
        (r : EventRequest) (b : Bool) (fs : List PerceptionFailure) (c : Option String)
        (g : State W)
        → services.event_requires_image_inference r fs ≡ false
        → (services.run_event_image_perception r b fs c g).1 ≡ g

  module _ (idle : IsIdle) where
    perceive_idle :
        (raw : Members x.Real) (c : Checked) (a : Bool) (g : State W)
        → (requires_inference x services raw c && a) ≡ false
        → (services.run_event_image_perception c.request a c.url_failures none g).1 ≡ g
    perceive_idle raw c false g h = idle.without_adapter c.request c.url_failures none g
    perceive_idle raw c true g h =
        idle.without_images c.request true c.url_failures none g (ground (arith, h))

    perceive-Guarded : (raw : Members x.Real) (c : Checked) → Guarded (perceive x services raw c)
    unfolding perceive
    perceive-Guarded raw c =
        Guarded-if (requires_inference x services raw c && has_adapter x services raw c) _ _
          (λ h.
            Guarded-try_gpu _ _
              (Guarded-on_gpu _ (idle.without_adapter c.request c.url_failures _)))
          (λ h. Guarded-on_gpu _ (λ g. perceive_idle raw c (has_adapter x services raw c) g h))

    event_job-Guarded : (raw : Members x.Real) → Guarded (event_job x services raw)
    unfolding event_job event_body propose
    event_job-Guarded raw =
        Guarded-if services.event_pipeline_enabled _ _
          (λ h. Guarded-answer (end_event x services raw) (event_body x services raw) (
            Guarded-bind (after (perceive x services raw) (check_event x services raw))
              (propose x services raw)
              (Guarded-after (perceive x services raw) (check_event x services raw)
                (perceive-Guarded raw))
              (λ (r, fs). Guarded-still _)))
          (λ h. Guarded-still _)

    research_job-Guarded : (raw : Members x.Real) → Guarded (research_job x services raw)
    unfolding research_job research_call
    research_job-Guarded raw =
        Guarded-answer (end_research x services raw)
          (after (research_call x services raw) (services.validate_research raw))
          (Guarded-after _ (services.validate_research raw)
            (λ r. Guarded-try_gpu _ _ (Guarded-still _)))

    batch_job-Guarded : (b : Bool) (raw : Members x.Real) → Guarded (batch_job x services b raw)
    unfolding batch_job try_session
    batch_job-Guarded b raw =
        Guarded-answer (end_batch x services b raw)
          (after (try_session x services) (prepare x services b raw))
          (Guarded-after _ (prepare x services b raw) (λ p. Guarded-try_gpu _ _ (Guarded-still _)))

    probe_job-Guarded : (raw : Members x.Real) → Guarded (probe_job x services raw)
    unfolding probe_job
    probe_job-Guarded raw =
        Guarded-after _ services.allowed_media_hosts (λ hosts. Guarded-with_gpu _)

    route-Guarded : (raw : Members x.Real) → Guarded (route x services raw)
    unfolding route
    route-Guarded raw =
        Guarded-if
          (schema_is x services "lab-bonsai-integration-1" raw && services.lab_probes_enabled) _ _
          (λ h. probe_job-Guarded raw)
          (λ h.
            Guarded-if (schema_is x services "event-2.0" raw) _ _ (λ i. event_job-Guarded raw)
              (λ i.
                Guarded-if (schema_is x services "research-1.0" raw) _ _
                  (λ j. research_job-Guarded raw)
                  (λ j. batch_job-Guarded (schema_is x services "2.0" raw) raw)))

    -- A job ends with the lock as it found it, whether it returns, throws or waits; and if the lock
    -- was held, the job has not touched the runtime.
    pub handle_job-Guarded : (job : Option (Json x.Real)) → Guarded (handle_job x services job)
    unfolding handle_job
    handle_job-Guarded (some (object raw)) = route-Guarded raw
    handle_job-Guarded (some null) = Guarded-still _
    handle_job-Guarded (some (boolean b)) = Guarded-still _
    handle_job-Guarded (some (number r)) = Guarded-still _
    handle_job-Guarded (some (text t)) = Guarded-still _
    handle_job-Guarded (some (array js)) = Guarded-still _
    handle_job-Guarded none = Guarded-still _
