-- ===== src/Tests/Queue.antt =====
-- pod_server.py at concrete inputs.
use fireviewer_orchestrator.Common.{
  arith, ◌⊎◌, ℕ, String, true, false, Option, none, some, List, [], ◌∷◌, ◌≡◌, refl, is_some,
}
use fireviewer_orchestrator.Common.Order.{string_ord}
use fireviewer_orchestrator.Common.Dict.{lookup, put}
use fireviewer_orchestrator.PodServer.{
  response, Pod, PodJob, Queue, Consumer, waiting, taken, running, empty_queue, new_job, store_job,
  put_pending, begin_job, end_job, in_progress, completed, JobOutcome, returned, cancel, remove_one,
  take_pending, finished_job,
}
use fireviewer_orchestrator.PodServer.Steps.{
  store, enqueue, take, begin, end, cancel_job, Reachable, initial, next,
}
use fireviewer_orchestrator.PodServer.Steps.Invariant.{IsValid, Reachable-IsValid}
use fireviewer_orchestrator.PodServer.Steps.Lifecycle.{
  begin_job-total, in_progress_unique, step-ended,
}
use fireviewer_orchestrator.PodServer.Steps.Refinement.{LifeStep, statuses, step-LifeStep}
use fireviewer_orchestrator.PodServer.Steps.Drain.{Runs, IsDrained, ended_or_none, queue-drains}
use fireviewer_orchestrator.PodServer.Http.{
  Request, Reply, object, error_reply, post_answer, post_authorized, is_ascii, authorized, do_get,
  do_post, post_job, read_object, submit,
}
use fireviewer_orchestrator.PodServer.Http.Laws.{IsSubmission, http-unauthorized, do_post-accepted}

-- Texts for values and numbers for times.
abbrev plain_pod : Pod
plain_pod = record {
  Value = String;
  Time = ℕ;
  elapsed_ms = λ later earlier. 7;
  failure_output = λ message. message;
}

abbrev job : PodJob plain_pod
job = new_job "pod-1" "request" 0

abbrev queue_at :
    List String → Consumer plain_pod → List String → PodJob plain_pod → Queue plain_pod
queue_at pending consumer storing j = record {
  jobs = ("pod-1", j) ∷ [];
  pending = pending;
  consumer = consumer;
  storing = storing;
}

abbrev stored_queue : Queue plain_pod
stored_queue = store_job job empty_queue

abbrev taken_queue : Queue plain_pod
taken_queue = queue_at [] (taken "pod-1") [] job

taken_queue-Reachable : Reachable taken_queue
unfolding store_job put_pending remove_one take_pending lookup put
taken_queue-Reachable =
    next (next (next initial (store "pod-1" "request" 0 refl)) (enqueue "pod-1" refl)) (take refl)

begin_job-total_example : is_some (begin_job 5 "pod-1" taken_queue) ≡ true
begin_job-total_example = begin_job-total taken_queue taken_queue-Reachable 5 "pod-1" refl

Reachable-IsValid_example : IsValid taken_queue
Reachable-IsValid_example = Reachable-IsValid taken_queue-Reachable

abbrev started_job : PodJob plain_pod
started_job = record job { status = in_progress; started_at = some 5; delay_time_ms = some 7 }

abbrev running_queue : Queue plain_pod
running_queue = queue_at [] (running "pod-1") [] started_job

running_queue-Reachable : Reachable running_queue
unfolding begin_job lookup put
running_queue-Reachable = next taken_queue-Reachable (begin 5 "pod-1" refl refl)

running_queue-lookup : lookup "pod-1" running_queue.jobs ≡ some started_job
unfolding lookup
running_queue-lookup = refl

abbrev pod_id : String
pod_id = "pod-1"

in_progress_unique_example : pod_id ≡ pod_id
in_progress_unique_example =
    in_progress_unique running_queue running_queue-Reachable pod_id pod_id started_job started_job
      running_queue-lookup running_queue-lookup refl refl

abbrev ended_job : PodJob plain_pod
ended_job = record started_job {
  output = some "output";
  execution_time_ms = some 9;
  status = completed;
}

abbrev ended_queue : Queue plain_pod
ended_queue = queue_at [] waiting [] ended_job

ended_queue-Reachable : Reachable ended_queue
unfolding end_job finished_job lookup put
ended_queue-Reachable = next running_queue-Reachable (end (returned "output" 9) "pod-1" refl)

ended_queue-lookup : lookup "pod-1" ended_queue.jobs ≡ some ended_job
unfolding lookup
ended_queue-lookup = refl

step-ended_example : lookup "pod-1" (cancel "pod-1" ended_queue).1.jobs ≡ some ended_job
step-ended_example =
    step-ended ended_queue (cancel "pod-1" ended_queue).1 ended_queue-Reachable (cancel_job "pod-1")
      "pod-1" ended_job ended_queue-lookup refl

abbrev post : Option String → Request plain_pod
post token = record {
  path = "/v1/jobs";
  authorization = token;
  content_length = some 20;
  body = object "request" true;
  uuid = "1";
  now = 0;
}

post-unauthorized : ¬ (authorized "secret" (post none) ≡ some true)
unfolding authorized is_ascii
post-unauthorized h = absurd (ground (arith, h))

http-unauthorized_example :
    (do_get "secret" (post none) running_queue ≡ do_get "secret" (post none) ended_queue)
    × ((do_post "secret" (post none) running_queue).1 ≡ running_queue)
    × (((authorized "secret" (post none) ≡ none)
          × ((do_post "secret" (post none) running_queue).0 ≡ none))
        ⊎ ((authorized "secret" (post none) ≡ some false)
            × ((do_post "secret" (post none) running_queue).0
                ≡ some (error_reply 401 "unauthorized"))))
http-unauthorized_example =
    http-unauthorized "secret" (post none) running_queue ended_queue post-unauthorized

-- A header that is not ASCII gets no reply.
post-not_ascii : (do_post "secret" (post (some "Bearer sécret")) empty_queue).0 ≡ none
unfolding do_post post_answer authorized is_ascii
post-not_ascii = refl

abbrev accepted_reply : Reply plain_pod
accepted_reply = record { status = 202; body = response (new_job "pod-1" "request" 0) }

post-accepted : (do_post "secret" (post (some "Bearer secret")) empty_queue).0 ≡ some accepted_reply
unfolding do_post post_answer post_authorized post_job read_object authorized is_ascii
post-accepted = refl

do_post-accepted_example :
    (v : String) × IsSubmission "secret" (post (some "Bearer secret")) v
    × ((do_post "secret" (post (some "Bearer secret")) empty_queue).1
        ≡ submit (new_job "pod-1" v 0) empty_queue)
do_post-accepted_example =
    do_post-accepted "secret" (post (some "Bearer secret")) empty_queue accepted_reply post-accepted
      refl

step-LifeStep_example : LifeStep (statuses running_queue) (statuses ended_queue)
unfolding end_job finished_job lookup put
step-LifeStep_example =
    step-LifeStep running_queue ended_queue running_queue-Reachable
      (end (returned "output" 9) "pod-1" refl)

abbrev returns : String → JobOutcome plain_pod
returns k = returned "output" 9

queue-drains_example :
    (q' : Queue plain_pod) × Runs returns 5 taken_queue q'
    × Reachable q'
    × IsDrained q'
    × ((k : String) → ended_or_none (lookup k q'.jobs) ≡ true)
queue-drains_example = queue-drains returns 5 taken_queue taken_queue-Reachable refl
