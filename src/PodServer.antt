-- ===== src/PodServer.antt =====
-- pod_server.py: the queue of a pod, one function for each stretch of code under the lock (or one
-- call on the pending FIFO), and the HTTP handlers over it. Requests, outputs and clock readings are
-- values of parameter types; `handle_job` is a step's outcome.
pub mod Http
pub mod Steps
use fireviewer_orchestrator.Common.{
  ℕ, String, ◌+++◌, Bool, true, false, Option, none, some, List, [], ◌∷◌, ◌++◌, ◌≡◌, if◌then◌else◌,
  not,
}
use fireviewer_orchestrator.Common.Order.{Ord, ◌==◌, string_ord}
use fireviewer_orchestrator.Common.Dict.{lookup, put}

pub data JobStatus : Type 0 where
  in_queue in_progress completed failed cancelled : JobStatus

abbrev pub is_in_queue : JobStatus → Bool
is_in_queue in_queue = true
is_in_queue _ = false

abbrev pub is_in_progress : JobStatus → Bool
is_in_progress in_progress = true
is_in_progress _ = false

abbrev pub is_cancelled : JobStatus → Bool
is_cancelled cancelled = true
is_cancelled _ = false

abbrev pub status_text : JobStatus → String
status_text in_queue = "IN_QUEUE"
status_text in_progress = "IN_PROGRESS"
status_text completed = "COMPLETED"
status_text failed = "FAILED"
status_text cancelled = "CANCELLED"

-- The values of the pod: JSON objects and clock readings, `round((later - earlier) * 1_000)`, and
-- the object that reports a failed job.
pub record Pod : Type 1 where
  pub Value : Type 0
  pub Time : Type 0
  pub elapsed_ms : Time → Time → ℕ
  pub failure_output : String → Value

module _ (pod : Pod) where
  pub record PodJob : Type 0 where
    pub job_id : String
    pub request : pod.Value
    pub status : JobStatus
    pub output : Option pod.Value
    pub execution_time_ms : Option ℕ
    pub delay_time_ms : Option ℕ
    pub queued_at : pod.Time
    pub started_at : Option pod.Time

  -- What the consumer thread holds: nothing, an identifier it took from the FIFO, or the job that
  -- it runs with `handle_job`.
  pub data Consumer : Type 0 where
    waiting : Consumer
    taken : String → Consumer
    running : String → Consumer

  -- `_jobs`, `_pending`, the consumer, and the identifiers that `submit` has stored but not yet
  -- put into the FIFO.
  pub record Queue : Type 0 where
    pub jobs : List (String × PodJob)
    pub pending : List String
    pub consumer : Consumer
    pub storing : List String

-- The fields of a response.
pub data Field (pod : Pod) : Type 0 where
  text : String → Field pod
  number : ℕ → Field pod
  value : pod.Value → Field pod

-- What `handle_job` did: its output and how long it took, or the text of its exception.
pub data JobOutcome (pod : Pod) : Type 0 where
  returned : pod.Value → ℕ → JobOutcome pod
  raised : String → JobOutcome pod

unfoldable pub remove_one : String → List String → List String
remove_one k [] = []
remove_one k (j ∷ js) = if k == j then js else j ∷ remove_one k js

module _ {pod : Pod} where
  abbrev pub empty_queue : Queue pod
  empty_queue = record { jobs = []; pending = []; consumer = waiting; storing = [] }

  -- `PodJob(job_id=..., request=...)`
  abbrev pub new_job : String → pod.Value → pod.Time → PodJob pod
  new_job job_id request now = record {
    job_id = job_id;
    request = request;
    status = in_queue;
    output = none;
    execution_time_ms = none;
    delay_time_ms = none;
    queued_at = now;
    started_at = none;
  }

  unfoldable pub field_if :
      {A : Type 0} → String → (A → Field pod) → Option A → List (String × Field pod)
  field_if name f none = []
  field_if name f (some v) = (name, f v) ∷ []

  -- `PodJob.response`
  unfoldable pub response : PodJob pod → List (String × Field pod)
  response job =
      ("id", text job.job_id)
        ∷ ("status", text (status_text job.status))
        ∷ field_if "output" value job.output
      ++ field_if "executionTime" number job.execution_time_ms
      ++ field_if "delayTime" number job.delay_time_ms

  -- `submit`, first part: the job is stored under the lock.
  unfoldable pub store_job : PodJob pod → Queue pod → Queue pod
  store_job job q = record q { jobs = put job.job_id job q.jobs; storing = job.job_id ∷ q.storing }

  -- `submit`, second part: `self._pending.put(job.job_id)`
  unfoldable pub put_pending : String → Queue pod → Queue pod
  put_pending k q = record q { pending = q.pending ++ k ∷ []; storing = remove_one k q.storing }

  -- `get`
  abbrev pub get : String → Queue pod → Option (PodJob pod)
  get k q = lookup k q.jobs

  -- `cancel`: the job it returns, and the queue after it.
  unfoldable pub cancel : String → Queue pod → Option (PodJob pod) × Queue pod
  cancel k q = elim (lookup k q.jobs) [
    | none ↦ (none, q)
    | some job ↦
        let job' : PodJob pod = record job { status = cancelled } in
        if is_in_queue job.status
        then (some job', record q { jobs = put k job' q.jobs })
        else (some job, q)
  ]

  -- `self._pending.get()`: none where the consumer waits.
  unfoldable pub take_pending : Queue pod → Option (Queue pod)
  take_pending q = take q.consumer q.pending
    where
      take : Consumer pod → List String → Option (Queue pod)
      take waiting (k ∷ ks) = some (record q { pending = ks; consumer = taken k })
      take _ _ = none

  -- The first stretch of `_consume` under the lock. None is a KeyError.
  unfoldable pub begin_job : pod.Time → String → Queue pod → Option (Queue pod)
  begin_job now k q = elim (lookup k q.jobs) [
    | none ↦ none
    | some job ↦
        let job' : PodJob pod = record job {
          status = in_progress;
          started_at = some now;
          delay_time_ms = some (pod.elapsed_ms now job.queued_at);
        } in
        if is_cancelled job.status
        then some (record q { consumer = waiting })
        else some (record q { jobs = put k job' q.jobs; consumer = running k })
  ]

  unfoldable pub finished_job : JobOutcome pod → PodJob pod → PodJob pod
  finished_job (returned output ms) job = record job {
    output = some output;
    execution_time_ms = some ms;
    status = completed;
  }
  finished_job (raised message) job = record job {
    output = some (pod.failure_output message);
    status = failed;
  }

  -- The second stretch of `_consume` under the lock, or its except clause.
  unfoldable pub end_job : JobOutcome pod → String → Queue pod → Queue pod
  end_job outcome k q = elim (lookup k q.jobs) [
    | none ↦ q
    | some job ↦ record q { jobs = put k (finished_job outcome job) q.jobs; consumer = waiting }
  ]
