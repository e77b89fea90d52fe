-- ===== src/PodServer/Steps.antt =====
-- The steps of the queue, and what every interleaving of them keeps.
pub mod Invariant
pub mod Lifecycle
pub mod Refinement
pub mod Drain
use fireviewer_orchestrator.Common.{
  String, Option, none, some, ◌≡◌, List, [], ◌∷◌, Bool, true, false,
}
use fireviewer_orchestrator.Common.Sets.{contains}
use fireviewer_orchestrator.Common.Order.{string_ord}
use fireviewer_orchestrator.Common.Dict.{lookup}
use fireviewer_orchestrator.PodServer.{
  Pod, PodJob, Consumer, waiting, taken, running, Queue, empty_queue, new_job, store_job,
  put_pending, cancel, take_pending, begin_job, JobOutcome, end_job,
}

module _ {pod : Pod} where
  -- One atomic step of a request thread or of the consumer. The identifier of a new job comes
  -- from `uuid4` and is not in the dictionary.
  pub data Step : Queue pod → Queue pod → Type 0 where
    store :
        {q : Queue pod} (k : String) (request : pod.Value) (now : pod.Time)
        → lookup k q.jobs ≡ none
        → Step q (store_job (new_job k request now) q)
    enqueue : {q : Queue pod} (k : String) → contains k q.storing ≡ true → Step q (put_pending k q)
    cancel_job : {q : Queue pod} (k : String) → Step q (cancel k q).1
    take : {q q' : Queue pod} → take_pending q ≡ some q' → Step q q'
    begin :
        {q q' : Queue pod} (now : pod.Time) (k : String)
        → q.consumer ≡ taken k
        → begin_job now k q ≡ some q'
        → Step q q'
    end :
        {q : Queue pod} (outcome : JobOutcome pod) (k : String)
        → q.consumer ≡ running k
        → Step q (end_job outcome k q)

  pub data Reachable : Queue pod → Type 0 where
    initial : Reachable empty_queue
    next : {q q' : Queue pod} → Reachable q → Step q q' → Reachable q'
