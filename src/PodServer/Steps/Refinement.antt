-- ===== src/PodServer/Steps/Refinement.antt =====
-- The queue as its clients see it: a status for each identifier, which changes along the life of a job.
use fireviewer_orchestrator.Common.{
  String, Bool, true, false, Option, none, some, ◌≡◌, refl, ap, ap₂, ◌∙◌, arith, Bool-cases, List,
  Option-cases, inl, inr, eq_iff,
}
use fireviewer_orchestrator.Common.Order.{◌==◌, string_ord}
use fireviewer_orchestrator.Common.Dict.{lookup, put, lookup-put}
use fireviewer_orchestrator.PodServer.{
  JobStatus, in_queue, in_progress, is_in_queue, completed, failed, cancelled, Pod, PodJob, taken,
  running, Queue, new_job, store_job, put_pending, cancel, take_pending, begin_job, JobOutcome,
  returned, raised, finished_job, end_job,
}
use fireviewer_orchestrator.PodServer.Steps.{
  Step, store, enqueue, cancel_job, take, begin, end, Reachable,
}
use fireviewer_orchestrator.PodServer.Steps.Invariant.{
  IsValid, tickets, Reachable-IsValid, begin-absent, begin-cases, started,
}

-- The life of a job: it is submitted, then cancelled in the queue or run to its end.
unfoldable pub legal : Option JobStatus → Option JobStatus → Bool
legal none none = true
legal none (some in_queue) = true
legal (some in_queue) (some in_queue) = true
legal (some in_queue) (some cancelled) = true
legal (some in_queue) (some in_progress) = true
legal (some in_progress) (some in_progress) = true
legal (some in_progress) (some completed) = true
legal (some in_progress) (some failed) = true
legal (some completed) (some completed) = true
legal (some failed) (some failed) = true
legal (some cancelled) (some cancelled) = true
legal _ _ = false

-- A step of the specification: one identifier moves along its life, and no other changes.
pub record LifeStep (before after : String → Option JobStatus) : Type 0 where
  pub key : String
  pub life : legal (before key) (after key) ≡ true
  pub others : (j : String) → (j == key) ≡ false → after j ≡ before j

legal_refl : (s : Option JobStatus) → legal s s ≡ true
unfolding legal
legal_refl s = ground arith

legal_submitted : legal none (some in_queue) ≡ true
unfolding legal
legal_submitted = refl

legal_cancelled : (s : JobStatus) → is_in_queue s ≡ true → legal (some s) (some cancelled) ≡ true
unfolding legal
legal_cancelled s h = ground arith

legal_started : (s : JobStatus) → s ≡ in_queue → legal (some s) (some in_progress) ≡ true
unfolding legal
legal_started s h = ground arith

module _ {pod : Pod} where
  legal_finished :
      (outcome : JobOutcome pod) (a : PodJob pod)
      → a.status ≡ in_progress
      → legal (some a.status) (some (finished_job outcome a).status) ≡ true
  unfolding legal finished_job
  legal_finished (returned v ms) a h = ground arith
  legal_finished (raised m) a h = ground arith

  take-jobs : (q : Queue pod) {q' : Queue pod} → take_pending q ≡ some q' → q'.jobs ≡ q.jobs
  unfolding take_pending
  take-jobs q {q'} t = ground arith

  -- What the clients see.
  abbrev pub status_of : Option (PodJob pod) → Option JobStatus
  status_of none = none
  status_of (some job) = some job.status

  unfoldable pub statuses : Queue pod → String → Option JobStatus
  statuses q k = status_of (lookup k q.jobs)

  lookup-put_same :
      (k : String) (job : PodJob pod) (d : List (String × PodJob pod))
      → lookup k (put k job d) ≡ some job
  lookup-put_same k job d = ground (arith, lookup-put k job d k, eq_iff k k)

  lookup-put_other :
      (k : String) (job : PodJob pod) (d : List (String × PodJob pod)) (j : String)
      → (j == k) ≡ false
      → lookup j (put k job d) ≡ lookup j d
  lookup-put_other k job d j differs = ground (arith, lookup-put k job d j)

  -- One job is written, in the place of what `o` stands for.
  put-LifeStep :
      (k : String) (job : PodJob pod) (q q' : Queue pod) (o : Option (PodJob pod))
      → lookup k q.jobs ≡ o
      → q'.jobs ≡ put k job q.jobs
      → legal (status_of o) (some job.status) ≡ true
      → LifeStep (statuses q) (statuses q')
  unfolding statuses
  put-LifeStep k job q q' o found e h = record {
    key = k;
    life =
        ap₂ (λ a b. legal (status_of a) (status_of b)) found
          (ap (lookup k) e ∙ lookup-put_same k job q.jobs)
        ∙ h;
    others = λ j differs. ap status_of (ap (lookup j) e ∙ lookup-put_other k job q.jobs j differs);
  }

  -- No job is written.
  same-LifeStep :
      (k : String) (q q' : Queue pod) → q'.jobs ≡ q.jobs → LifeStep (statuses q) (statuses q')
  unfolding statuses
  same-LifeStep k q q' e = record {
    key = k;
    life =
        ap (λ js. legal (status_of (lookup k q.jobs)) (status_of (lookup k js))) e
        ∙ legal_refl (status_of (lookup k q.jobs));
    others = λ j differs. ap (λ js. status_of (lookup j js)) e;
  }

  cancel-LifeStep : (k : String) (q : Queue pod) → LifeStep (statuses q) (statuses (cancel k q).1)
  unfolding cancel
  cancel-LifeStep k q = elim (Option-cases (lookup k q.jobs)) [
    | inl absent ↦ same-LifeStep k q (cancel k q).1 (ground (arith, absent))
    | inr (a, found) ↦ elim (Bool-cases (is_in_queue a.status)) [
      | inr gone ↦ same-LifeStep k q (cancel k q).1 (ground (arith, found, gone))
      | inl there ↦
          put-LifeStep k (record a { status = cancelled }) q (cancel k q).1 (some a) found
            (ground (arith, found, there)) (legal_cancelled a.status there)
    ]
  ]

  begin-LifeStep :
      (now : pod.Time) (k : String) (q : Queue pod) {q' : Queue pod}
      → IsValid q
      → q.consumer ≡ taken k
      → begin_job now k q ≡ some q'
      → LifeStep (statuses q) (statuses q')
  unfolding IsValid tickets
  begin-LifeStep now k q {q'} valid held b = elim (Option-cases (lookup k q.jobs)) [
    | inl absent ↦ absurd (begin-absent now k q absent b)
    | inr (a, found) ↦ elim (begin-cases now k q a found b) [
      | inl (gone, e) ↦ same-LifeStep k q q' (ap (λ (t : Queue pod). t.jobs) e)
      | inr (live, e) ↦
          put-LifeStep k (started now a) q q' (some a) found (ap (λ (t : Queue pod). t.jobs) e)
            (legal_started a.status (ground (arith, valid k, eq_iff k k)))
    ]
  ]

  end-LifeStep :
      (outcome : JobOutcome pod) (k : String) (q : Queue pod)
      → IsValid q
      → q.consumer ≡ running k
      → LifeStep (statuses q) (statuses (end_job outcome k q))
  unfolding IsValid end_job
  end-LifeStep outcome k q valid held = elim (Option-cases (lookup k q.jobs)) [
    | inl absent ↦ same-LifeStep k q (end_job outcome k q) (ground (arith, absent))
    | inr (a, found) ↦
        put-LifeStep k (finished_job outcome a) q (end_job outcome k q) (some a) found
          (ground (arith, found)) (legal_finished outcome a (ground (arith, valid k, eq_iff k k)))
  ]

  step-LifeStep_of :
      {q q' : Queue pod} → Step q q' → IsValid q → LifeStep (statuses q) (statuses q')
  unfolding store_job put_pending
  step-LifeStep_of (store {q} k v now a) valid =
      put-LifeStep k (new_job k v now) q (store_job (new_job k v now) q) none a refl
        (legal_submitted)
  step-LifeStep_of (enqueue {q} k a) valid = same-LifeStep k q (put_pending k q) refl
  step-LifeStep_of (cancel_job {q} k) valid = cancel-LifeStep k q
  step-LifeStep_of (take {q} {q'} t) valid = same-LifeStep "" q q' (take-jobs q t)
  step-LifeStep_of (begin {q} now k held b) valid = begin-LifeStep now k q valid held b
  step-LifeStep_of (end {q} outcome k held) valid = end-LifeStep outcome k q valid held

  -- Every step from a reachable queue is a step of the specification: at most one identifier changes
  -- its status, along the life of a job, and no other does.
  pub step-LifeStep :
      (q q' : Queue pod) → Reachable q → Step q q' → LifeStep (statuses q) (statuses q')
  step-LifeStep q q' r s = step-LifeStep_of s (Reachable-IsValid r)
