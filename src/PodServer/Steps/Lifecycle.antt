-- ===== src/PodServer/Steps/Lifecycle.antt =====
-- What the invariant of the queue gives: one job at a time, no KeyError, and ended jobs that stay
-- as they are.
use fireviewer_orchestrator.Common.{
  String, true, none, some, ◌≡◌, sym, ap, ◌∙◌, arith, Option-cases, inl, inr, eq_iff, is_some,
}
use fireviewer_orchestrator.Common.Order.{string_ord}
use fireviewer_orchestrator.Common.Dict.{lookup, lookup-put}
use fireviewer_orchestrator.PodServer.{
  in_progress, cancelled, Pod, PodJob, Consumer, waiting, taken, running, Queue, new_job, store_job,
  put_pending, cancel, take_pending, begin_job, JobOutcome, finished_job, end_job,
}
use fireviewer_orchestrator.PodServer.Steps.{
  Step, store, enqueue, cancel_job, take, begin, end, Reachable,
}
use fireviewer_orchestrator.PodServer.Steps.Invariant.{
  IsValid, tickets, runs, is_ended, Reachable-IsValid, begin-absent, begin-cases, started,
}

module _ {pod : Pod} where
  -- In a reachable queue, the consumer's lookup of the identifier that it took finds the job, so that
  -- `begin_job` never is a KeyError.
  pub begin_job-total :
      (q : Queue pod)
      → Reachable q
      → (now : pod.Time) (k : String) → q.consumer ≡ taken k
      → is_some (begin_job now k q) ≡ true
  unfolding IsValid tickets begin_job
  begin_job-total q r now k held = elim (Option-cases (lookup k q.jobs)) [
    | inl absent ↦ absurd (ground (arith, Reachable-IsValid r k, eq_iff k k))
    | inr (job, found) ↦ ground arith
  ]

  runs_unique : (c : Consumer pod) (j k : String) → runs c j ≡ true → runs c k ≡ true → j ≡ k
  runs_unique waiting j k p q = absurd (ground arith)
  runs_unique (taken i) j k p q = absurd (ground arith)
  runs_unique (running i) j k p q = sym ((eq_iff i j).0 p) ∙ (eq_iff i k).0 q

  -- In a reachable queue, two jobs in progress have the same identifier: GPU work is sequential.
  pub in_progress_unique :
      (q : Queue pod)
      → Reachable q
      → (j k : String) (a b : PodJob pod) → lookup j q.jobs ≡ some a
      → lookup k q.jobs ≡ some b
      → a.status ≡ in_progress
      → b.status ≡ in_progress
      → j ≡ k
  unfolding IsValid
  in_progress_unique q r j k a b fa fb pa pb =
      runs_unique q.consumer j k (ground (arith, Reachable-IsValid r j))
        (ground (arith, Reachable-IsValid r k))

  module _ (k : String) (job : PodJob pod) (ended : is_ended job.status ≡ true) where
    store-ended :
        (j : String) (v : pod.Value) (now : pod.Time) (q : Queue pod)
        → lookup j q.jobs ≡ none
        → lookup k q.jobs ≡ some job
        → lookup k (store_job (new_job j v now) q).jobs ≡ some job
    unfolding store_job
    store-ended j v now q absent h =
        ground (arith, lookup-put j (new_job j v now) q.jobs k, eq_iff k j)

    cancel-ended :
        (j : String) (q : Queue pod)
        → lookup k q.jobs ≡ some job
        → lookup k (cancel j q).1.jobs ≡ some job
    unfolding cancel
    cancel-ended j q h = elim (Option-cases (lookup j q.jobs)) [
      | inl absent ↦ ground arith
      | inr (a, found) ↦
          ground (arith, eq_iff k j, lookup-put j (record a { status = cancelled }) q.jobs k)
    ]

    take-ended :
        (q : Queue pod) {q' : Queue pod}
        → take_pending q ≡ some q'
        → lookup k q.jobs ≡ some job
        → lookup k q'.jobs ≡ some job
    unfolding take_pending
    take-ended q {q'} t h = ground arith

    begin-ended :
        (now : pod.Time) (j : String) (q : Queue pod) {q' : Queue pod}
        → IsValid q
        → q.consumer ≡ taken j
        → begin_job now j q ≡ some q'
        → lookup k q.jobs ≡ some job
        → lookup k q'.jobs ≡ some job
    unfolding IsValid tickets
    begin-ended now j q {q'} valid held b h = elim (Option-cases (lookup j q.jobs)) [
      | inl absent ↦ absurd (begin-absent now j q absent b)
      | inr (a, found) ↦ elim (begin-cases now j q a found b) [
        | inl (gone, e) ↦ ap (λ (t : Queue pod). lookup k t.jobs) e ∙ h
        | inr (live, e) ↦
            ap (λ (t : Queue pod). lookup k t.jobs) e
            ∙ ground (arith, valid k, eq_iff j k, eq_iff k j, lookup-put j (started now a) q.jobs k)
      ]
    ]

    end-ended :
        (outcome : JobOutcome pod) (j : String) (q : Queue pod)
        → IsValid q
        → q.consumer ≡ running j
        → lookup k q.jobs ≡ some job
        → lookup k (end_job outcome j q).jobs ≡ some job
    unfolding IsValid end_job
    end-ended outcome j q valid held h = elim (Option-cases (lookup j q.jobs)) [
      | inl absent ↦ ground arith
      | inr (a, found) ↦
          ground
            (arith, valid k, eq_iff j k, eq_iff k j, lookup-put j (finished_job outcome a) q.jobs k)
    ]

    step-ended_of :
        {q q' : Queue pod}
        → Step q q'
        → IsValid q
        → lookup k q.jobs ≡ some job
        → lookup k q'.jobs ≡ some job
    unfolding put_pending
    step-ended_of (store {q} j v now a) valid h = store-ended j v now q a h
    step-ended_of (enqueue {q} j a) valid h = h
    step-ended_of (cancel_job {q} j) valid h = cancel-ended j q h
    step-ended_of (take {q} t) valid h = take-ended q t h
    step-ended_of (begin {q} now j held b) valid h = begin-ended now j q valid held b h
    step-ended_of (end {q} outcome j held) valid h = end-ended outcome j q valid held h

  -- A job that is completed, failed or cancelled in a reachable queue is the same after any step.
  pub step-ended :
      (q q' : Queue pod)
      → Reachable q
      → Step q q'
      → (k : String) (job : PodJob pod) → lookup k q.jobs ≡ some job
      → is_ended job.status ≡ true
      → lookup k q'.jobs ≡ some job
  step-ended q q' r s k job h ended = step-ended_of k job ended s (Reachable-IsValid r) h
