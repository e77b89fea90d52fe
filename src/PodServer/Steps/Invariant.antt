-- ===== src/PodServer/Steps/Invariant.antt =====
-- What every interleaving of the queue's steps keeps: the tickets of an identifier (its places in
-- the FIFO, in the hands of `submit` and in the consumer's hand) agree with the status of its job.
use fireviewer_orchestrator.Common.{
  ℕ, ◌+◌, leb, nat_eq, String, Bool, true, false, Option, none, some, List, [], ◌∷◌, ◌++◌, ◌≡◌, ◌≢◌,
  ◌&&◌, not, refl, sym, arith, if◌then◌else◌, count_if, Option-cases, Bool-cases, inl, inr, ◌⊎◌,
  eq_iff, subst,
}
use fireviewer_orchestrator.Common.Order.{◌==◌, string_ord}
use fireviewer_orchestrator.Common.Sets.{contains}
use fireviewer_orchestrator.Common.Dict.{lookup, put, lookup-put}
use fireviewer_orchestrator.PodServer.{
  JobStatus, in_queue, in_progress, completed, failed, cancelled, is_cancelled, Pod, PodJob,
  Consumer, waiting, taken, running, Queue, empty_queue, new_job, store_job, put_pending,
  remove_one, cancel, take_pending, begin_job, JobOutcome, returned, raised, finished_job, end_job,
}
use fireviewer_orchestrator.PodServer.Steps.{
  Step, store, enqueue, cancel_job, take, begin, end, Reachable, initial, next,
}

abbrev pub count_in : String → List String → ℕ
count_in k ks = count_if (λ j. j == k) ks

-- A job in the queue has one ticket, a cancelled one at most one, any other none; the job that
-- runs is the one in progress.
abbrev pub fits_status : JobStatus → ℕ → Bool → Bool
fits_status in_queue n r = nat_eq n 1 && not r
fits_status in_progress n r = nat_eq n 0 && r
fits_status completed n r = nat_eq n 0 && not r
fits_status failed n r = nat_eq n 0 && not r
fits_status cancelled n r = leb n 1 && not r

-- The job has ended: nothing changes it any more.
abbrev pub is_ended : JobStatus → Bool
is_ended completed = true
is_ended failed = true
is_ended cancelled = true
is_ended _ = false

count_in-append :
    (k : String) (xs ys : List String) → count_in k (xs ++ ys) ≡ count_in k xs + count_in k ys
count_in-append k [] ys = omega arith
count_in-append k (x ∷ xs) ys = ground (arith, count_in-append k xs ys)

count_in-remove_one :
    (k j : String) (xs : List String)
    → contains j xs ≡ true
    → count_in k xs ≡ count_in k (remove_one j xs) + (if j == k then 1 else 0)
unfolding remove_one
count_in-remove_one k j [] h = absurd (ground arith)
count_in-remove_one k j (x ∷ xs) h =
    ground (arith, eq_iff j x, eq_iff x j, eq_iff j k, eq_iff x k, count_in-remove_one k j xs)

module _ {pod : Pod} where
  abbrev pub holds : Consumer pod → String → ℕ
  holds (taken j) k = if j == k then 1 else 0
  holds _ k = 0

  abbrev pub runs : Consumer pod → String → Bool
  runs (running j) k = j == k
  runs _ k = false

  -- the tickets of an identifier
  unfoldable pub tickets : Queue pod → String → ℕ
  tickets q k = count_in k q.pending + count_in k q.storing + holds q.consumer k

  abbrev pub fits : Option (PodJob pod) → ℕ → Bool → Bool
  fits none n r = nat_eq n 0 && not r
  fits (some job) n r = fits_status job.status n r

  unfoldable pub IsValid : Queue pod → Type 0
  IsValid q = (k : String) → fits (lookup k q.jobs) (tickets q k) (runs q.consumer k) ≡ true

  store-IsValid :
      (k : String) (v : pod.Value) (now : pod.Time) (q : Queue pod)
      → lookup k q.jobs ≡ none
      → IsValid q
      → IsValid (store_job (new_job k v now) q)
  unfolding IsValid tickets store_job
  store-IsValid k v now q h valid j =
      ground (arith, valid j, lookup-put k (new_job k v now) q.jobs j, eq_iff j k, eq_iff k j)

  enqueue-IsValid :
      (k : String) (q : Queue pod)
      → contains k q.storing ≡ true
      → IsValid q
      → IsValid (put_pending k q)
  unfolding IsValid tickets put_pending
  enqueue-IsValid k q h valid j =
      subst (λ n. fits (lookup j q.jobs) n (runs q.consumer j) ≡ true)
        (omega (arith, count_in-append j q.pending (k ∷ []), count_in-remove_one j k q.storing h))
        (valid j)

  cancel-IsValid : (k : String) (q : Queue pod) → IsValid q → IsValid (cancel k q).1
  unfolding IsValid tickets cancel
  cancel-IsValid k q valid j = elim (Option-cases (lookup k q.jobs)) [
    | inl absent ↦ ground (arith, valid j)
    | inr (job, found) ↦ ground (
      arith,
      valid j,
      valid k,
      eq_iff j k,
      eq_iff k j,
      lookup-put k (record job { status = cancelled }) q.jobs j,
    )
  ]

  take-IsValid :
      (q : Queue pod) {q' : Queue pod} → take_pending q ≡ some q' → IsValid q → IsValid q'
  unfolding IsValid tickets take_pending
  take-IsValid q {q'} h valid j = ground (arith, valid j)

  -- the job as `begin_job` starts it
  abbrev pub started : pod.Time → PodJob pod → PodJob pod
  started now job = record job {
    status = in_progress;
    started_at = some now;
    delay_time_ms = some (pod.elapsed_ms now job.queued_at);
  }

  pub begin-cases :
      (now : pod.Time) (k : String) (q : Queue pod) (job : PodJob pod) {q' : Queue pod}
      → lookup k q.jobs ≡ some job
      → begin_job now k q ≡ some q'
      → ((is_cancelled job.status ≡ true) × (q' ≡ record q { consumer = waiting }))
        ⊎ ((is_cancelled job.status ≡ false)
            × (q' ≡ record q { jobs = put k (started now job) q.jobs; consumer = running k }))
  unfolding begin_job
  begin-cases now k q job {q'} found h = elim (Bool-cases (is_cancelled job.status)) [
    | inl gone ↦ inl (gone, ground arith)
    | inr live ↦ inr (live, ground arith)
  ]

  skip-IsValid :
      (k : String) (q : Queue pod) (job : PodJob pod)
      → q.consumer ≡ taken k
      → lookup k q.jobs ≡ some job
      → is_cancelled job.status ≡ true
      → IsValid q
      → IsValid (record q { consumer = waiting })
  unfolding IsValid tickets
  skip-IsValid k q job held found gone valid j =
      ground (arith, valid j, valid k, eq_iff j k, eq_iff k j)

  start-IsValid :
      (now : pod.Time) (k : String) (q : Queue pod) (job : PodJob pod)
      → q.consumer ≡ taken k
      → lookup k q.jobs ≡ some job
      → is_cancelled job.status ≡ false
      → IsValid q
      → IsValid (record q { jobs = put k (started now job) q.jobs; consumer = running k })
  unfolding IsValid tickets
  start-IsValid now k q job held found live valid j = elim (Bool-cases (j == k)) [
    | inl same ↦
        ground
          (arith, valid j, valid k, eq_iff j k, eq_iff k j, lookup-put k (started now job) q.jobs j)
    | inr other ↦
        ground (arith, valid j, eq_iff j k, eq_iff k j, lookup-put k (started now job) q.jobs j)
  ]

  pub begin-absent :
      (now : pod.Time) (k : String) (q : Queue pod) {q' : Queue pod}
      → lookup k q.jobs ≡ none
      → begin_job now k q ≢ some q'
  unfolding begin_job
  begin-absent now k q absent h = absurd (ground arith)

  begin-IsValid :
      (now : pod.Time) (k : String) (q : Queue pod) {q' : Queue pod}
      → q.consumer ≡ taken k
      → begin_job now k q ≡ some q'
      → IsValid q
      → IsValid q'
  begin-IsValid now k q {q'} held h valid = elim (Option-cases (lookup k q.jobs)) [
    | inl absent ↦ absurd (begin-absent now k q absent h)
    | inr (job, found) ↦ elim (begin-cases now k q job found h) [
      | inl (gone, e) ↦ subst IsValid (sym e) (skip-IsValid k q job held found gone valid)
      | inr (live, e) ↦ subst IsValid (sym e) (start-IsValid now k q job held found live valid)
    ]
  ]

  finished_job-fits :
      (outcome : JobOutcome pod) (job : PodJob pod)
      → fits_status (finished_job outcome job).status 0 false ≡ true
  unfolding finished_job
  finished_job-fits (returned output ms) job = refl
  finished_job-fits (raised message) job = refl

  end-IsValid :
      (outcome : JobOutcome pod) (k : String) (q : Queue pod)
      → q.consumer ≡ running k
      → IsValid q
      → IsValid (end_job outcome k q)
  unfolding IsValid tickets end_job
  end-IsValid outcome k q held valid j = elim (Option-cases (lookup k q.jobs)) [
    | inl absent ↦ ground (arith, valid j, valid k, eq_iff j k, eq_iff k j)
    | inr (job, found) ↦ ground (
      arith,
      valid j,
      valid k,
      eq_iff j k,
      eq_iff k j,
      lookup-put k (finished_job outcome job) q.jobs j,
      finished_job-fits outcome job,
    )
  ]

  pub step-IsValid : {q q' : Queue pod} → Step q q' → IsValid q → IsValid q'
  step-IsValid (store {q} k v now h) valid = store-IsValid k v now q h valid
  step-IsValid (enqueue {q} k h) valid = enqueue-IsValid k q h valid
  step-IsValid (cancel_job {q} k) valid = cancel-IsValid k q valid
  step-IsValid (take {q} h) valid = take-IsValid q h valid
  step-IsValid (begin {q} now k held h) valid = begin-IsValid now k q held h valid
  step-IsValid (end {q} outcome k held) valid = end-IsValid outcome k q held valid

module _ (pod : Pod) where
  empty_queue-IsValid : IsValid (empty_queue {pod = pod})
  unfolding IsValid tickets lookup
  empty_queue-IsValid k = ground arith

module _ {pod : Pod} where
  -- In a reachable queue, a job in the queue has exactly one ticket (a place in the FIFO, in the hands
  -- of `submit` or in the hand of the consumer), a cancelled one at most one, any other none, and the
  -- job that the consumer runs is the one in progress.
  pub Reachable-IsValid : {q : Queue pod} → Reachable q → IsValid q
  Reachable-IsValid initial = empty_queue-IsValid pod
  Reachable-IsValid (next r s) = step-IsValid s (Reachable-IsValid r)
