-- ===== src/PodServer/Steps/Drain.antt =====
-- The consumer empties the queue: from any queue with no submission under way it can end every job.
use fireviewer_orchestrator.Common.{
  ℕ, zero, suc, ◌+◌, ◌*◌, ◌≤◌, String, Bool, true, Option, none, some, List, [], ◌∷◌, ◌≡◌, refl, ap,
  ◌∙◌, arith, length, Option-cases, ◌⊎◌, inl, inr, eq_iff,
}
use fireviewer_orchestrator.Common.Order.{string_ord}
use fireviewer_orchestrator.Common.Dict.{lookup}
use fireviewer_orchestrator.PodServer.{
  Pod, PodJob, Consumer, waiting, taken, running, Queue, take_pending, begin_job, JobOutcome,
  end_job,
}
use fireviewer_orchestrator.PodServer.Steps.{Step, take, begin, end, Reachable, next}
use fireviewer_orchestrator.PodServer.Steps.Invariant.{
  IsValid, tickets, is_ended, Reachable-IsValid, begin-absent, begin-cases,
}
use fireviewer_orchestrator.PodServer.Steps.Lifecycle.{begin_job-total}

module _ {pod : Pod} where
  -- A run of the consumer by itself: what it does in each of its states is fixed, the handler making
  -- `outcome k` of job `k`.
  pub data Runs (outcome : String → JobOutcome pod) (now : pod.Time)
      : Queue pod → Queue pod → Type 0 where
    done : {q : Queue pod} → Runs outcome now q q
    taking :
        {q q' q'' : Queue pod}
        → take_pending q ≡ some q'
        → Runs outcome now q' q''
        → Runs outcome now q q''
    beginning :
        {q q' q'' : Queue pod} (k : String)
        → q.consumer ≡ taken k
        → begin_job now k q ≡ some q'
        → Runs outcome now q' q''
        → Runs outcome now q q''
    ending :
        {q q'' : Queue pod} (k : String)
        → q.consumer ≡ running k
        → Runs outcome now (end_job (outcome k) k q) q''
        → Runs outcome now q q''

  -- What the consumer still has to do: three steps for a ticket in the FIFO, two for one that it
  -- took, one for the job that it runs.
  abbrev held_work : Consumer pod → ℕ
  held_work waiting = 0
  held_work (taken k) = 2
  held_work (running k) = 1

  abbrev work : Queue pod → ℕ
  work q = 3 * length q.pending + held_work q.consumer

  -- A queue with nothing left to do.
  pub record IsDrained (q : Queue pod) : Type 0 where
    pub no_pending : q.pending ≡ []
    pub idle : q.consumer ≡ waiting
    pub no_storing : q.storing ≡ []

  -- A step of the consumer's run, with less to do after it.
  record Advances (outcome : String → JobOutcome pod) (now : pod.Time) (q : Queue pod)
      : Type 0 where
    after : Queue pod
    step : Step q after
    run : {q'' : Queue pod} → Runs outcome now after q'' → Runs outcome now q q''
    less : suc (work after) ≤ work q
    no_storing : after.storing ≡ q.storing

  taken_next :
      (k : String) (ks : List String) (q : Queue pod)
      → q.consumer ≡ waiting
      → q.pending ≡ k ∷ ks
      → take_pending q ≡ some (record q { pending = ks; consumer = taken k })
  unfolding take_pending
  taken_next k ks q c p = rw (c, p) refl

  take-Advances :
      (outcome : String → JobOutcome pod) (now : pod.Time) (k : String) (ks : List String)
      (q : Queue pod)
      → q.consumer ≡ waiting
      → q.pending ≡ k ∷ ks
      → Advances outcome now q
  take-Advances outcome now k ks q c p = record {
    after = record q { pending = ks; consumer = taken k };
    step = take (taken_next k ks q c p);
    run = taking (taken_next k ks q c p);
    less = ground (arith, c, p);
    no_storing = refl;
  }

  begin-Advances :
      (outcome : String → JobOutcome pod) (now : pod.Time) (k : String) (q : Queue pod)
      → Reachable q
      → q.consumer ≡ taken k
      → Advances outcome now q
  begin-Advances outcome now k q r c = elim (Option-cases (begin_job now k q)) [
    | inl failed ↦ absurd (ground (arith, begin_job-total q r now k c, failed))
    | inr (q', b) ↦ elim (Option-cases (lookup k q.jobs)) [
      | inl absent ↦ absurd (begin-absent now k q absent b)
      | inr (a, found) ↦ elim (begin-cases now k q a found b) [
        | inl (gone, e) ↦ record {
          after = q';
          step = begin now k c b;
          run = beginning k c b;
          less = ground (arith, c, e);
          no_storing = ap (λ (t : Queue pod). t.storing) e;
        }
        | inr (live, e) ↦ record {
          after = q';
          step = begin now k c b;
          run = beginning k c b;
          less = ground (arith, c, e);
          no_storing = ap (λ (t : Queue pod). t.storing) e;
        }
      ]
    ]
  ]

  end-Advances :
      (outcome : String → JobOutcome pod) (now : pod.Time) (k : String) (q : Queue pod)
      → Reachable q
      → q.consumer ≡ running k
      → Advances outcome now q
  unfolding IsValid end_job
  end-Advances outcome now k q r c = elim (Option-cases (lookup k q.jobs)) [
    | inl absent ↦ absurd (ground (arith, Reachable-IsValid r k, eq_iff k k))
    | inr (a, found) ↦ record {
      after = end_job (outcome k) k q;
      step = end (outcome k) k c;
      run = ending k c;
      less = ground (arith, c, found);
      no_storing = ground (arith, found);
    }
  ]

  next_turn :
      (outcome : String → JobOutcome pod) (now : pod.Time) (q : Queue pod)
      → Reachable q
      → q.storing ≡ []
      → IsDrained q ⊎ Advances outcome now q
  next_turn outcome now q r e = go q.consumer q.pending refl refl
    where
      go :
          (c : Consumer pod) (ks : List String)
          → q.consumer ≡ c
          → q.pending ≡ ks
          → IsDrained q ⊎ Advances outcome now q
      go waiting [] c p = inl (record { no_pending = p; idle = c; no_storing = e })
      go waiting (k ∷ ks) c p = inr (take-Advances outcome now k ks q c p)
      go (taken k) ks c p = inr (begin-Advances outcome now k q r c)
      go (running k) ks c p = inr (end-Advances outcome now k q r c)

  -- Enough steps drain the queue.
  drain :
      (outcome : String → JobOutcome pod) (now : pod.Time) (n : ℕ) (q : Queue pod)
      → Reachable q
      → q.storing ≡ []
      → work q ≤ n
      → (q' : Queue pod) × Runs outcome now q q' × Reachable q' × IsDrained q'
  drain outcome now zero q r e bound = elim (next_turn outcome now q r e) [
    | inl drained ↦ (q, done, r, drained)
    | inr a ↦ absurd (omega (arith, a.less, bound))
  ]
  drain outcome now (suc n) q r e bound = elim (next_turn outcome now q r e) [
    | inl drained ↦ (q, done, r, drained)
    | inr a ↦
        let (q', steps, r', drained) =
          drain outcome now n a.after (next r a.step) (a.no_storing ∙ e)
            (omega (arith, a.less, bound)) in
        (q', a.run steps, r', drained)
  ]

  -- An identifier has no job, or one that has ended.
  abbrev pub ended_or_none : Option (PodJob pod) → Bool
  ended_or_none none = true
  ended_or_none (some job) = is_ended job.status

  drained-ended :
      (q : Queue pod)
      → IsValid q
      → IsDrained q
      → (k : String) → ended_or_none (lookup k q.jobs) ≡ true
  unfolding IsValid tickets
  drained-ended q valid d k = ground (arith, valid k, d.no_pending, d.idle, d.no_storing)

  -- Whatever the handler makes of the jobs, returning or raising for each as `outcome` says: from a
  -- reachable queue in which no submission is under way, the consumer's own run, which takes, begins
  -- and ends jobs with those outcomes, leads to a reachable queue that is drained, with every job
  -- ended.
  pub queue-drains :
      (outcome : String → JobOutcome pod) (now : pod.Time) (q : Queue pod)
      → Reachable q
      → q.storing ≡ []
      → (q' : Queue pod) × Runs outcome now q q'
        × Reachable q'
        × IsDrained q'
        × ((k : String) → ended_or_none (lookup k q'.jobs) ≡ true)
  queue-drains outcome now q r e =
      let (q', steps, r', drained) = drain outcome now (work q) q r e (omega arith) in
      (q', steps, r', drained, drained-ended q' (Reachable-IsValid r') drained)
