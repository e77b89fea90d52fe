-- ===== src/SessionRunner/Candidate/Laws.antt =====
-- What one model's `try` statement promises, whatever the adapter does, where the memory statistics
-- can be read.
use fireviewer_orchestrator.Common.{
  ℕ, suc, ◌+◌, ◌≤◌, String, Bool, true, false, not, some, List, [], ◌∷◌, ◌++◌, ◌≡◌, ◌↔◌, ◌⊎◌, All,
  All-append, Option, inl, inr, refl, sym, ap, ◌∙◌, subst, arith, is_some, length, ltb,
  if◌then◌else◌,
}
use mathlib.Core.List.{append_assoc, append-nil}
use fireviewer_orchestrator.Contracts.{ItemResult, BatchItem, WorkerInput, ModelCandidateSpec}
use fireviewer_orchestrator.SessionRunner.Effects.{
  Fault, is_invalid_output, Outcome, ok, raised, Effect, loaded, inferred, State, Exec, Runtime,
  scan, pure, Cleans,
}
use fireviewer_orchestrator.SessionRunner.Patches.{Results, validated_candidates}
use fireviewer_orchestrator.SessionRunner.Patches.Laws.{validated_candidates-ok}
use fireviewer_orchestrator.Common.Dict.{keys}
use fireviewer_orchestrator.Common.Order.{◌==◌, string_ord}
use fireviewer_orchestrator.Common.Sets.{eqb_refl}
use fireviewer_orchestrator.SessionRunner.Candidate.{
  StageAttempt, Body, Pass, failed_attempt, failed_body, failed_measured, succeeded_measured,
  after_failure, repair, initial, as_patches, infer_pass, load_adapter, after_repair, after_first,
  after_load, try_candidate,
}

abbrev pub total_ms : List StageAttempt → ℕ
total_ms [] = 0
total_ms (a ∷ rest) = a.inference_ms + total_ms rest

-- the calls of `infer` in a log
abbrev pub inferences : List Effect → ℕ
inferences [] = 0
inferences (Effect.inferred k b ∷ es) = suc (inferences es)
inferences (e ∷ es) = inferences es

-- A call on the adapter `key` that neither creates nor releases it.
abbrev pub IsUse : String → Effect → Type 0
IsUse key (Effect.created k) = ⊥
IsUse key (loaded k) = (key == k) ≡ true
IsUse key (Effect.released k) = ⊥
IsUse key (inferred k b) = (key == k) ≡ true
IsUse key Effect.finalized = ⊥

-- A piece of log that only uses the adapter `key`.
abbrev pub Uses : String → List Effect → Type 0
Uses key d = All (IsUse key) d

pub Uses-scan :
    (key : String) (d e : List Effect) → Uses key d → scan (some key) (d ++ e) ≡ scan (some key) e
Uses-scan key [] e u = refl
Uses-scan key (Effect.created k ∷ d) e (p, u) = absurd p
Uses-scan key (loaded k ∷ d) e (p, u) = ground (arith, Uses-scan key d e u)
Uses-scan key (Effect.released k ∷ d) e (p, u) = absurd p
Uses-scan key (inferred k b ∷ d) e (p, u) = ground (arith, Uses-scan key d e u)
Uses-scan key (Effect.finalized ∷ d) e (p, u) = absurd p

-- How the outcome of the `try` statement hangs together.
pub record IsCoherent (max_repair_attempts : ℕ) (base : Results) (body : Body) : Type 0 where
  pub kept_ids : (r : Results) → body.results ≡ some r → keys r ≡ keys base
  pub fault_iff : is_some body.fault ≡ not (is_some body.results)
  pub payload_iff : is_some body.output_payload ≡ is_some body.results
  pub durations : body.inference_ms ≡ total_ms body.attempts
  pub at_most_two : length body.attempts ≤ 2
  pub second_allowed : length body.attempts ≡ 2 → 1 ≤ max_repair_attempts
  pub repaired_iff :
      (body.repaired ≡ true) ↔ ((length body.attempts ≡ 2) × (is_some body.results ≡ true))

-- If the action does not raise, what it returns satisfies `P`.
abbrev pub WhenOk {ℓ} : {A : Type ℓ} → (A → Type 0) → Outcome A → Type 0
WhenOk P (ok a) = P a
WhenOk P (raised f) = Unit

-- The action does not raise, and what it returns satisfies `P`.
abbrev pub Returns {ℓ} : {A : Type ℓ} → (A → Type 0) → Outcome A → Type 0
Returns P (ok a) = P a
Returns P (raised f) = ⊥

-- An action that began with the log `start` ended normally with a coherent outcome; meanwhile it
-- logged the inferences that the attempts after the first `before` record, and used no
-- adapter but `key`.
pub record Ends {W : Type 0} (key : String) (base : Results) (max_repair_attempts before : ℕ)
    (start : List Effect) (r : Outcome Body × State W) : Type 0 where
  pub during : List Effect
  pub log : r.1.log ≡ start ++ during
  pub uses : Uses key during
  pub outcome :
      Returns
        (λ (body : Body).
          IsCoherent max_repair_attempts base body
          × (length body.attempts ≡ before + inferences during))
        r.0

pub Outcome-cases {ℓ} :
    {A : Type ℓ} (o : Outcome A) → ((a : A) × (o ≡ ok a)) ⊎ ((f : Fault) × (o ≡ raised f))
Outcome-cases (ok a) = inl (a, refl)
Outcome-cases (raised f) = inr (f, refl)

pub Returns-imp {ℓ} :
    {A : Type ℓ} (P Q : A → Type 0) (o : Outcome A)
    → ((a : A) → P a → Q a)
    → Returns P o
    → Returns Q o
Returns-imp P Q (ok a) f h = f a h
Returns-imp P Q (raised e) f h = h

pub WhenOk-imp {ℓ} :
    {A : Type ℓ} (P Q : A → Type 0) (o : Outcome A)
    → ((a : A) → P a → Q a)
    → WhenOk P o
    → WhenOk Q o
WhenOk-imp P Q (ok a) f h = f a h
WhenOk-imp P Q (raised e) f h = tt

Ends-if :
    {W : Type 0} {key : String} {base : Results} {max before : ℕ} {start : List Effect} (b : Bool)
    (m n : Exec W Body) (s : State W)
    → (b ≡ true → Ends key base max before start (m s))
    → (b ≡ false → Ends key base max before start (n s))
    → Ends key base max before start ((if b then m else n) s)
Ends-if true m n s p q = p refl
Ends-if false m n s p q = q refl

-- Taking in a quiet piece of log, with `n` inferences, before an action that ends.
Ends-after :
    {W : Type 0} {key : String} {base : Results} {max before : ℕ} {start : List Effect}
    (d : List Effect) (n : ℕ) (r : Outcome Body × State W)
    → ((e : List Effect) → inferences (d ++ e) ≡ n + inferences e)
    → Uses key d
    → Ends key base max (n + before) (start ++ d) r
    → Ends key base max before start r
Ends-after {key = key} {base = base} {max = max} {before = before} {start = start} d n r counts
      quiet ends =
    record {
      during = d ++ ends.during;
      log = ends.log ∙ append_assoc start d ends.during;
      uses = All-append (IsUse key) d ends.during quiet ends.uses;
      outcome =
          Returns-imp
            (λ (body : Body).
              IsCoherent max base body
              × (length body.attempts ≡ (n + before) + inferences ends.during))
            (λ (body : Body).
              IsCoherent max base body
              × (length body.attempts ≡ before + inferences (d ++ ends.during)))
            r.0 (λ body h. (h.0, omega (arith, h.1, counts ends.during))) ends.outcome;
    }

module _ {W : Type 0} (rt : Runtime W) (validate : BatchItem → ItemResult → Bool)
    (clean : Cleans rt) where
  module _ (c : ModelCandidateSpec) (batch : WorkerInput) (base : Results) where
    -- the log of an inference
    infer_pass-log :
        (b : Bool) (s : State W)
        → (infer_pass rt validate c batch base b s).1.log ≡ s.log ++ inferred c.candidate_id b ∷ []
    unfolding infer_pass
    infer_pass-log b s = ground arith

    abbrev key : String
    key = c.candidate_id

    -- A pass keeps the ids of the base results.
    abbrev KeepsIds : Pass → Type 0
    KeepsIds pass = keys pass.results ≡ keys base

    infer_pass-KeepsIds :
        (b : Bool) (s : State W) → WhenOk KeepsIds (infer_pass rt validate c batch base b s).0
    unfolding infer_pass
    infer_pass-KeepsIds b s =
        let sent = rt.infer c batch.items (as_patches base) b s.world in
        let synced = rt.synchronize sent.1 in
        elim (Outcome-cases sent.0) [
          | inr (f, e) ↦ rw e tt
          | inl (patches, e) ↦ elim (Outcome-cases synced.0) [
            | inr (f, e') ↦ rw (e, e') tt
            | inl (u, e') ↦
                elim (Outcome-cases (validated_candidates validate batch base patches)) [
                  | inr (f, e'') ↦ rw (e, e', e'') tt
                  | inl (r, e'') ↦
                      rw (e, e', e'') (validated_candidates-ok validate batch base patches e'').0
                ]
          ]
        ]

    load_adapter-log :
        (s : State W)
        → (d : List Effect) × ((load_adapter rt validate c batch base s).1.log ≡ s.log ++ d)
          × ((e : List Effect) → inferences (d ++ e) ≡ 0 + inferences e)
          × Uses c.candidate_id d
    unfolding load_adapter
    load_adapter-log s = elim (Outcome-cases (rt.reset_peak s.world).0) [
      | inl (u, e) ↦ (loaded key ∷ [], ground arith, λ e. omega arith, (eqb_refl key, tt))
      | inr (f, e) ↦ ([], ground (arith, append-nil s.log), λ e. omega arith, tt)
    ]

    -- A coherent outcome that logs nothing.
    Ends-now :
        {max before : ℕ} (body : Body) (s : State W)
        → IsCoherent max base body
        → length body.attempts ≡ before
        → Ends {W = W} key base max before s.log (ok body, s)
    Ends-now body s h n = record {
      during = [];
      log = sym (append-nil s.log);
      uses = tt;
      outcome = (h, omega (arith, n));
    }

    -- The records of a pass and of a failure, once the memory is read.
    passed-Ends :
        (max load_ms ms : ℕ) (pass : Pass) (o : Outcome (Option ℕ)) (s : State W)
        → KeepsIds pass
        → (peak : Option ℕ) × (o ≡ ok peak)
        → Ends {W = W} key base max 1 s.log
            (ok (succeeded_measured load_ms ms [] 1 initial ms false pass o), s)
    passed-Ends max load_ms ms pass (ok peak) s k h = Ends-now _ s (ground arith) refl
    passed-Ends max load_ms ms pass (raised g) s k (peak, h) = absurd (ground arith)

    repaired-Ends :
        (max load_ms first_ms ms : ℕ) (first : StageAttempt) (pass : Pass) (o : Outcome (Option ℕ))
        (s : State W)
        → 1 ≤ max
        → first.inference_ms ≡ first_ms
        → KeepsIds pass
        → (peak : Option ℕ) × (o ≡ ok peak)
        → Ends {W = W} key base max 2 s.log (
          ok (succeeded_measured load_ms (first_ms + ms) (first ∷ []) 2 repair ms true pass o),
          s,
        )
    repaired-Ends max load_ms first_ms ms first pass (ok peak) s h e k m =
        Ends-now _ s (ground arith) refl
    repaired-Ends max load_ms first_ms ms first pass (raised g) s h e k (peak, m) =
        absurd (ground arith)

    unrepaired-Ends :
        (max load_ms first_ms ms : ℕ) (first : StageAttempt) (f : Fault) (o : Outcome (Option ℕ))
        (s : State W)
        → 1 ≤ max
        → first.inference_ms ≡ first_ms
        → (peak : Option ℕ) × (o ≡ ok peak)
        → Ends {W = W} key base max 2 s.log
            (ok (failed_measured load_ms (first_ms + ms) (first ∷ []) 2 repair ms f o), s)
    unrepaired-Ends max load_ms first_ms ms first f (ok peak) s h e m =
        Ends-now _ s (ground arith) refl
    unrepaired-Ends max load_ms first_ms ms first f (raised g) s h e (peak, m) =
        absurd (ground arith)

    after_repair-Ends :
        (max load_ms first_ms started : ℕ) (first : StageAttempt) (second : Outcome Pass)
        (s : State W)
        → 1 ≤ max
        → first.inference_ms ≡ first_ms
        → WhenOk KeepsIds second
        → Ends key base max 2 s.log
            (after_repair rt validate c batch base load_ms first_ms started first second s)
    unfolding after_repair
    after_repair-Ends max load_ms first_ms started first (raised f) s h e k =
        unrepaired-Ends max load_ms first_ms _ first f _ _ h e (clean.measures _)
    after_repair-Ends max load_ms first_ms started first (ok pass) s h e k =
        repaired-Ends max load_ms first_ms _ first pass _ _ h e k (clean.measures _)

    Ends-infer :
        {max before : ℕ} {start : List Effect} (b : Bool) (s : State W) (r : Outcome Body × State W)
        → s.log ≡ start
        → Ends key base max (1 + before) (infer_pass rt validate c batch base b s).1.log r
        → Ends key base max before start r
    Ends-infer {max} {before} {start} b s r e ends =
        Ends-after (inferred c.candidate_id b ∷ []) 1 r (λ d. omega arith) (eqb_refl key, tt)
          (subst (λ l. Ends key base max (1 + before) l r)
            (infer_pass-log b s ∙ ap (λ l. l ++ inferred c.candidate_id b ∷ []) e) ends)

    after_failure-Ends :
        (max load_ms first_ms : ℕ) (f : Fault) (o : Outcome (Option ℕ)) (s : State W)
        → (peak : Option ℕ) × (o ≡ ok peak)
        → Ends key base max 1 s.log
            (after_failure rt validate c batch base max load_ms first_ms f o s)
    unfolding after_failure
    after_failure-Ends max load_ms first_ms f (raised g) s (peak, h) = absurd (ground arith)
    after_failure-Ends max load_ms first_ms f (ok peak) s h =
        Ends-if (is_invalid_output f) _ _ s
          (λ invalid. Ends-if (ltb max 1) _ _ s (λ _. stops) again) (λ _. stops)
      where
        first : StageAttempt
        first = failed_attempt 1 initial first_ms peak f

        stops :
            Ends {W = W} key base max 1 s.log (pure (failed_body load_ms first_ms (first ∷ []) f) s)
        stops = Ends-now _ s (ground arith) refl

        restart : State W
        restart = record s { world = (rt.clock s.world).1 }

        second : Outcome Pass × State W
        second = infer_pass rt validate c batch base true restart

        again :
            ltb max 1 ≡ false
            → Ends key base max 1 s.log (
                after_repair rt validate c batch base load_ms first_ms
                  (rt.clock s.world).0
                  first
                  second.0
                  second.1)
        again allowed = Ends-infer true restart _ refl (
            after_repair-Ends max load_ms first_ms (rt.clock s.world).0 first second.0 second.1
              (ground arith) refl (infer_pass-KeepsIds true restart))

    after_first-Ends :
        (max load_ms started : ℕ) (first : Outcome Pass) (s : State W)
        → WhenOk KeepsIds first
        → Ends key base max 1 s.log
            (after_first rt validate c batch base max load_ms started first s)
    unfolding after_first
    after_first-Ends max load_ms started (ok pass) s k =
        passed-Ends max load_ms _ pass _ _ k (clean.measures _)
    after_first-Ends max load_ms started (raised f) s k =
        after_failure-Ends max load_ms _ f _ _ (clean.measures _)

    after_load-Ends :
        (max started : ℕ) (o : Outcome (Unit {0})) (s : State W)
        → Ends key base max 0 s.log (after_load rt validate c batch base max started o s)
    unfolding after_load
    after_load-Ends max started (raised f) s = record {
      during = [];
      log = sym (append-nil s.log);
      uses = tt;
      outcome = (ground arith, refl);
    }
    after_load-Ends max started (ok u) s =
        Ends-infer false (record s { world = (rt.clock (rt.clock s.world).1).1 }) _ refl
          (after_first-Ends max _ _ _ _ (infer_pass-KeepsIds false _))

    pub try_candidate-Ends :
        (max started : ℕ) (s : State W)
        → Ends key base max 0 s.log (try_candidate rt validate c batch base max started s)
    unfolding try_candidate
    try_candidate-Ends max started s =
        let (o, s') = load_adapter rt validate c batch base s in
        let (d, l, none_yet, quiet) = load_adapter-log s in
        Ends-after d 0 _ none_yet quiet (
          subst (λ l. Ends key base max 0 l (after_load rt validate c batch base max started o s'))
            l (after_load-Ends max started o s'))
