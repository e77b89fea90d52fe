-- ===== src/SessionRunner/Run/Protocol.antt =====
-- The order of the calls on adapters over a whole session, whatever raises but the calls of the
-- `finally` clauses.
use fireviewer_orchestrator.Common.{
  ℕ, ◌+◌, String, Bool, true, false, Option, none, some, List, [], ◌∷◌, ◌++◌, ◌≡◌, refl, sym, ap,
  ◌∙◌, arith, inl, inr, subst, if◌then◌else◌,
}
use mathlib.Core.List.{append_assoc, append-nil}
use fireviewer_orchestrator.Common.Order.{Ord, string_ord}
use fireviewer_orchestrator.Common.Sets.{eqb_refl}
use fireviewer_orchestrator.Contracts.{WorkerInput, ModelCandidateSpec, ModelGroupSpec, ModelSpec}
use fireviewer_orchestrator.StageGates.{StageGateRecord}
use fireviewer_orchestrator.SessionRunner.Effects.{
  model_output_error, output_validation_error, other_error, Outcome, ok, raised, Effect, created,
  loaded, released, finalized, scan, State, Exec, continue, ◌>>=◌, note, Payload, JudgeCandidate,
  ConsensusJudgeVerdict, Runtime, Cleans,
}
use fireviewer_orchestrator.SessionRunner.Patches.{Results, PipelineModelRole, role_order}
use fireviewer_orchestrator.SessionRunner.Candidate.{
  CandidateExecution, RunChecks, execute_candidate,
}
use fireviewer_orchestrator.SessionRunner.Candidate.Laws.{Outcome-cases, Uses-scan}
use fireviewer_orchestrator.SessionRunner.Candidate.Lifecycle.{
  execute_candidate-released, execute_candidate-uncreated,
}
use fireviewer_orchestrator.SessionRunner.Adjudicator.{
  JudgeBody, after_synchronize, after_correction, after_adjudicate, load_judge, after_judge_load,
  finish_judge, after_judge_create, execute_adjudicator,
}
use fireviewer_orchestrator.SessionRunner.Stage.{
  Session, Loop, ConsensusEvaluation, is_proceed, primary_spec,
}
use fireviewer_orchestrator.SessionRunner.Initial.{initial_results}
use fireviewer_orchestrator.SessionRunner.Stage.Execute.{
  Judged, is_enough, run_candidates, ask_judge, judge_stage,
}
use fireviewer_orchestrator.SessionRunner.Run.{
  settle_executions, execute_stage, branch_stage, run_stage, run_stages, start, run_session,
  run_with_trace,
}

-- From the log `start` to the log `end`, the protocol went from `a` to `b`.
pub record Leads (a b : Option String) (start end : List Effect) : Type 0 where
  pub during : List Effect
  pub log : end ≡ start ++ during
  pub leads : (e : List Effect) → scan a (during ++ e) ≡ scan b e

Leads-none : {a : Option String} (l : List Effect) → Leads a a l l
Leads-none l = record { during = []; log = sym (append-nil l); leads = λ e. refl }

Leads-trans :
    {a b c : Option String} {start middle end : List Effect}
    → Leads a b start middle
    → Leads b c middle end
    → Leads a c start end
Leads-trans {a = a} {start = start} p q = record {
  during = p.during ++ q.during;
  log = q.log ∙ ap (λ l. l ++ q.during) p.log ∙ append_assoc start p.during q.during;
  leads = λ e. ap (scan a) (append_assoc p.during q.during e) ∙ p.leads (q.during ++ e) ∙ q.leads e;
}

-- An action keeps the state of the protocol, also where it raises.
abbrev pub Keeps : {W A : Type 0} → Option String → Exec W A → Type 0
Keeps {W} a m = (s : State W) → Leads a a s.log (m s).1.log

Keeps-continue :
    {W A B : Type 0} {a : Option String} (o : Outcome A) (f : A → Exec W B) (s : State W)
    → ((x : A) (t : State W) → Leads a a t.log (f x t).1.log)
    → Leads a a s.log (continue o f s).1.log
Keeps-continue (ok x) f s k = k x s
Keeps-continue (raised e) f s k = Leads-none s.log

Keeps-bind :
    {W A B : Type 0} {a : Option String} (m : Exec W A) (f : A → Exec W B) (s : State W)
    → Leads a a s.log (m s).1.log
    → ((x : A) (t : State W) → Leads a a t.log (f x t).1.log)
    → Leads a a s.log ((m >>= f) s).1.log
Keeps-bind m f s km kf = Leads-trans km (Keeps-continue (m s).0 f (m s).1 kf)

Keeps-if :
    {W A : Type 0} {a : Option String} (b : Bool) (m n : Exec W A) (s : State W)
    → Leads a a s.log (m s).1.log
    → Leads a a s.log (n s).1.log
    → Leads a a s.log ((if b then m else n) s).1.log
Keeps-if true m n s k l = k
Keeps-if false m n s k l = l

module _ {W : Type 0} (rt : Runtime W) (c : ModelCandidateSpec) where
  create_adapter :
      (l : List Effect) → Leads none (some c.candidate_id) l (l ++ created c.candidate_id ∷ [])
  create_adapter l = record { during = created c.candidate_id ∷ []; log = refl; leads = λ e. refl }

  release_adapter :
      (l : List Effect) → Leads (some c.candidate_id) none l (l ++ released c.candidate_id ∷ [])
  release_adapter l = record {
    during = released c.candidate_id ∷ [];
    log = refl;
    leads = λ e. ground (arith, eqb_refl c.candidate_id);
  }

  module _ (cs : List JudgeCandidate) (p : List (String × String)) where
    load_judge-Keeps : Keeps (some c.candidate_id) (load_judge rt c cs p)
    unfolding load_judge
    load_judge-Keeps s = elim (Outcome-cases (rt.reset_peak s.world).0) [
      | inl (u, e) ↦ record {
        during = loaded c.candidate_id ∷ [];
        log = ground arith;
        leads = λ r. ground (arith, eqb_refl c.candidate_id);
      }
      | inr (f, e) ↦ record {
        during = [];
        log = ground (arith, append-nil s.log);
        leads = λ r. refl;
      }
    ]

    -- An action that returns and logs nothing.
    abbrev pub Silent : Exec W JudgeBody → Type 0
    Silent m = (s : State W) → ((body : JudgeBody) × ((m s).0 ≡ ok body)) × ((m s).1.log ≡ s.log)

    after_synchronize-Silent :
        (l i : ℕ) (r : Bool) (v : ConsensusJudgeVerdict) (o : Outcome (Unit {0}))
        → Silent (after_synchronize rt c cs p l i r v o)
    unfolding after_synchronize
    after_synchronize-Silent l i r v (ok _) s = ((_, refl), refl)
    after_synchronize-Silent l i r v (raised f) s = ((_, refl), refl)

    after_correction-Silent :
        (l i t : ℕ) (o : Outcome ConsensusJudgeVerdict)
        → Silent (after_correction rt c cs p l i t o)
    unfolding after_correction
    after_correction-Silent l i t (raised f) s = ((_, refl), refl)
    after_correction-Silent l i t (ok v) s = after_synchronize-Silent _ _ _ _ _ _

    after_adjudicate-Silent :
        (l t : ℕ) (o : Outcome ConsensusJudgeVerdict) → Silent (after_adjudicate rt c cs p l t o)
    unfolding after_adjudicate
    after_adjudicate-Silent l t (ok v) s = after_synchronize-Silent _ _ _ _ _ _
    after_adjudicate-Silent l t (raised model_output_error) s = after_correction-Silent _ _ _ _ _
    after_adjudicate-Silent l t (raised output_validation_error) s = ((_, refl), refl)
    after_adjudicate-Silent l t (raised other_error) s = ((_, refl), refl)

    pub after_judge_load-Silent : (o : Outcome ℕ) → Silent (after_judge_load rt c cs p o)
    unfolding after_judge_load
    after_judge_load-Silent (raised f) s = ((_, refl), refl)
    after_judge_load-Silent (ok l) s = after_adjudicate-Silent _ _ _ _

  module _ (clean : Cleans rt) (checks : RunChecks) (json_digest : Payload → String)
      (role : PipelineModelRole) (cs : List JudgeCandidate) (p : List (String × String)) where
    log-finish_judge :
        (body : JudgeBody) (s : State W)
        → (finish_judge rt checks json_digest role c cs p body s).1.log
          ≡ s.log ++ released c.candidate_id ∷ []
    unfolding finish_judge
    log-finish_judge body s =
        let (peak, e) = clean.measures s.world in
        let e' = clean.releases c (rt.peak_vram s.world).1 in rw (e, e')

    after_judge_create-Keeps :
        (o : Outcome (Unit {0}))
        → Keeps none (after_judge_create rt checks json_digest role c cs p o)
    unfolding after_judge_create
    after_judge_create-Keeps (raised f) s =
        Keeps-continue (rt.peak_vram s.world).0 _ (record s { world = (rt.peak_vram s.world).1 })
          λ x t. Leads-none t.log
    after_judge_create-Keeps (ok u) s =
        let s1 : State W = (note {W = W} (created c.candidate_id) s).1 in
        let (o, s2) = load_judge rt c cs p s1 in
        let ((body, e), quiet) = after_judge_load-Silent cs p o s2 in
        let released_last : Leads none none s.log
            ((after_judge_load rt c cs p o s2).1.log ++ released c.candidate_id ∷ []) =
          Leads-trans (create_adapter s.log) (
            Leads-trans
              (subst (Leads (some c.candidate_id) (some c.candidate_id) s1.log) (sym quiet)
                (load_judge-Keeps cs p s1))
              (release_adapter _)) in
        rw e (subst (Leads none none s.log) (sym (log-finish_judge body _)) released_last)

    execute_adjudicator-Keeps : Keeps none (execute_adjudicator rt checks json_digest role c cs p)
    unfolding execute_adjudicator
    execute_adjudicator-Keeps s = after_judge_create-Keeps _ _

module _ {W Cap : Type 0} ⦃o : Ord Cap⦄ (rt : Runtime W) (session : Session Cap)
    (batch : WorkerInput) (clean : Cleans rt) where
  execute_candidate-Keeps :
      (role : PipelineModelRole) (c : ModelCandidateSpec) (base : Results) (max : ℕ)
      → Keeps none (
          execute_candidate rt session.validate_item_result session.checks.runs session.json_digest
            role c batch base max)
  execute_candidate-Keeps role c base max s = elim (Outcome-cases (rt.create c s.world).0) [
    | inl (u, e) ↦
        let f =
          execute_candidate-released rt session.validate_item_result session.checks.runs
            session.json_digest role c batch base max clean s e in
        record {
          during = created c.candidate_id ∷ (f.during ++ released c.candidate_id ∷ []);
          log = f.log;
          leads = λ r.
              ap (scan (some c.candidate_id))
                (append_assoc f.during (released c.candidate_id ∷ []) r)
              ∙ Uses-scan c.candidate_id f.during (released c.candidate_id ∷ r) f.uses
              ∙ ground (arith, eqb_refl c.candidate_id);
        }
    | inr (f, e) ↦
        subst (Leads none none s.log)
          (sym
            (execute_candidate-uncreated rt session.validate_item_result session.checks.runs
              session.json_digest role c batch base max s e).1)
          (Leads-none s.log)
  ]

  module _ (role : PipelineModelRole) (group : ModelGroupSpec) where
    run_candidates-Keeps :
        (base : Results) (max : ℕ) (first : Bool) (cs : List ModelCandidateSpec)
        → Keeps none (run_candidates rt session role group batch base max first cs)
    unfolding run_candidates
    run_candidates-Keeps base max first [] s = Leads-none s.log
    run_candidates-Keeps base max first (c ∷ cs) s =
        Keeps-bind
          (execute_candidate rt session.validate_item_result session.checks.runs session.json_digest
            role c batch base max)
          _ s (execute_candidate-Keeps role c base max s)
          λ e t. Keeps-continue (is_enough session.consensus role group first e) _ t λ enough u.
            Keeps-if enough _ _ u (Leads-none u.log) (
              Keeps-bind (run_candidates rt session role group batch base max false cs) _ u
                (run_candidates-Keeps base max false cs u) λ es v. Leads-none v.log)

    ask_judge-Keeps :
        (executions : List CandidateExecution) (evaluation : ConsensusEvaluation)
        (adjudicator : Option ModelCandidateSpec)
        → Keeps none (ask_judge rt session role group executions evaluation adjudicator)
    unfolding ask_judge
    ask_judge-Keeps executions evaluation none s = Leads-none s.log
    ask_judge-Keeps executions evaluation (some c) s =
        Keeps-bind (execute_adjudicator rt session.checks.runs session.json_digest role c _ _) _ s
          (execute_adjudicator-Keeps rt c clean session.checks.runs session.json_digest role _ _ s)
          λ x t. Leads-none t.log

    judge_stage-Keeps :
        (executions : List CandidateExecution) (evaluation : ConsensusEvaluation)
        → Keeps none (judge_stage rt session role group executions evaluation)
    unfolding judge_stage
    judge_stage-Keeps executions evaluation s =
        Keeps-if evaluation.requires_adjudication _ _ s (ask_judge-Keeps executions evaluation _ s)
          (Leads-none s.log)

    settle_executions-Keeps :
        (n : ℕ) (before : List Cap) (gate : StageGateRecord Cap) (es : List CandidateExecution)
        (j : Judged) (t : ℕ) (l : Loop Cap)
        → Keeps none (settle_executions rt session batch n role before gate group es j t l)
    unfolding settle_executions
    settle_executions-Keeps n before gate [] j t l s = Leads-none s.log
    settle_executions-Keeps n before gate (e ∷ es) j t l s = Leads-none s.log

    execute_stage-Keeps :
        (n : ℕ) (before : List Cap) (gate : StageGateRecord Cap) (l : Loop Cap)
        → Keeps none (execute_stage rt session batch n role before gate group l)
    unfolding execute_stage
    execute_stage-Keeps n before gate l s =
        Keeps-bind (run_candidates rt session role group batch l.results _ true group.candidates) _
          _ (run_candidates-Keeps l.results _ true group.candidates _)
          λ es t. Keeps-continue (session.consensus.evaluate_consensus role group _) _ t λ v u.
            Keeps-bind (judge_stage rt session role group es v) _ u (judge_stage-Keeps es v u)
              λ j w. settle_executions-Keeps n before gate es j _ l _

  branch_stage-Keeps :
      (n : ℕ) (role : PipelineModelRole) (before : List Cap) (gate : StageGateRecord Cap)
      (group : Option ModelGroupSpec) (spec : Option ModelSpec) (l : Loop Cap)
      → Keeps none (branch_stage rt session batch n role before gate group spec l)
  unfolding branch_stage
  branch_stage-Keeps n role before gate none spec l s = Leads-none s.log
  branch_stage-Keeps n role before gate (some g) spec l s =
      Keeps-if (is_proceed gate.decision) _ _ s (execute_stage-Keeps role g n before gate l s)
        (Leads-none s.log)

  run_stages-Keeps :
      (n : ℕ) (roles : List PipelineModelRole) (l : Loop Cap)
      → Keeps none (run_stages rt session batch n roles l)
  unfolding run_stages run_stage
  run_stages-Keeps n [] l s = Leads-none s.log
  run_stages-Keeps n (role ∷ roles) l s =
      Keeps-bind (run_stage rt session batch n role l) _ s
        (Keeps-continue (primary_spec (session.registry role)) _ s
          λ spec t. branch_stage-Keeps n role _ _ (session.registry role) spec l t)
        λ l' t. run_stages-Keeps (n + 1) roles l' t

  run_session-Keeps : Keeps none (run_session rt session batch)
  unfolding run_session
  run_session-Keeps s = Keeps-continue (initial_results batch.items []) _ s λ results t.
      Keeps-bind (run_stages rt session batch 1 role_order (start rt session batch results)) _ t
        (run_stages-Keeps 1 role_order _ t) λ l u. Leads-none u.log

  -- The run's outcome is the session's, and the end of the job is the last call.
  pub run_with_trace-outcome :
      (s : State W) → (run_with_trace rt session batch s).0 ≡ (run_session rt session batch s).0
  unfolding run_with_trace
  run_with_trace-outcome s = rw (clean.finalizes (run_session rt session batch s).1.world) refl

  pub run_with_trace-protocol :
      (s : State W)
      → s.log ≡ []
      → (during : List Effect) × ((run_with_trace rt session batch s).1.log
          ≡ during ++ finalized ∷ [])
        × (scan none during ≡ some none)
        × (scan none ((run_with_trace rt session batch s).1.log) ≡ some none)
        × ((run_with_trace rt session batch s).0 ≡ (run_session rt session batch s).0)
  unfolding run_with_trace
  run_with_trace-protocol s empty =
      let l = run_session-Keeps s in
      let ended = clean.finalizes (run_session rt session batch s).1.world in
      let same : (run_session rt session batch s).1.log ≡ l.during =
        l.log ∙ ap (λ t. t ++ l.during) empty in
      (
        l.during,
        rw ended (ap (λ t. t ++ finalized ∷ []) same),
        ap (scan none) (sym (append-nil l.during)) ∙ l.leads [],
        rw ended (ap (λ t. scan none (t ++ finalized ∷ [])) same ∙ l.leads (finalized ∷ [])),
        run_with_trace-outcome s,
      )
