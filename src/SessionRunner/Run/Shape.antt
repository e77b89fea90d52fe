-- ===== src/SessionRunner/Run/Shape.antt =====
-- What a session returns has one run and one trace for each stage.
use fireviewer_orchestrator.Common.{
  ℕ, ◌+◌, true, Option, none, some, List, [], ◌∷◌, ◌++◌, ◌≡◌, refl, sym, ap, ◌∙◌, subst, arith, All,
  length, length-append, map, Bool-cases, inl, inr,
}
use mathlib.Core.List.{append_assoc, append-nil}
use fireviewer_orchestrator.Common.Order.{Ord, string_ord}
use fireviewer_orchestrator.Contracts.{WorkerInput, ModelGroupSpec, ModelSpec, ItemResult}
use fireviewer_orchestrator.StageGates.{StageGateRecord}
use fireviewer_orchestrator.SessionRunner.Effects.{Outcome, ok, raised, State, Runtime, Cleans}
use fireviewer_orchestrator.SessionRunner.Patches.{Results, PipelineModelRole, role_order}
use fireviewer_orchestrator.SessionRunner.Initial.{initial_results}
use fireviewer_orchestrator.SessionRunner.Candidate.{ModelRun, CandidateExecution}
use fireviewer_orchestrator.SessionRunner.Candidate.Laws.{WhenOk}
use fireviewer_orchestrator.SessionRunner.Stage.{
  Session, Loop, StageTrace, ConsensusEvaluation, ConsensusResult, is_proceed, primary_spec,
}
use fireviewer_orchestrator.SessionRunner.Stage.Laws.{Reliable, Agrees, select-Agrees}
use fireviewer_orchestrator.SessionRunner.Stage.Execute.{Judged, judge_stage}
use fireviewer_orchestrator.SessionRunner.Stage.Settle.{
  Verdict, select, skip_stage, unconfigured_stage, settle_verdict, settle_stage,
}
use fireviewer_orchestrator.SessionRunner.Run.{
  SessionRunResult, items_of, finish, finish_items, settle_executions, execute_stage, branch_stage,
  run_stage, run_stages, start, run_session, run_with_trace,
}
use fireviewer_orchestrator.SessionRunner.Run.Protocol.{run_with_trace-outcome}
use fireviewer_orchestrator.SessionRunner.Run.Yields.{
  Yields, Yields-continue, Yields-if, numbered, numbered-append_one, WhenOk-any, items_of-length,
  map-append_one,
}
use fireviewer_orchestrator.SessionRunner.Run.Executions.{run_candidates-Yields}

module _ {W Cap : Type 0} ⦃o : Ord Cap⦄ (rt : Runtime W) (session : Session Cap)
    (batch : WorkerInput) where
  -- The runs and traces of the stages in `done`, and the ids of the results.
  pub record Progress (done : List PipelineModelRole) (l : Loop Cap) : Type 0 where
    pub roles : map (λ (r : ModelRun). r.model_role) l.runs ≡ done
    pub statuses :
        map (λ (r : ModelRun). r.status) l.runs ≡ map (λ (t : StageTrace). t.status) l.stage_traces
    pub sequences : map (λ (t : StageTrace). t.sequence) l.stage_traces ≡ numbered 1 done

  -- One more run and one more trace, of the same status.
  Progress-append :
      (done : List PipelineModelRole) (role : PipelineModelRole) (l l' : Loop Cap) (run : ModelRun)
      (trace : StageTrace)
      → Progress done l
      → l'.runs ≡ l.runs ++ run ∷ []
      → l'.stage_traces ≡ l.stage_traces ++ trace ∷ []
      → run.model_role ≡ role
      → run.status ≡ trace.status
      → trace.sequence ≡ 1 + length done
      → Progress (done ++ role ∷ []) l'
  Progress-append done role l l' run trace p er et rr rs ts = record {
    roles =
        ap (map (λ (r : ModelRun). r.model_role)) er
        ∙ map-append_one (λ (r : ModelRun). r.model_role) l.runs run
        ∙ ground (arith, p.roles);
    statuses =
        ap (map (λ (r : ModelRun). r.status)) er
        ∙ map-append_one (λ (r : ModelRun). r.status) l.runs run
        ∙ ground (arith, p.statuses)
        ∙ sym (map-append_one (λ (t : StageTrace). t.status) l.stage_traces trace)
        ∙ ap (map (λ (t : StageTrace). t.status)) (sym et);
    sequences =
        ap (map (λ (t : StageTrace). t.sequence)) et
        ∙ map-append_one (λ (t : StageTrace). t.sequence) l.stage_traces trace
        ∙ ground (arith, p.sequences, numbered-append_one 1 done role);
  }

  -- What a session returns, if it does.
  pub record IsComplete (out : SessionRunResult Cap) : Type 0 where
    pub roles : map (λ (r : ModelRun). r.model_role) out.output.model_runs ≡ role_order
    pub statuses :
        map (λ (r : ModelRun). r.status) out.output.model_runs
        ≡ map (λ (t : StageTrace). t.status) out.stage_traces
    pub sequences : map (λ (t : StageTrace). t.sequence) out.stage_traces ≡ 1 ∷ 2 ∷ 3 ∷ 4 ∷ []
    pub one_each : length out.output.items ≡ length batch.items

  WhenOk-bind :
      {A B : Type 0} (P : B → Type 0) (o : Outcome A) (k : A → Outcome B)
      → ((a : A) → o ≡ ok a → WhenOk P (k a))
      → WhenOk P (elim o [ raised f ↦ raised f | ok a ↦ k a ])
  WhenOk-bind P (raised f) k h = tt
  WhenOk-bind P (ok a) k h = h a refl

  module _ (done : List PipelineModelRole) (role : PipelineModelRole) (l : Loop Cap)
      (progress : Progress done l) where
    settle_verdict-Progress :
        (before : List Cap) (gate : StageGateRecord Cap) (es : List CandidateExecution) (j : Judged)
        (result : ConsensusResult) (elapsed : ℕ) (v : Verdict)
        → v.run.status ≡ v.status
        → v.run.model_role ≡ role
        → WhenOk (Progress (done ++ role ∷ [])) (
            settle_verdict session role (1 + length done) batch before gate es j result elapsed l v)
    unfolding settle_verdict
    settle_verdict-Progress before gate es j result elapsed v same_status same_role =
        WhenOk-bind (Progress (done ++ role ∷ [])) (session.checks.check_trace _) _
          λ u e. Progress-append done role l _ _ _ progress refl refl same_role same_status refl

    settle_stage-Progress :
        (before : List Cap) (gate : StageGateRecord Cap) (group : ModelGroupSpec)
        (e : CandidateExecution) (es : List CandidateExecution) (j : Judged) (elapsed : ℕ)
        → All (Reliable role) (e ∷ es)
        → WhenOk (Progress (done ++ role ∷ [])) (
            settle_stage session role
              (1 + length done)
              batch
              before
              gate
              group
              e
              (e ∷ es)
              j
              elapsed
              l)
    unfolding settle_stage
    settle_stage-Progress before gate group e es j elapsed h =
        let chosen = select role l.results e (e ∷ es) j.evaluation in
        WhenOk-bind (Progress (done ++ role ∷ [])) (session.checks.check_consensus _) _ λ u q.
          WhenOk-bind (Progress (done ++ role ∷ [])) chosen _ λ v found.
            let a =
              subst (WhenOk (Agrees role l.results)) found
                (select-Agrees role l.results e es j.evaluation h) in
            settle_verdict-Progress before gate (e ∷ es) j _ elapsed v a.same_status a.same_role

    settle_executions-Yields :
        (before : List Cap) (gate : StageGateRecord Cap) (group : ModelGroupSpec)
        (es : List CandidateExecution) (j : Judged) (elapsed : ℕ)
        → All (Reliable role) es
        → Yields (Progress (done ++ role ∷ [])) (
            settle_executions rt session batch
              (1 + length done)
              role
              before
              gate
              group
              es
              j
              elapsed
              l)
    unfolding settle_executions
    settle_executions-Yields before gate group [] j elapsed h s = tt
    settle_executions-Yields before gate group (e ∷ es) j elapsed h s =
        settle_stage-Progress before gate group e es j elapsed h

    skip_stage-Progress :
        (spec : Option ModelSpec) (gate : StageGateRecord Cap)
        → WhenOk
            (Progress (done ++ role ∷ []))
            (skip_stage session role (1 + length done) spec gate l)
    unfolding skip_stage
    skip_stage-Progress spec gate =
        WhenOk-bind (Progress (done ++ role ∷ [])) (session.checks.runs.check_run _) _ λ u e.
          WhenOk-bind (Progress (done ++ role ∷ [])) (session.checks.check_trace _) _
            λ v q. Progress-append done role l _ _ _ progress refl refl refl refl refl

    unconfigured_stage-Progress :
        (before : List Cap) (gate : StageGateRecord Cap)
        → WhenOk
            (Progress (done ++ role ∷ []))
            (unconfigured_stage session role (1 + length done) before gate l)
    unfolding unconfigured_stage
    unconfigured_stage-Progress before gate =
        WhenOk-bind (Progress (done ++ role ∷ [])) (session.checks.runs.check_run _) _ λ u e.
          WhenOk-bind (Progress (done ++ role ∷ [])) (session.checks.check_trace _) _
            λ v q. Progress-append done role l _ _ _ progress refl refl refl refl refl

    module _ (clean : Cleans rt) where
      execute_stage-Yields :
          (before : List Cap) (gate : StageGateRecord Cap) (group : ModelGroupSpec)
          → Yields
              (Progress (done ++ role ∷ []))
              (execute_stage rt session batch (1 + length done) role before gate group l)
      unfolding execute_stage
      execute_stage-Yields before gate group s =
          Yields-continue {W = W} {A = List CandidateExecution} {B = Loop Cap} (All (Reliable role))
            (Progress (done ++ role ∷ [])) _ _ _
            (run_candidates-Yields rt session batch clean role group l.results _ true
              group.candidates _)
            λ es h t.
              Yields-continue {W = W} {A = ConsensusEvaluation} {B = Loop Cap} (λ v. Unit)
                (Progress (done ++ role ∷ [])) (session.consensus.evaluate_consensus role group _) _
                t (WhenOk-any _)
                λ v u t'.
                  Yields-continue {W = W} {A = Judged} {B = Loop Cap} (λ j. Unit)
                    (Progress (done ++ role ∷ [])) (judge_stage rt session role group es v t').0 _ _
                    (WhenOk-any _) λ j w x. settle_executions-Yields before gate group es j _ h _

      branch_stage-Yields :
          (before : List Cap) (gate : StageGateRecord Cap) (group : Option ModelGroupSpec)
          (spec : Option ModelSpec)
          → Yields
              (Progress (done ++ role ∷ []))
              (branch_stage rt session batch (1 + length done) role before gate group spec l)
      unfolding branch_stage
      branch_stage-Yields before gate none spec s = elim (Bool-cases (is_proceed gate.decision)) [
        | inl open_gate ↦ rw open_gate (unconfigured_stage-Progress before gate)
        | inr closed ↦ rw closed (skip_stage-Progress spec gate)
      ]
      branch_stage-Yields before gate (some g) spec s =
          Yields-if {W = W} {A = Loop Cap} (Progress (done ++ role ∷ [])) (is_proceed gate.decision)
            _ _ s (λ _. execute_stage-Yields before gate g s) (λ _. skip_stage-Progress spec gate)

      run_stage-Yields :
          Yields
            (Progress (done ++ role ∷ []))
            (run_stage rt session batch (1 + length done) role l)
      unfolding run_stage
      run_stage-Yields s =
          Yields-continue {W = W} {A = Option ModelSpec} {B = Loop Cap} (λ m. Unit)
            (Progress (done ++ role ∷ [])) (primary_spec (session.registry role)) _ s (WhenOk-any _)
            λ m u t. branch_stage-Yields _ _ (session.registry role) m t

  module _ (clean : Cleans rt) where
    run_stages-Yields :
        (done roles : List PipelineModelRole) (n : ℕ) (l : Loop Cap)
        → n ≡ 1 + length done
        → Progress done l
        → Yields (Progress (done ++ roles)) (run_stages rt session batch n roles l)
    unfolding run_stages
    run_stages-Yields done [] n l e p s = subst (λ d. Progress d l) (sym (append-nil done)) p
    run_stages-Yields done (role ∷ roles) n l e p s =
        Yields-continue {W = W} {A = Loop Cap} {B = Loop Cap} (Progress (done ++ role ∷ []))
          (Progress (done ++ role ∷ roles)) (run_stage rt session batch n role l s).0 _ _
          (subst
            (λ k. WhenOk (Progress (done ++ role ∷ [])) (run_stage rt session batch k role l s).0)
            (sym e) (run_stage-Yields done role l p clean s))
          λ l' p' t.
            subst (λ d. WhenOk (Progress d) (run_stages rt session batch (n + 1) roles l' t).0)
              (append_assoc done (role ∷ []) roles)
              (run_stages-Yields (done ++ role ∷ []) roles (n + 1) l'
                (omega (arith, e, length-append done (role ∷ []))) p' t)

    finish-IsComplete :
        (l : Loop Cap) → Progress role_order l → WhenOk IsComplete (finish rt session batch l)
    unfolding finish
    finish-IsComplete l p =
        go (items_of batch.items l.results) (items_of-length batch.items l.results)
      where
        go :
            (o : Outcome (List ItemResult))
            → WhenOk (λ (rs : List ItemResult). length rs ≡ length batch.items) o
            → WhenOk IsComplete (finish_items rt session batch l o)
        go (ok items) h = WhenOk-bind IsComplete (session.checks.check_output _) _ λ u e. record {
          roles = p.roles;
          statuses = p.statuses;
          sequences = p.sequences;
          one_each = h;
        }
        go (raised f) h = tt

    -- Where the calls of the `finally` clauses return: if a session returns, its output has one model
    -- run for each role, in role order, one trace for each stage, numbered 1 to 4 with the status of
    -- its run, and one item for each item of the batch.
    pub run_with_trace-IsComplete :
        (s : State W) → WhenOk IsComplete (run_with_trace rt session batch s).0
    unfolding run_session
    run_with_trace-IsComplete s =
        subst (WhenOk IsComplete) (sym (run_with_trace-outcome rt session batch clean s)) (
          Yields-continue {W = W} {A = Results} {B = SessionRunResult Cap} (λ r. Unit) IsComplete
            (initial_results batch.items []) _ s (WhenOk-any _)
            λ base u t.
              let l : Loop Cap = start rt session batch base in
              let p : Progress [] l = record { roles = refl; statuses = refl; sequences = refl } in
              Yields-continue {W = W} {A = Loop Cap} {B = SessionRunResult Cap}
                (Progress role_order) IsComplete _ _ _
                (run_stages-Yields [] role_order 1 l refl p t) λ l' q v. finish-IsComplete l' q)
