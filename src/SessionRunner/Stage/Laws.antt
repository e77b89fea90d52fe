-- ===== src/SessionRunner/Stage/Laws.antt =====
-- What a stage takes from its candidates: the run that it reports and the results that it keeps.
use fireviewer_orchestrator.Common.{
  String, Bool, true, false, refl, Option, none, some, List, [], ◌∷◌, ◌≡◌, subst, arith, All,
  is_some, if◌then◌else◌, Bool-cases, Option-cases, inl, inr,
}
use fireviewer_orchestrator.Common.Order.{◌==◌, string_ord}
use fireviewer_orchestrator.StageGates.{succeeded, failed}
use fireviewer_orchestrator.SessionRunner.Patches.{Results, PipelineModelRole}
use fireviewer_orchestrator.SessionRunner.Candidate.{CandidateExecution}
use fireviewer_orchestrator.SessionRunner.Effects.{ok}
use fireviewer_orchestrator.SessionRunner.Candidate.Laws.{WhenOk}
use fireviewer_orchestrator.SessionRunner.Stage.{ConsensusEvaluation}
use fireviewer_orchestrator.SessionRunner.Stage.Execute.{successful_candidates}
use fireviewer_orchestrator.SessionRunner.Stage.Settle.{Verdict, find_selected, refuse, select}

-- What a stage relies on of a candidate's run.
pub record Reliable (role : PipelineModelRole) (e : CandidateExecution) : Type 0 where
  pub run_status : e.run.status ≡ (if is_some e.results then succeeded else failed)
  pub run_role : e.run.model_role ≡ role

All-find_selected :
    (P : CandidateExecution → Type 0) (k : Option String) (es : List CandidateExecution)
    (e : CandidateExecution)
    → All P es
    → find_selected k es ≡ some e
    → P e
unfolding find_selected
All-find_selected P none es e h q = absurd (ground arith)
All-find_selected P (some k) [] e h q = absurd (ground arith)
All-find_selected P (some k) (x ∷ es) e (p, h) q =
    elim (Bool-cases (x.candidate.candidate_id == k)) [
      | inl same ↦ subst P (ground arith) p
      | inr other ↦ All-find_selected P (some k) es e h (ground arith)
    ]

module _ (role : PipelineModelRole) (base : Results) where
  -- The run that a stage reports has the stage's status and role.
  pub record Agrees (v : Verdict) : Type 0 where
    pub same_status : v.run.status ≡ v.status
    pub same_role : v.run.model_role ≡ role

  module _ (first : CandidateExecution) (rest : List CandidateExecution)
      (evaluation : ConsensusEvaluation) where
    refuse-Agrees :
        Reliable role first → WhenOk Agrees (refuse role base first (first ∷ rest) evaluation)
    unfolding refuse successful_candidates
    refuse-Agrees h = go evaluation.reason_codes
      where
        go :
            (codes : List String)
            → WhenOk Agrees
                (refuse role base first (first ∷ rest) (record evaluation { reason_codes = codes }))
        go [] = tt
        go (code ∷ codes) = elim (Option-cases first.results) [
          | inl absent ↦ ground (arith, h.run_status, h.run_role)
          | inr (r, found) ↦ ground (arith, h.run_status, h.run_role)
        ]

    selected-Agrees :
        (e : CandidateExecution) (found : Option Results) (allowed : Bool)
        → Reliable role first
        → (is_some found ≡ true → e.run.status ≡ succeeded)
        → e.run.model_role ≡ role
        → WhenOk Agrees (elim found [
          | none ↦ refuse role base first (first ∷ rest) evaluation
          | some chosen ↦
              if allowed
              then ok (record {
                results = chosen;
                run = e.run;
                status = succeeded;
                error_code = none;
                attempts = e.attempts;
                errors = [];
              })
              else refuse role base first (first ∷ rest) evaluation
        ])
    selected-Agrees e none allowed h status same = refuse-Agrees h
    selected-Agrees e (some r) true h status same = record {
      same_status = status refl;
      same_role = same;
    }
    selected-Agrees e (some r) false h status same = refuse-Agrees h

    found-Agrees :
        (found : Option CandidateExecution)
        → Reliable role first
        → ((e : CandidateExecution) → found ≡ some e → Reliable role e)
        → WhenOk Agrees (elim found [
          | none ↦ refuse role base first (first ∷ rest) evaluation
          | some e ↦ elim e.results [
            | none ↦ refuse role base first (first ∷ rest) evaluation
            | some chosen ↦
                if evaluation.downstream_allowed
                then ok (record {
                  results = chosen;
                  run = e.run;
                  status = succeeded;
                  error_code = none;
                  attempts = e.attempts;
                  errors = [];
                })
                else refuse role base first (first ∷ rest) evaluation
          ]
        ])
    found-Agrees none h k = refuse-Agrees h
    found-Agrees (some e) h k =
        let r = k e refl in
        selected-Agrees e e.results evaluation.downstream_allowed h
          (λ q. ground (arith, r.run_status)) r.run_role

    pub select-Agrees :
        All (Reliable role) (first ∷ rest)
        → WhenOk Agrees (select role base first (first ∷ rest) evaluation)
    unfolding select
    select-Agrees h =
        found-Agrees (find_selected evaluation.selected_candidate_id (first ∷ rest)) h.0
          λ e found. All-find_selected (Reliable role) _ (first ∷ rest) e h found
