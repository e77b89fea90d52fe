-- ===== src/StageGates/Engine/Postflight.antt =====
-- What `postflight` promises.
use fireviewer_orchestrator.Common.{
  ℕ, ◌≤◌, ◌<◌, String, Bool, true, false, not, Option, none, some, List, [], ◌∷◌, ◌≡◌, ◌↔◌, ◌⊎◌,
  inl, inr, refl, ap, arith, eq_iff, nonempty, Bool-cases,
}
use fireviewer_orchestrator.Common.Order.{Ord, ◌==◌, string_ord}
use fireviewer_orchestrator.Common.Sets.{
  contains, minus, intersection, contains-minus, contains-intersection, nonempty-false_iff,
  eqb_refl,
}
use fireviewer_orchestrator.Contracts.{text_or, CapabilityNames, StageContract}
use fireviewer_orchestrator.StageGates.{
  GateDecision, StageStatus, succeeded, failed, skipped, is_runtime_error,
}
use fireviewer_orchestrator.StageGates.Engine.{preflight, postflight, postflight_succeeded}

-- one reason code, and not the empty one
abbrev pub is_one_reason : List String → Bool
is_one_reason [] = false
is_one_reason (code ∷ []) = not (code == "")
is_one_reason (code ∷ other ∷ rest) = false

text_or-reason :
    (e : Option String) (d : String) → (d == "") ≡ false → is_one_reason (text_or e d ∷ []) ≡ true
text_or-reason none d h = rw h
text_or-reason (some s) d h = ground arith

is_runtime_error_iff :
    (e : Option String) → (is_runtime_error e ≡ true) ↔ (e ≡ some "model_runtime_error")
is_runtime_error_iff none = (λ h. ground arith, λ h. ground arith)
is_runtime_error_iff (some s) =
    (λ h. ap some ((eq_iff s "model_runtime_error").0 h), λ h. (eq_iff s _).1 (ground arith))

module _ {Cap : Type 0} ⦃o : Ord Cap⦄ where
  some_member : (xs : List Cap) → nonempty xs ≡ true → (c : Cap) × (contains c xs ≡ true)
  some_member [] h = absurd (cc)
  some_member (x ∷ xs) h = (x, ground (arith, eqb_refl x))

  -- `c` is new after the stage, and one of the outputs that the contract asks for.
  pub record IsNewOutput (contract : StageContract Cap) (before after : List Cap) (c : Cap)
      : Type 0 where
    pub at_hand : contains c after ≡ true
    pub is_new : contains c before ≡ false
    pub asked : contains c contract.minimum_output_any ≡ true

  module _ (contract : StageContract Cap) (before after : List Cap) where
    contains-produced :
        (c : Cap)
        → contains c (intersection (minus after before) contract.minimum_output_any) ≡ true
        → IsNewOutput contract before after c
    contains-produced c h = ground (
      arith,
      h,
      contains-intersection c (minus after before) contract.minimum_output_any,
      contains-minus c after before,
    )

    produced_of_IsNewOutput :
        (c : Cap)
        → IsNewOutput contract before after c
        → nonempty (intersection (minus after before) contract.minimum_output_any) ≡ true
    produced_of_IsNewOutput c new =
        elim (Bool-cases
          (nonempty (intersection (minus after before) contract.minimum_output_any))) [
            | inl some_new ↦ some_new
            | inr none_new ↦ absurd (
                ground (
                  arith,
                  (nonempty-false_iff
                        (intersection (minus after before) contract.minimum_output_any)).0
                      none_new c,
                  contains-intersection c (minus after before) contract.minimum_output_any,
                  contains-minus c after before,
                ))
          ]

  -- A finished stage passes exactly when it succeeded in time, within the output limit, and
  -- added one of the outputs that its contract asks for.
  pub postflight-proceed_iff :
      (contract : StageContract Cap) (before after : List Cap) (status : StageStatus)
      (error_code : Option String) (elapsed_seconds maximum_output_items : ℕ)
      → let gate =
          postflight contract before after status error_code elapsed_seconds maximum_output_items in
        (gate.decision ≡ GateDecision.proceed) ↔ (
          (status ≡ succeeded)
          × (elapsed_seconds ≤ contract.max_wall_time_seconds)
          × (maximum_output_items ≤ contract.max_output_items_per_input)
          × ((c : Cap) × IsNewOutput contract before after c))
  unfolding postflight
  postflight-proceed_iff contract before after failed e t m =
      (λ h. absurd (ground arith), λ h. absurd (ground arith))
  postflight-proceed_iff contract before after skipped e t m =
      (λ h. absurd (ground arith), λ h. absurd (ground arith))
  postflight-proceed_iff contract before after succeeded e t m = (
    λ h.
        let produced : nonempty (intersection (minus after before) contract.minimum_output_any)
            ≡ true =
          ground arith in
        let (c, member) =
          some_member (intersection (minus after before) contract.minimum_output_any) produced in
        (refl, ground arith, ground arith, (c, contains-produced contract before after c member)),
    λ h. ground (arith, produced_of_IsNewOutput contract before after h.3.0 h.3.1),
  )

  -- A finished stage may be retried exactly when it failed with a runtime error of the model, or
  -- succeeded after its wall time; a skipped stage never is and never closes the way.
  pub postflight-retryable_iff :
      (contract : StageContract Cap) (before after : List Cap) (status : StageStatus)
      (error_code : Option String) (elapsed_seconds maximum_output_items : ℕ)
      → let gate =
          postflight contract before after status error_code elapsed_seconds maximum_output_items in
        ((gate.decision ≡ GateDecision.failed_retryable) ↔ (
          ((status ≡ failed) × (error_code ≡ some "model_runtime_error"))
          ⊎ ((status ≡ succeeded) × (contract.max_wall_time_seconds < elapsed_seconds))))
        × (status ≡ skipped → gate.downstream_possible ≡ true)
  unfolding postflight
  postflight-retryable_iff contract before after failed e t m = (
    (
      λ h. inl (refl, (is_runtime_error_iff e).0 (ground arith)),
      λ h. ground (arith, (is_runtime_error_iff e).1),
    ),
    λ h. absurd (ground arith),
  )
  postflight-retryable_iff contract before after skipped e t m =
      ((λ h. absurd (ground arith), λ h. absurd (ground arith)), λ h. refl)
  postflight-retryable_iff contract before after succeeded e t m =
      ((λ h. inr (refl, ground arith), λ h. ground arith), λ h. absurd (ground arith))

  -- Every record of either gate carries exactly one reason code, and it is not empty, whatever
  -- error code the stage reports.
  pub gate-reason_codes :
      (n : CapabilityNames Cap) (contract : StageContract Cap) (before after : List Cap)
      (status : StageStatus) (error_code : Option String)
      (input_items elapsed_seconds maximum_output_items : ℕ)
      → (is_one_reason (preflight n contract before input_items).reason_codes ≡ true)
        × (is_one_reason
              (postflight contract before after status error_code elapsed_seconds
                maximum_output_items).reason_codes
            ≡ true)
  unfolding preflight postflight postflight_succeeded
  gate-reason_codes n contract before after failed e k t m =
      (ground arith, text_or-reason e "stage_failed" refl)
  gate-reason_codes n contract before after skipped e k t m =
      (ground arith, text_or-reason e "stage_skipped" refl)
  gate-reason_codes n contract before after succeeded e k t m = (ground arith, ground arith)
