-- ===== src/IncidentUpdates/Laws.antt =====
-- plan_incident_enrichment: which components a plan asks to run.
use fireviewer_orchestrator.Common.{
  String, Bool, true, false, List, [], ◌∷◌, ◌++◌, ◌≡◌, ◌&&◌, ◌||◌, not, refl, nonempty, any,
  any-append, is_some, arith, if◌then◌else◌,
}
use fireviewer_orchestrator.Common.Order.{◌==◌, string_ord}
use fireviewer_orchestrator.Common.Sets.{contains}
use fireviewer_orchestrator.IncidentUpdates.{
  ProcessingStep, TemporalEvidence, step_of, perception_steps, closing_steps,
  plan_incident_enrichment,
}

abbrev pub requires : String → List ProcessingStep → Bool
requires component steps =
    any (λ (s : ProcessingStep). (s.component == component) && (s.status == "required")) steps

requires-append :
    (c : String) (xs ys : List ProcessingStep)
    → requires c (xs ++ ys) ≡ (requires c xs || requires c ys)
requires-append c xs ys = any-append _ xs ys

nonempty-append_right :
    (xs ys : List ProcessingStep) → nonempty ys ≡ true → nonempty (xs ++ ys) ≡ true
nonempty-append_right [] ys h = h
nonempty-append_right (x ∷ xs) ys h = refl

requires-closing :
    (review usable : Bool) (r t : String)
    → requires "fusion" (
        step_of "supervisor" (if review then "required" else "not_applicable") r
        ∷ step_of "fusion" (if usable then "required" else "blocked") t
        ∷ [])
      ≡ usable
requires-closing false false r t = refl
requires-closing false true r t = refl
requires-closing true false r t = refl
requires-closing true true r t = refl

module _ {Observation : Type 0} where
  -- the evidence was withdrawn or rejected
  abbrev pub is_revoked : TemporalEvidence Observation → Bool
  is_revoked e = contains e.admissibility ("withdrawn" ∷ "rejected" ∷ [])

  -- an enrichment already ended without a result
  abbrev pub is_ended : TemporalEvidence Observation → Bool
  is_ended e = contains e.enrichment_state ("abstained" ∷ "failed" ∷ [])

  fusion-perception :
      (e : TemporalEvidence Observation) → requires "fusion" (perception_steps e) ≡ false
  unfolding perception_steps
  fusion-perception e = ground arith

  fusion-closing :
      (e : TemporalEvidence Observation)
      → requires "fusion" (closing_steps e)
        ≡ (nonempty e.observations && (e.admissibility == "admitted"))
  unfolding closing_steps
  fusion-closing e =
      requires-closing e.needs_human_review
        (nonempty e.observations && (e.admissibility == "admitted"))
        (if e.needs_human_review then "ambiguous_evidence" else "no_ambiguity_declared")
        (if nonempty e.observations && (e.admissibility == "admitted")
          then "admitted_spatial_evidence"
          else "awaiting_admitted_spatial_evidence")

  geolocation-perception :
      (e : TemporalEvidence Observation)
      → requires "geolocation" (perception_steps e) ≡ not (nonempty e.observations)
  unfolding perception_steps
  geolocation-perception e = ground arith

  geolocation-closing :
      (e : TemporalEvidence Observation) → requires "geolocation" (closing_steps e) ≡ false
  unfolding closing_steps
  geolocation-closing e = ground arith

  pub plan-nonempty :
      (e : TemporalEvidence Observation) → nonempty (plan_incident_enrichment e) ≡ true
  unfolding plan_incident_enrichment closing_steps
  plan-nonempty e = ground (arith, nonempty-append_right (perception_steps e) (closing_steps e))

  -- Where no processing is recorded, a plan asks for fusion exactly when the evidence was withdrawn or
  -- rejected, or it has a known time, usable admitted observations and no ended enrichment.
  pub plan-fusion :
      (e : TemporalEvidence Observation)
      → e.processing ≡ []
      → requires "fusion" (plan_incident_enrichment e) ≡ (
          is_revoked e
          || (not (is_ended e)
              && (is_some e.observed_at
                  && (nonempty e.observations && (e.admissibility == "admitted")))))
  unfolding plan_incident_enrichment
  plan-fusion e h = ground (
    arith,
    requires-append "fusion" (perception_steps e) (closing_steps e),
    fusion-perception e,
    fusion-closing e,
  )

  -- Where no processing is recorded, a plan asks for geolocation exactly when the evidence stands, its
  -- enrichment has not ended, its time is known and it has no observations.
  pub plan-geolocation :
      (e : TemporalEvidence Observation)
      → e.processing ≡ []
      → requires "geolocation" (plan_incident_enrichment e) ≡ (
          not (is_revoked e)
          && (not (is_ended e) && (is_some e.observed_at && not (nonempty e.observations))))
  unfolding plan_incident_enrichment
  plan-geolocation e h = ground (
    arith,
    requires-append "geolocation" (perception_steps e) (closing_steps e),
    geolocation-perception e,
    geolocation-closing e,
  )
