-- ===== src/IncidentUpdates.antt =====
-- incident_updates.py: the enrichment steps that a piece of temporal evidence asks for.
pub mod Laws
use fireviewer_orchestrator.Common.{
  String, ◌+++◌, Bool, true, false, Option, none, some, List, [], ◌∷◌, ◌++◌, ◌&&◌, if◌then◌else◌,
  nonempty, any, is_some,
}
use fireviewer_orchestrator.Common.Order.{Ord, ◌==◌, string_ord}
use fireviewer_orchestrator.Common.Sets.{contains}

pub record ProcessingStep : Type 0 where
  pub component : String
  pub status : String
  pub reason : String

-- The fields of `TemporalEvidence` that the plan reads; observations are opaque to it.
pub record TemporalEvidence (Observation : Type 0) : Type 0 where
  pub admissibility : String
  pub enrichment_state : String
  pub observed_at : Option String
  pub observations : List Observation
  pub media_kind : String
  pub needs_human_review : Bool
  pub processing : List ProcessingStep

abbrev pub step_of : String → String → String → ProcessingStep
step_of component status reason = record { component = component; status = status; reason = reason }

module _ {Observation : Type 0} where
  -- The steps for what the evidence shows, before the supervisor's and the fusion's.
  unfoldable pub perception_steps : TemporalEvidence Observation → List ProcessingStep
  perception_steps evidence =
      if nonempty evidence.observations
      then step_of "vision" "not_applicable" "spatial_observations_available"
        ∷ step_of "geolocation" "not_applicable" "spatial_observations_available"
        ∷ []
      else ((if contains evidence.media_kind ("image" ∷ "video" ∷ "satellite" ∷ [])
            then step_of "vision" "required" "visual_observations_missing" ∷ []
            else if evidence.media_kind == "audio"
            then step_of "transcription" "required" "audio_requires_text" ∷ []
            else [])
          ++ step_of "geolocation" "required" "spatial_observations_missing" ∷ [])

  unfoldable pub closing_steps : TemporalEvidence Observation → List ProcessingStep
  closing_steps evidence =
      let usable = nonempty evidence.observations && (evidence.admissibility == "admitted") in
      step_of "supervisor" (if evidence.needs_human_review then "required" else "not_applicable")
        (if evidence.needs_human_review then "ambiguous_evidence" else "no_ambiguity_declared")
      ∷ step_of "fusion" (if usable then "required" else "blocked")
          (if usable then "admitted_spatial_evidence" else "awaiting_admitted_spatial_evidence")
      ∷ []

  -- `plan_incident_enrichment`
  unfoldable pub plan_incident_enrichment : TemporalEvidence Observation → List ProcessingStep
  plan_incident_enrichment evidence =
      if contains evidence.admissibility ("withdrawn" ∷ "rejected" ∷ [])
      then step_of "fusion" "required" "replay_without_proof" ∷ []
      else if contains evidence.enrichment_state ("abstained" ∷ "failed" ∷ [])
      then (if nonempty evidence.processing
          then evidence.processing
          else step_of "fusion" "blocked" ("enrichment_" +++ evidence.enrichment_state) ∷ [])
      else if not_known evidence.observed_at
      then step_of "fusion" "blocked" "observation_time_unknown" ∷ []
      else perception_steps evidence ++ closing_steps evidence
    where
      not_known : Option String → Bool
      not_known none = true
      not_known (some t) = false
