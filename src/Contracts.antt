-- ===== src/Contracts.antt =====
-- The values of the package `fireviewer_contracts` that the orchestrator reads and builds: records
-- with the fields that its code names. The package's own validators are not modelled.
use fireviewer_orchestrator.Common.{ℕ, String, Bool, true, false, not, Option, none, some, List}
use fireviewer_orchestrator.Common.Order.{◌==◌, string_ord}

-- Python's truth of an optional text: `None` and `""` are false.
abbrev pub truthy : Option String → Bool
truthy none = false
truthy (some s) = not (s == "")

-- `s or default` at an optional text
abbrev pub text_or : Option String → String → String
text_or none d = d
text_or (some s) d = let keep : Bool = not (s == "") in elim keep [ true ↦ s | false ↦ d ]

-- The members of `StageCapability` that the code names. The enumeration itself is a parameter: a
-- type with the order of its values.
pub record CapabilityNames (Cap : Type 0) : Type 0 where
  pub audio_input : Cap
  pub visual_input : Cap
  pub text_input : Cap
  pub transcript : Cap
  pub selected_visual : Cap
  pub detection_regions : Cap
  pub grounded_regions : Cap
  pub factual_observations : Cap

-- `StageRole`: the members that the code tells apart; `other` is any member besides.
pub data StageRole : Type 0 where
  asr fire_detection visual_grounding fire_pointing : StageRole
  other : String → StageRole

-- `FailurePolicy`: the members that the code tells apart; `other` is any member besides.
pub data FailurePolicy : Type 0 where
  human_review block : FailurePolicy
  other : String → FailurePolicy

-- Durations are natural numbers of one small unit; they are only compared.
pub record StageContract (Cap : Type 0) : Type 0 where
  pub contract_id : String
  pub role : StageRole
  pub model_binding : String
  pub required_all : List Cap
  pub required_any : List Cap
  pub minimum_output_any : List Cap
  pub max_input_items : ℕ
  pub max_output_items_per_input : ℕ
  pub max_wall_time_seconds : ℕ
  pub max_repair_attempts : ℕ
  pub skip_when_not_applicable : Bool
  pub failure_policy : FailurePolicy

pub record VisualEvidenceSelection : Type 0 where
  pub evidence_id : String
  pub selected_for_grounding : Bool
  pub selection_reason : String

-- `LocationOrigin`: the members that the code tells apart; `other` is any member besides.
pub data LocationOrigin : Type 0 where
  metadata user_declared explicit_source_geometry human_confirmed : LocationOrigin
  other : String → LocationOrigin

-- `LocationStatus`: the members that the code builds.
pub data LocationStatus : Type 0 where
  no_location capture_location_only user_declared_observation_location : LocationStatus
  explicit_source_geometry human_confirmed_observation_location : LocationStatus

pub record PixelRegion : Type 0 where
  pub region_id : String
  pub evidence_id : String
  pub task : String
  pub label : String

-- Segments, facts, places and times are kept as they come: their serialised text stands for them.
pub record ItemResult : Type 0 where
  pub input_id : String
  pub segments : List String
  pub pixel_regions : List PixelRegion
  pub visual_evidence_selection : List VisualEvidenceSelection
  pub factual_observations : List String
  pub explicit_places : List String
  pub explicit_times : List String
  pub location_status : LocationStatus
  pub marker_origin : Option LocationOrigin
  pub capture_location_available : Bool
  pub capture_location_origin : Option LocationOrigin

pub record BatchItem : Type 0 where
  pub input_id : String
  pub audio_url : Option String
  pub working_file_url : Option String
  pub frame_ids : List String
  pub article_text : Option String
  pub latitude : Option String
  pub location_origin : Option LocationOrigin

pub record WorkerInput : Type 0 where
  pub batch_id : String
  pub items : List BatchItem

-- `ItemPatch`: `none` is a field that the adapter leaves out.
pub record ItemPatch : Type 0 where
  pub transcript : Option (List String)
  pub pixel_regions : Option (List PixelRegion)
  pub visual_evidence_selection : Option (List VisualEvidenceSelection)
  pub factual_observations : Option (List String)
  pub explicit_places : Option (List String)
  pub explicit_times : Option (List String)

pub record ModelSpec : Type 0 where
  pub model_id : String
  pub revision : String

pub record ModelCandidateSpec : Type 0 where
  pub candidate_id : String
  pub spec : ModelSpec
  pub rank : ℕ

-- `ConsensusStrategy`: the member that the code names; `other` is any member besides.
pub data ConsensusStrategy : Type 0 where
  cascade : ConsensusStrategy
  other : String → ConsensusStrategy

-- Thresholds and decisions are kept as their texts: the code only hands them on.
pub record ModelGroupSpec : Type 0 where
  pub role : String
  pub candidates : List ModelCandidateSpec
  pub strategy : ConsensusStrategy
  pub minimum_successful : ℕ
  pub minimum_agreeing : ℕ
  pub always_challenge : Bool
  pub adjudicator : Option ModelCandidateSpec
  pub adjudication_confidence_threshold : String
  pub disagreement_decision : String
  pub agreement_threshold : String
