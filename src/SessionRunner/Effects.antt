-- ===== src/SessionRunner/Effects.antt =====
-- The runtime that a session drives: adapters, GPU memory and the clock, all of other packages.
-- An action may raise; what was done before stays done, and every call on an adapter is logged.
use fireviewer_orchestrator.Common.{
  ℕ, String, Bool, true, false, Option, none, some, List, [], ◌∷◌, ◌++◌, ◌≡◌, if◌then◌else◌,
}
use fireviewer_orchestrator.Common.Order.{◌==◌, string_ord}
use fireviewer_orchestrator.Contracts.{BatchItem, ItemPatch, ModelCandidateSpec}

-- The exceptions that the code tells apart.
pub data Fault : Type 0 where
  model_output_error output_validation_error other_error : Fault

-- `except (ModelOutputError, OutputValidationError)`
abbrev pub is_invalid_output : Fault → Bool
is_invalid_output model_output_error = true
is_invalid_output output_validation_error = true
is_invalid_output other_error = false

-- `except ModelOutputError`
abbrev pub is_model_output : Fault → Bool
is_model_output model_output_error = true
is_model_output _ = false

pub data Outcome {ℓ} (A : Type ℓ) : Type ℓ where
  ok : A → Outcome A
  raised : Fault → Outcome A

-- Calls on the adapters of candidates, by candidate id, and the end of the job.
pub data Effect : Type 0 where
  created loaded released : String → Effect
  inferred : String → Bool → Effect
  finalized : Effect

-- The protocol of the log, with the adapter that is alive: one at most, created before it is used,
-- released before another is created and before the job ends, and nothing after the end. `none` is a
-- breach.
abbrev pub scan : Option String → List Effect → Option (Option String)
scan alive [] = some alive
scan none (created k ∷ es) = scan (some k) es
scan none (finalized ∷ []) = some none
scan none (finalized ∷ e ∷ es) = none
scan none (loaded k ∷ es) = none
scan none (released k ∷ es) = none
scan none (inferred k b ∷ es) = none
scan (some j) (created k ∷ es) = none
scan (some j) (finalized ∷ es) = none
scan (some j) (loaded k ∷ es) = if j == k then scan (some j) es else none
scan (some j) (released k ∷ es) = if j == k then scan none es else none
scan (some j) (inferred k b ∷ es) = if j == k then scan (some j) es else none

pub record State (W : Type 0) : Type 0 where
  pub world : W
  pub log : List Effect

abbrev pub Exec : Type 0 → Type 0 → Type 0
Exec W A = State W → Outcome A × State W

module _ {W : Type 0} where
  abbrev pub pure : {A : Type 0} → A → Exec W A
  pure a s = (ok a, s)

  abbrev pub raise : {A : Type 0} → Fault → Exec W A
  raise f s = (raised f, s)

  abbrev pub lift : {A : Type 0} → Outcome A → Exec W A
  lift r s = (r, s)

  abbrev pub continue : {A B : Type 0} → Outcome A → (A → Exec W B) → Exec W B
  continue (ok a) f s = f a s
  continue (raised e) f s = (raised e, s)

  infixl 10 ◌>>=◌ ◌>>◌
  abbrev pub ◌>>=◌ : {A B : Type 0} → Exec W A → (A → Exec W B) → Exec W B
  ◌>>=◌ m f s = continue (m s).0 f (m s).1

  abbrev pub ◌>>◌ : {A B : Type 0} → Exec W A → Exec W B → Exec W B
  m >> n = m >>= λ _. n

  -- `try`: the outcome as a value.
  abbrev pub attempt : {A : Type 0} → Exec W A → Exec W (Outcome A)
  attempt m s = (ok (m s).0, (m s).1)

  abbrev pub note : Effect → Exec W (Unit {0})
  note e s = (ok tt, record s { log = s.log ++ e ∷ [] })

-- What a verdict of the consensus judge carries, as its serialised text.
pub record ConsensusJudgeVerdict : Type 0 where
  pub output_payload : String

-- A payload that is serialised and digested.
pub data Payload : Type 0 where
  patches : List (String × ItemPatch) → Payload
  verdict : String → Payload
  comparison : List (String × String) → Payload

pub record JudgeCandidate : Type 0 where
  pub candidate_id : String
  pub model_id : String
  pub revision : String
  pub output_payload : Payload

-- The operations of the runtime. The clock counts milliseconds.
pub record Runtime (W : Type 0) : Type 0 where
  pub create : ModelCandidateSpec → W → Outcome (Unit {0}) × W
  pub create_judge : ModelCandidateSpec → W → Outcome (Unit {0}) × W
  pub reset_peak : W → Outcome (Unit {0}) × W
  pub load : ModelCandidateSpec → W → Outcome (Unit {0}) × W
  pub synchronize : W → Outcome (Unit {0}) × W
  pub infer :
      ModelCandidateSpec
      → List BatchItem
      → List (String × ItemPatch)
      → Bool
      → W
      → Outcome (List (String × ItemPatch)) × W
  pub adjudicate :
      ModelCandidateSpec
      → List JudgeCandidate
      → List (String × String)
      → Bool
      → W
      → Outcome ConsensusJudgeVerdict × W
  pub peak_vram : W → Outcome (Option ℕ) × W
  pub release : ModelCandidateSpec → W → Outcome (Unit {0}) × W
  pub finalize : W → Outcome (Unit {0}) × W
  pub clock : W → ℕ × W

module _ {W : Type 0} where
  -- an operation of the runtime as an action
  abbrev pub call : {A : Type 0} → (W → Outcome A × W) → Exec W A
  call op s = ((op s.world).0, record s { world = (op s.world).1 })

  -- one that does not raise
  abbrev pub read : {A : Type 0} → (W → A × W) → Exec W A
  read op s = (ok (op s.world).0, record s { world = (op s.world).1 })

  -- The calls of the `finally` clauses return: the memory statistics are read, adapters unload, and
  -- the job's memory is collected.
  pub record Cleans (rt : Runtime W) : Type 0 where
    pub measures : (w : W) → (peak : Option ℕ) × ((rt.peak_vram w).0 ≡ ok peak)
    pub releases : (c : ModelCandidateSpec) (w : W) → (rt.release c w).0 ≡ ok tt
    pub finalizes : (w : W) → (rt.finalize w).0 ≡ ok tt
