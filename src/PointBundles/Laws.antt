-- ===== src/PointBundles/Laws.antt =====
-- What a dossier stands on: its hypothesis's references, resolved, with satellite provenance.
use fireviewer_orchestrator.Common.{
  ℕ, suc, ◌≤◌, String, Bool, true, false, not, Option, none, some, List, [], ◌∷◌, ◌++◌, ◌≡◌, refl,
  sym, ap, ◌∙◌, arith, All, keep, all, nonempty, length, traverse, if◌then◌else◌, Bool-cases, inl,
  inr, subst, or_else, All₂, traverse-All₂,
}
use fireviewer_orchestrator.Common.Order.{◌==◌, string_ord}
use fireviewer_orchestrator.Common.Sets.{contains}
use fireviewer_orchestrator.PointBundles.{
  Scoring, GeographicReference, UploadLocation, GeographicHypothesis, GeographicResult,
  EventEvidence, DurableEventEvidence, ConsistencyCheck, Dossier, reference_ids,
  satellite_references, supported_references, checks_with, check_if, checks_for, dossier_of,
  dossier_with, dossier, bundles_of, sorted_hypotheses, build,
}

keep-supported :
    (ids : List String) (refs : List GeographicReference) (i : String)
    → contains i
        (reference_ids (keep (λ (r : GeographicReference). contains r.reference_id ids) refs))
      ≡ true
    → contains i ids ≡ true
keep-supported ids [] i h = ground (arith, h)
keep-supported ids (r ∷ refs) i h =
    ground (arith, h, keep-supported ids refs i, string_ord.eqb_iff i r.reference_id)

all-contains :
    (xs ids : List String) (i : String)
    → all (λ id. contains id xs) ids ≡ true
    → contains i ids ≡ true
    → contains i xs ≡ true
all-contains xs [] i h c = ground (arith, c)
all-contains xs (id ∷ ids) i h c =
    ground (arith, h, c, all-contains xs ids i, string_ord.eqb_iff i id)

keep-All : {A : Type 0} (p : A → Bool) (xs : List A) → All (λ x. p x ≡ true) (keep p xs)
keep-All p [] = tt
keep-All p (x ∷ xs) = elim (Bool-cases (p x)) [
  | inl h ↦ rw h (h, keep-All p xs)
  | inr h ↦ rw h (keep-All p xs)
]

same_truth : (a b : Bool) → (a ≡ true → b ≡ true) → (b ≡ true → a ≡ true) → a ≡ b
same_truth a b f g = ground (arith, f, g)

four_more : (n : ℕ) → n ≤ 2 → (4 ≤ suc (suc (suc (suc n)))) × (suc (suc (suc (suc n))) ≤ 6)
four_more n h = (omega arith, omega (arith, h))

past_guards :
    {A : Type 0} (empty clash : Bool) (o : Option (List A)) (r : List A)
    → empty ≡ false
    → (if empty then some [] else if clash then none else o) ≡ some r
    → o ≡ some r
past_guards false false o r h e = e
past_guards false true o r h e = absurd (ground (arith, e))
past_guards true clash o r h e = absurd (ground (arith, h))

nonempty-ids : (refs : List GeographicReference) → nonempty (reference_ids refs) ≡ nonempty refs
nonempty-ids [] = refl
nonempty-ids (r ∷ refs) = refl

module _ (x : Scoring) where
  -- A dossier stands on its hypothesis: it has the references that support the hypothesis, some of
  -- them from a satellite, the places where its media was uploaded, and from 4 to 6 checks.
  pub record IsSupported (h : GeographicHypothesis x) (d : Dossier x) : Type 0 where
    pub named : d.candidate_id ≡ h.hypothesis_id
    pub references :
        (i : String)
        → contains i (reference_ids d.geographic_references) ≡ contains i h.supporting_reference_ids
    pub from_satellite : nonempty (satellite_references d.geographic_references) ≡ true
    pub uploads : All (λ (l : UploadLocation). (l.media_id == h.media_id) ≡ true) d.upload_locations
    pub checked : (4 ≤ length d.geospatial_checks) × (length d.geospatial_checks ≤ 6)

  same_references :
      (ids : List String) (refs : List GeographicReference) (i : String)
      → all
          (λ id.
            contains id (
              reference_ids (keep (λ (r : GeographicReference). contains r.reference_id ids) refs)))
          ids
        ≡ true
      → contains i
          (reference_ids (keep (λ (r : GeographicReference). contains r.reference_id ids) refs))
        ≡ contains i ids
  same_references ids refs i h =
      let found =
        reference_ids (keep (λ (r : GeographicReference). contains r.reference_id ids) refs) in
      same_truth (contains i found) (contains i ids) (keep-supported ids refs i)
        (all-contains found ids i h)

  length-check_if :
      (a b : Option x.Real) (f g : x.Real → ConsistencyCheck x)
      → length (check_if x a f ++ check_if x b g) ≤ 2
  length-check_if none none f g = omega arith
  length-check_if none (some t) f g = omega arith
  length-check_if (some s) none f g = omega arith
  length-check_if (some s) (some t) f g = omega arith

  module _ (durable : DurableEventEvidence x) (h : GeographicHypothesis x) where
    checks_with-bounds :
        (refs : List GeographicReference) (ids : List String)
        → (4 ≤ length (checks_with x h refs durable ids))
          × (length (checks_with x h refs durable ids) ≤ 6)
    unfolding checks_with
    checks_with-bounds refs ids =
        four_more _ (length-check_if h.temporal_alignment h.history_progression _ _)

    dossier_of-IsSupported :
        (refs : List GeographicReference) (d : Dossier x)
        → ((i : String) → contains i (reference_ids refs) ≡ contains i h.supporting_reference_ids)
        → (b : Bool) → nonempty (reference_ids (satellite_references refs)) ≡ b
        → dossier_of x h durable refs (
            if b
            then some (checks_with x h refs durable (reference_ids (satellite_references refs)))
            else none)
          ≡ some d
        → IsSupported h d
    unfolding dossier_of
    dossier_of-IsSupported refs d same false lacking e = absurd (ground (arith, e))
    dossier_of-IsSupported refs d same true there e =
        subst (IsSupported h) (ap (λ o. or_else o d) e) (record {
          named = refl;
          references = same;
          from_satellite = sym (nonempty-ids (satellite_references refs)) ∙ there;
          uploads =
              keep-All (λ (l : UploadLocation). l.media_id == h.media_id) durable.upload_locations;
          checked = checks_with-bounds refs (reference_ids (satellite_references refs));
        })

    -- The dossier at references that were resolved.
    dossier_with-IsSupported :
        (refs : List GeographicReference) (d : Dossier x)
        → ((i : String) → contains i (reference_ids refs) ≡ contains i h.supporting_reference_ids)
        → dossier_with x h durable (some refs) ≡ some d
        → IsSupported h d
    unfolding dossier_with checks_for
    dossier_with-IsSupported refs d same e =
        dossier_of-IsSupported refs d same (nonempty (reference_ids (satellite_references refs)))
          refl e

    -- A dossier that was made stands on its hypothesis.
    resolved-IsSupported :
        (d : Dossier x) (refs : List GeographicReference) (b : Bool)
        → (b ≡ true
            → (i : String)
            → contains i (reference_ids refs) ≡ contains i h.supporting_reference_ids)
        → dossier_with x h durable (if b then some refs else none) ≡ some d
        → IsSupported h d
    unfolding dossier_with
    resolved-IsSupported d refs true same e = dossier_with-IsSupported refs d (same refl) e
    resolved-IsSupported d refs false same e = absurd (ground (arith, e))

    dossier-IsSupported : (d : Dossier x) → dossier x durable h ≡ some d → IsSupported h d
    unfolding supported_references
    dossier-IsSupported d e =
        resolved-IsSupported d _ _
          (λ resolved i.
            same_references h.supporting_reference_ids durable.geographic_references i resolved)
          e

  bundles_of-dossiers :
      {Bundle : Type 0} (assemble : EventEvidence x → Dossier x → Option Bundle)
      (event : Option (EventEvidence x)) (dossiers : Option (List (Dossier x)))
      (bundles : List Bundle)
      → bundles_of x assemble event dossiers ≡ some bundles
      → (e : EventEvidence x) × (ds : List (Dossier x)) × (dossiers ≡ some ds)
        × (traverse (assemble e) ds ≡ some bundles)
  unfolding bundles_of
  bundles_of-dossiers assemble none dossiers bundles e = absurd (ground (arith, e))
  bundles_of-dossiers assemble (some event) none bundles e = absurd (ground (arith, e))
  bundles_of-dossiers assemble (some event) (some ds) bundles e = (event, ds, refl, e)

  -- A build that returns, from hypotheses that are there, has assembled one dossier for each
  -- hypothesis, in the order of the sort: each stands on its hypothesis, with the references that
  -- support it, some of them from a satellite.
  pub build-IsSupported :
      {Bundle : Type 0} (validate : EventEvidence x → Option (EventEvidence x))
      (assemble : EventEvidence x → Dossier x → Option Bundle) (durable : DurableEventEvidence x)
      (result : GeographicResult x) (bundles : List Bundle)
      → nonempty result.hypotheses ≡ true
      → build x validate assemble durable result ≡ some bundles
      → (event : EventEvidence x) × (ds : List (Dossier x)) × (traverse (assemble event) ds
          ≡ some bundles)
        × All₂ IsSupported (sorted_hypotheses x result.hypotheses) ds
  unfolding build
  build-IsSupported validate assemble durable result bundles there e =
      let (event, ds, made, assembled) =
        bundles_of-dossiers assemble _ _ bundles
          (past_guards (not (nonempty result.hypotheses)) _ _ bundles (ap not there) e) in
      (
        event,
        ds,
        assembled,
        traverse-All₂ IsSupported (dossier x durable) (λ h d f. dossier-IsSupported durable h d f)
            (sorted_hypotheses x result.hypotheses) ds made,
      )
