-- ===== src/SessionRunner/Patches/Laws.antt =====
-- Patches and results: what merging and validating keep.
use fireviewer_orchestrator.Common.{
  Option, some, none, or_else, String, Bool, true, some, List, [], ◌∷◌, ◌≡◌, refl, sym, ap, ◌∙◌,
  arith, is_some, Option-cases, inl, inr, All, All-imp,
}
use fireviewer_orchestrator.Common.Order.{string_ord}
use fireviewer_orchestrator.Common.Sets.{contains, ordered, contains-ordered, eqb_refl}
use fireviewer_orchestrator.Common.Dict.{keys, lookup, put, is_some-lookup, keys-put_present}
use fireviewer_orchestrator.Contracts.{ItemResult, ItemPatch, BatchItem, WorkerInput}
use fireviewer_orchestrator.SessionRunner.Effects.{ok}
use fireviewer_orchestrator.SessionRunner.Patches.{
  Results, Patches, as_patch, merge, apply_patches, validate_items, validated_candidates, pick,
  candidate_payload,
}

-- A field that is given wins over what was there.
abbrev pub overrides : {A : Type 0} → Option A → Option A → Option A
overrides (some a) older = some a
overrides none older = older

or_else-overrides :
    {A : Type 0} (newer older : Option A) (a : A)
    → or_else newer (or_else older a) ≡ or_else (overrides newer older) a
or_else-overrides (some b) older a = refl
or_else-overrides none older a = refl

pub merge-last_wins :
    (r : ItemResult) (p q : ItemPatch)
    → (merge (merge r p) q
        ≡ merge r (record {
          transcript = overrides q.transcript p.transcript;
          pixel_regions = overrides q.pixel_regions p.pixel_regions;
          visual_evidence_selection =
              overrides q.visual_evidence_selection p.visual_evidence_selection;
          factual_observations = overrides q.factual_observations p.factual_observations;
          explicit_places = overrides q.explicit_places p.explicit_places;
          explicit_times = overrides q.explicit_times p.explicit_times;
        }))
      × (merge r (as_patch r) ≡ r)
unfolding merge as_patch
merge-last_wins r p q = (
  rw
      (
        or_else-overrides q.transcript p.transcript r.segments,
        or_else-overrides q.pixel_regions p.pixel_regions r.pixel_regions,
        or_else-overrides q.visual_evidence_selection p.visual_evidence_selection
            r.visual_evidence_selection,
        or_else-overrides q.factual_observations p.factual_observations r.factual_observations,
        or_else-overrides q.explicit_places p.explicit_places r.explicit_places,
        or_else-overrides q.explicit_times p.explicit_times r.explicit_times,
      )
      refl,
  refl,
)

-- Applying patches fails only on an unknown id, and keeps the ids of the results.
apply_patches-keys :
    (candidate : Results) (patches : Patches) {c : Results}
    → apply_patches candidate patches ≡ ok c
    → (keys c ≡ keys candidate) × All (λ k. contains k (keys candidate) ≡ true) (keys patches)
unfolding apply_patches
apply_patches-keys candidate [] h = ground arith
apply_patches-keys candidate ((k, p) ∷ patches) {c} h = elim (Option-cases (lookup k candidate)) [
  | inl e ↦ absurd (ground arith)
  | inr (r, e) ↦
      let q : apply_patches (put k (merge r p) candidate) patches ≡ ok c = ground arith in
      let known : contains k (keys candidate) ≡ true =
        sym (is_some-lookup k candidate) ∙ ap is_some e in
      let same : keys (put k (merge r p) candidate) ≡ keys candidate =
        keys-put_present k (merge r p) candidate known in
      let (kept, ids) = apply_patches-keys (put k (merge r p) candidate) patches q in
      (kept ∙ same, (known, All-imp _ _ (keys patches) (λ j m. ap (contains j) (sym same) ∙ m) ids))
]

-- Conversely, patches whose ids are all known are applied.
apply_patches_total :
    (candidate : Results) (patches : Patches)
    → All (λ k. contains k (keys candidate) ≡ true) (keys patches)
    → (c : Results) × (apply_patches candidate patches ≡ ok c)
unfolding apply_patches
apply_patches_total candidate [] h = (candidate, refl)
apply_patches_total candidate ((k, p) ∷ patches) (known, h) =
    elim (Option-cases (lookup k candidate)) [
      | inl e ↦ absurd (ground (arith, is_some-lookup k candidate))
      | inr (r, e) ↦
          let same : keys (put k (merge r p) candidate) ≡ keys candidate =
            keys-put_present k (merge r p) candidate known in
          let (c, q) =
            apply_patches_total (put k (merge r p) candidate) patches
              (All-imp _ _ (keys patches) (λ j m. ap (contains j) same ∙ m) h) in
          (c, ground arith)
    ]

-- every item has a result, and the result passes the item's validation
abbrev pub AllValid : (BatchItem → ItemResult → Bool) → List BatchItem → Results → Type 0
AllValid validate items c =
    All
      (λ (i : BatchItem). (r : ItemResult) × (lookup i.input_id c ≡ some r) × (validate i r ≡ true))
      items

validate_items-AllValid :
    (validate : BatchItem → ItemResult → Bool) (items : List BatchItem) (c : Results)
    → validate_items validate items c ≡ ok tt
    → AllValid validate items c
unfolding validate_items
validate_items-AllValid validate [] c h = tt
validate_items-AllValid validate (i ∷ items) c h = elim (Option-cases (lookup i.input_id c)) [
  | inl e ↦ absurd (ground arith)
  | inr (r, e) ↦ ((r, e, ground arith), validate_items-AllValid validate items c (ground arith))
]

AllValid-validate_items :
    (validate : BatchItem → ItemResult → Bool) (items : List BatchItem) (c : Results)
    → AllValid validate items c
    → validate_items validate items c ≡ ok tt
unfolding validate_items
AllValid-validate_items validate [] c h = refl
AllValid-validate_items validate (i ∷ items) c ((r, e, v), h) =
    ground (arith, AllValid-validate_items validate items c h)

-- A validated candidate has the ids of the results it was made from, in their order; all patched
-- ids are among them, and each item of the batch has a result that passes its validation.
pub validated_candidates-ok :
    (validate : BatchItem → ItemResult → Bool) (batch : WorkerInput) (results : Results)
    (patches : Patches) {c : Results}
    → validated_candidates validate batch results patches ≡ ok c
    → (keys c ≡ keys results)
      × All (λ k. contains k (keys results) ≡ true) (keys patches)
      × AllValid validate batch.items c
unfolding validated_candidates
validated_candidates-ok validate batch results patches {c} h =
    let applied : apply_patches results patches ≡ ok c = ground arith in
    let checked : validate_items validate batch.items c ≡ ok tt = ground arith in
    let (same, known) = apply_patches-keys results patches applied in
    (same, known, validate_items-AllValid validate batch.items c checked)

All-refl : (xs : List String) → All (λ k. contains k xs ≡ true) xs
All-refl xs = all_in xs (λ k m. m)
  where
    all_in :
        (ys : List String)
        → ((k : String) → contains k ys ≡ true → contains k xs ≡ true)
        → All (λ k. contains k xs ≡ true) ys
    all_in [] f = tt
    all_in (y ∷ ys) f = (f y (ground (arith, eqb_refl y)), all_in ys (λ k m. f k (ground arith)))

keys-pick :
    (patches : Patches) (ks : List String)
    → All (λ k. contains k (keys patches) ≡ true) ks
    → keys (pick patches ks) ≡ ks
unfolding pick
keys-pick patches [] h = refl
keys-pick patches (k ∷ ks) (known, h) = elim (Option-cases (lookup k patches)) [
  | inl e ↦ absurd (ground (arith, is_some-lookup k patches))
  | inr (p, e) ↦ ground (arith, keys-pick patches ks h)
]

-- The payload lists every patched id once, in ascending order.
pub keys-candidate_payload :
    (patches : Patches) → keys (candidate_payload patches) ≡ ordered (keys patches)
unfolding candidate_payload
keys-candidate_payload patches = keys-pick patches (ordered (keys patches)) (
    All-imp _ _ (ordered (keys patches)) (λ k m. sym (contains-ordered k (keys patches)) ∙ m)
      (All-refl (ordered (keys patches))))
