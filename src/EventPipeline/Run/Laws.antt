-- ===== src/EventPipeline/Run/Laws.antt =====
-- `DeterministicEventPipeline.run`: what its attempts, proposals and status say of the evidence.
use fireviewer_orchestrator.Common.{
  suc, ◌+◌, leb, String, Bool, true, false, Option, none, some, List, [], ◌∷◌, ◌++◌, ◌≡◌, ◌||◌, ◌↔◌,
  refl, sym, ap, ◌∙◌, arith, if◌then◌else◌, any, any-append, map, nonempty, is_some, length,
  length-append, Bool-cases, inl, inr, All, subst,
}
use fireviewer_orchestrator.Common.Order.{◌==◌, string_ord}
use fireviewer_orchestrator.Common.Dict.{lookup}
use fireviewer_orchestrator.EventPipeline.{
  Sciences, PerceptionFailure, is_cross_view, is_raycast, is_localized, needs_review, nothing_found,
}
use fireviewer_orchestrator.EventPipeline.Run.{
  Input, Anchor, Spatial, Bundle, Attempt, Proposal, Output, Step, analyse_anchor, analyse_anchors,
  add_step, after_anchors, spatial_by_anchor, assert_projection, project_anchor, fall_back,
  localize, failure_attempt, or_no_anchor, is_reviewable, conclude, run,
}

module _ (x : Sciences) where
  -- The evidence that a proposal stands on.
  pub record IsGrounded (evidence : List (String × Spatial x)) (p : Proposal x) : Type 0 where
    pub anchor_id : String
    pub spatial : Spatial x
    pub found : lookup anchor_id evidence ≡ some spatial
    pub projected : (spatial.status == "projected") ≡ true
    pub not_cross_view : is_cross_view spatial.method ≡ false
    pub referenced : is_raycast spatial.method ≡ true → is_some spatial.reference_revision ≡ true
    pub geometry : spatial.geometry_geojson ≡ some p.geometry_geojson
    pub accuracy : spatial.horizontal_accuracy_m ≡ some p.horizontal_accuracy_m

  localize-some :
      (bundle : Bundle x) (anchor : Anchor x) (spatial : Spatial x) (g : x.Geometry) (a : x.Real)
      (attempt : Attempt x) (p : Proposal x)
      → localize x bundle anchor spatial g a ≡ (attempt, some p)
      → (is_localized attempt.status ≡ true)
        × (p.geometry_geojson ≡ g)
        × (p.horizontal_accuracy_m ≡ a)
  unfolding localize
  localize-some bundle anchor spatial g a attempt p h = (ground arith, ground arith, ground arith)

  assert_projection-some :
      (bundle : Bundle x) (anchor : Anchor x) (spatial : Spatial x) (og : Option x.Geometry)
      (oa : Option x.Real) (attempt : Attempt x) (p : Proposal x)
      → assert_projection x bundle anchor spatial og oa ≡ some (attempt, some p)
      → (is_localized attempt.status ≡ true)
        × (og ≡ some p.geometry_geojson)
        × (oa ≡ some p.horizontal_accuracy_m)
  unfolding assert_projection
  assert_projection-some bundle anchor spatial none oa attempt p h = absurd (ground arith)
  assert_projection-some bundle anchor spatial (some g) none attempt p h = absurd (ground arith)
  assert_projection-some bundle anchor spatial (some g) (some a) attempt p h =
      let (l, eg, ea) = localize-some bundle anchor spatial g a attempt p (ground arith) in
      (l, ap some (sym eg), ap some (sym ea))

  fall_back-none :
      (bundle : Bundle x) (anchor : Anchor x) (reasons : List String)
      → (fall_back x bundle anchor reasons).1 ≡ none
  unfolding fall_back
  fall_back-none bundle anchor reasons = ground arith

  project_anchor-some :
      (bundle : Bundle x) (anchor : Anchor x) (spatial : Spatial x) (attempt : Attempt x)
      (p : Proposal x)
      → project_anchor x bundle anchor spatial ≡ some (attempt, some p)
      → (is_cross_view spatial.method ≡ false)
        × (is_raycast spatial.method ≡ true → is_some spatial.reference_revision ≡ true)
        × (assert_projection x bundle anchor spatial spatial.geometry_geojson
              spatial.horizontal_accuracy_m
            ≡ some (attempt, some p))
  unfolding project_anchor
  project_anchor-some bundle anchor spatial attempt p h =
      (ground arith, λ e. ground arith, ground arith)

  analyse_anchor-IsGrounded :
      (bundle : Bundle x) (anchor : Anchor x) (evidence : List (String × Spatial x))
      (attempt : Attempt x) (p : Proposal x) (o : Option (Spatial x))
      → lookup anchor.anchor_id evidence ≡ o
      → analyse_anchor x bundle anchor o ≡ some (attempt, some p)
      → IsGrounded evidence p × (is_localized attempt.status ≡ true)
  unfolding analyse_anchor
  analyse_anchor-IsGrounded bundle anchor evidence attempt p none e h =
      absurd (ground (arith, fall_back-none bundle anchor ("direction_and_distance_missing" ∷ [])))
  analyse_anchor-IsGrounded bundle anchor evidence attempt p (some spatial) e h =
      elim (Bool-cases (spatial.status == "projected")) [
        | inr other ↦ absurd (ground (arith, fall_back-none bundle anchor spatial.reason_codes))
        | inl projected ↦
            let (c, r, q) = project_anchor-some bundle anchor spatial attempt p (ground arith) in
            let (l, g, a) =
              assert_projection-some bundle anchor spatial spatial.geometry_geojson
                spatial.horizontal_accuracy_m attempt p q in
            (
              record {
                anchor_id = anchor.anchor_id;
                spatial = spatial;
                found = e;
                projected = projected;
                not_cross_view = c;
                referenced = r;
                geometry = g;
                accuracy = a;
              },
              l,
            )
      ]

  -- The loop: each proposal is grounded, there is one attempt for each anchor, and a proposal
  -- comes with a localized attempt.
  record Analysed (evidence : List (String × Spatial x)) (anchors : List (Anchor x))
      (attempts : List (Attempt x)) (proposals : List (Proposal x)) : Type 0 where
    grounded : All (IsGrounded evidence) proposals
    one_each : length attempts ≡ length anchors
    backed : nonempty proposals ≡ true → any (is_reviewable x) attempts ≡ true

  add_step-Analysed :
      (bundle : Bundle x) (evidence : List (String × Spatial x)) (a : Anchor x)
      (anchors : List (Anchor x)) (attempts : List (Attempt x)) (proposals : List (Proposal x))
      (o : Option (Step x)) (rest : Option (List (Attempt x) × List (Proposal x)))
      → analyse_anchor x bundle a (lookup a.anchor_id evidence) ≡ o
      → ((ats : List (Attempt x)) (ps : List (Proposal x))
          → rest ≡ some (ats, ps)
          → Analysed evidence anchors ats ps)
      → add_step x o rest ≡ some (attempts, proposals)
      → Analysed evidence (a ∷ anchors) attempts proposals
  unfolding add_step
  add_step-Analysed bundle evidence a anchors attempts proposals none rest e f h =
      absurd (ground arith)
  add_step-Analysed bundle evidence a anchors attempts proposals (some (att, none)) none e f h =
      absurd (ground arith)
  add_step-Analysed bundle evidence a anchors attempts proposals (some (att, some p)) none e f h =
      absurd (ground arith)
  add_step-Analysed bundle evidence a anchors attempts proposals (some (att, none)) (some (ats, ps))
        e f h =
      let g = f ats ps refl in
      let ea : att ∷ ats ≡ attempts = ground arith in
      let ep : ps ≡ proposals = ground arith in
      record {
        grounded = subst (All (IsGrounded evidence)) ep g.grounded;
        one_each = ap length (sym ea) ∙ ap suc g.one_each;
        backed = λ n.
            ap (any (is_reviewable x)) (sym ea) ∙ ground (arith, g.backed (ap nonempty ep ∙ n));
      }
  add_step-Analysed bundle evidence a anchors attempts proposals (some (att, some p))
        (some (ats, ps)) e f h =
      let g = f ats ps refl in
      let (l, q) =
        analyse_anchor-IsGrounded bundle a evidence att p (lookup a.anchor_id evidence) refl e in
      let ea : att ∷ ats ≡ attempts = ground arith in
      let ep : p ∷ ps ≡ proposals = ground arith in
      record {
        grounded = subst (All (IsGrounded evidence)) ep (l, g.grounded);
        one_each = ap length (sym ea) ∙ ap suc g.one_each;
        backed = λ n. ap (any (is_reviewable x)) (sym ea) ∙ ground arith;
      }

  analyse_anchors-Analysed :
      (bundle : Bundle x) (evidence : List (String × Spatial x)) (anchors : List (Anchor x))
      (attempts : List (Attempt x)) (proposals : List (Proposal x))
      → analyse_anchors x bundle evidence anchors ≡ some (attempts, proposals)
      → Analysed evidence anchors attempts proposals
  unfolding analyse_anchors
  analyse_anchors-Analysed bundle evidence [] attempts proposals h =
      let ea : [] ≡ attempts = ground arith in
      let ep : [] ≡ proposals = ground arith in
      record {
        grounded = subst (All (IsGrounded evidence)) ep tt;
        one_each = ap length (sym ea);
        backed = λ n. absurd (ground arith);
      }
  analyse_anchors-Analysed bundle evidence (a ∷ anchors) attempts proposals h =
      add_step-Analysed bundle evidence a anchors attempts proposals
        (analyse_anchor x bundle a (lookup a.anchor_id evidence))
        (analyse_anchors x bundle evidence anchors) refl
        (λ ats ps e. analyse_anchors-Analysed bundle evidence anchors ats ps e) h

  failure-attempts_unreviewable :
      (bundle : Bundle x) (fs : List PerceptionFailure)
      → any (is_reviewable x) (map (failure_attempt x bundle) fs) ≡ false
  unfolding failure_attempt
  failure-attempts_unreviewable bundle [] = refl
  failure-attempts_unreviewable bundle (f ∷ fs) =
      ground (arith, failure-attempts_unreviewable bundle fs)

  length-map_failures :
      (bundle : Bundle x) (fs : List PerceptionFailure)
      → length (map (failure_attempt x bundle) fs) ≡ length fs
  length-map_failures bundle [] = refl
  length-map_failures bundle (f ∷ fs) = ap suc (length-map_failures bundle fs)

  or_no_anchor-lem :
      (bundle : Bundle x) (ats : List (Attempt x))
      → (any (is_reviewable x) (or_no_anchor x bundle ats) ≡ any (is_reviewable x) ats)
        × (length (or_no_anchor x bundle ats) ≡ (if leb (length ats) 0 then 1 else length ats))
  unfolding or_no_anchor
  or_no_anchor-lem bundle [] = (refl, ground arith)
  or_no_anchor-lem bundle (a ∷ ats) = (refl, ground arith)

  -- What `run` returns.
  pub record Reviewed (value : Input x) (failures : List PerceptionFailure) (out : Output x)
      : Type 0 where
    pub grounded :
        All (IsGrounded (spatial_by_anchor x [] value.spatial_evidence)) out.event_proposals
    pub attempts : length out.localization_attempts ≡ (
        if leb (length value.perception_anchors + length failures) 0
        then 1
        else length value.perception_anchors + length failures)
    pub status :
        (out.status ≡ needs_review) ↔ (any (is_reviewable x) out.localization_attempts ≡ true)

  status_iff :
      (proposed reviewable : Bool)
      → (proposed ≡ true → reviewable ≡ true)
      → ((if proposed || reviewable then needs_review else nothing_found) ≡ needs_review)
        ↔ (reviewable ≡ true)
  status_iff proposed reviewable h = ground (arith, h)

  after_anchors-Reviewed :
      (value : Input x) (failures : List PerceptionFailure) (ats : List (Attempt x))
      (ps : List (Proposal x)) (out : Output x)
      → Analysed (spatial_by_anchor x [] value.spatial_evidence) value.perception_anchors ats ps
      → after_anchors x value failures (some (ats, ps)) ≡ some out
      → Reviewed value failures out
  unfolding after_anchors conclude
  after_anchors-Reviewed value failures ats ps out g h =
      let all = ats ++ map (failure_attempt x value.bundle) failures in
      let o = or_no_anchor-lem value.bundle all in
      let e : conclude x value (or_no_anchor x value.bundle all) ps ≡ out = ground arith in
      let n : length all ≡ length value.perception_anchors + length failures = omega (
        arith,
        length-append ats (map (failure_attempt x value.bundle) failures),
        g.one_each,
        length-map_failures value.bundle failures,
      ) in
      let r : any (is_reviewable x) (or_no_anchor x value.bundle all) ≡ any (is_reviewable x) ats =
        ground (
          arith,
          o.0,
          any-append (is_reviewable x) ats (map (failure_attempt x value.bundle) failures),
          failure-attempts_unreviewable value.bundle failures,
        ) in
      subst (Reviewed value failures) e (record {
        grounded = g.grounded;
        attempts = ground (arith, o.1, n);
        status =
            status_iff (nonempty ps) (any (is_reviewable x) (or_no_anchor x value.bundle all))
              (λ p. r ∙ g.backed p);
      })

  -- A run that does not raise has one attempt for each anchor and failure (and one in place of none),
  -- and is up for review just where an attempt is localized or a sector. Each of its proposals stands
  -- on the last projected evidence of an anchor identifier, which is no cross-view ray cast and has its
  -- reference where it is a ray cast, with the geometry and the accuracy of that evidence.
  pub run-Reviewed :
      (value : Input x) (failures : List PerceptionFailure) (out : Output x)
      → run x value failures ≡ some out
      → Reviewed value failures out
  unfolding run after_anchors
  run-Reviewed value failures out h =
      go
        (analyse_anchors x value.bundle (spatial_by_anchor x [] value.spatial_evidence)
          value.perception_anchors)
        refl h
    where
      go :
          (o : Option (List (Attempt x) × List (Proposal x)))
          → analyse_anchors x value.bundle
              (spatial_by_anchor x [] value.spatial_evidence)
              value.perception_anchors
            ≡ o
          → after_anchors x value failures o ≡ some out
          → Reviewed value failures out
      go none e h = absurd (ground arith)
      go (some (ats, ps)) e h =
          after_anchors-Reviewed value failures ats ps out
            (analyse_anchors-Analysed value.bundle (spatial_by_anchor x [] value.spatial_evidence)
              value.perception_anchors ats ps e)
            h
