-- ===== src/V2Runner/Compose/Laws.antt =====
-- The version 2 output, where it is built: it keeps the session's items and their order.
use mathlib.Core.Option.{map as map_option}
use fireviewer_orchestrator.Common.{
  ℕ, ◌+◌, String, Bool, true, false, not, Option, none, some, List, [], ◌∷◌, ◌++◌, ◌≡◌, refl, sym,
  ap, ap₂, ◌∙◌, subst, arith, All, All-append, map, length, any, ◌&&◌, ◌||◌, traverse-All₂, All₂,
  is_some, if◌then◌else◌, or_else,
}
use fireviewer_orchestrator.Common.Order.{◌==◌, string_ord}
use fireviewer_orchestrator.Common.Dict.{lookup, put, lookup-put}
use fireviewer_orchestrator.Contracts.{StageRole}
use fireviewer_orchestrator.SessionRunner.Stage.{StageTrace, is_failed}
use fireviewer_orchestrator.SessionRunner.Run.{OverallStatus}
use fireviewer_orchestrator.V2Runner.{
  Externals, WorkerInputV2, WorkerBatchItemV2, LegacyResult, WorkerItemResultV2, Observation,
  ProvenanceV2, index_by,
}
use fireviewer_orchestrator.V2Runner.Facts.{fact_of, facts_from, fact_proposals}
use fireviewer_orchestrator.V2Runner.Report.{
  source_by_input, all_facts, report, accepts, SituationReportDraftV2,
}
use fireviewer_orchestrator.V2Runner.Spatial.{Proposal}
use fireviewer_orchestrator.V2Runner.Report.Laws.{Known, AllListed, report-returns}
use fireviewer_orchestrator.V2Runner.Compose.Items.{
  LegacyOutput, FirePointingExecution, BurnedAreaExecution, SpatialExecution, Prepared,
  source_by_id, prepare_item, prepare, proposals_of, item_of, item_result, item_results,
}
use fireviewer_orchestrator.V2Runner.Compose.{
  Stages, WorkerOutputV2, lower_status, traces_before_spatial, spatial_execution, closing_traces,
  final_status, output_of, accepted_output, compose_items, compose, Checks, from_legacy_output,
  pointing_trace, burned_area_trace, spatial_traces, and_then, orchestration_trace,
}

abbrev pub is_succeeded_overall : OverallStatus → Bool
is_succeeded_overall OverallStatus.succeeded = true
is_succeeded_overall _ = false

-- A stage that ran and failed.
abbrev pub has_failed : Option StageTrace → Bool
has_failed none = false
has_failed (some t) = is_failed t.status

module _ (x : Externals) where
  -- The keys that an index has.
  is_some-lookup-index_by :
      {V : Type 0} (value : WorkerBatchItemV2 x → V) (d : List (String × V))
      (items : List (WorkerBatchItemV2 x)) (k : String)
      → is_some (lookup k (index_by x value d items))
        ≡ (is_some (lookup k d) || any (λ (i : WorkerBatchItemV2 x). k == i.input_id) items)
  unfolding index_by
  is_some-lookup-index_by value d [] k = ground arith
  is_some-lookup-index_by value d (i ∷ items) k = ground (
    arith,
    is_some-lookup-index_by value (put i.input_id (value i) d) items k,
    lookup-put i.input_id (value i) d k,
  )

  some_inj : (i j : WorkerBatchItemV2 x) → some i ≡ some j → i ≡ j
  some_inj i j e = ap (λ o. or_else o i) e

  found_in :
      (j : WorkerBatchItemV2 x) (k : String) (o : Option (WorkerBatchItemV2 x))
      → ((i : WorkerBatchItemV2 x) → o ≡ some i → i.input_id ≡ k)
      → (b : Bool) → (k == j.input_id) ≡ b
      → (i : WorkerBatchItemV2 x) → (if b then some j else o) ≡ some i
      → i.input_id ≡ k
  found_in j k o found true same i e =
      sym (ap (λ (h : WorkerBatchItemV2 x). h.input_id) (some_inj j i e))
      ∙ sym ((string_ord.eqb_iff k j.input_id).0 same)
  found_in j k o found false differs i e = found i e

  -- What an index finds under a key is the value of an item of that id.
  lookup-index_by :
      (d : List (String × WorkerBatchItemV2 x)) (items : List (WorkerBatchItemV2 x))
      → ((k : String) (i : WorkerBatchItemV2 x) → lookup k d ≡ some i → i.input_id ≡ k)
      → (k : String) (i : WorkerBatchItemV2 x) → lookup k (index_by x (λ j. j) d items) ≡ some i
      → i.input_id ≡ k
  unfolding index_by
  lookup-index_by d [] found k i e = found k i e
  lookup-index_by d (j ∷ items) found k i e =
      lookup-index_by (put j.input_id j d) items
        (λ h l g.
          found_in j h (lookup h d) (found h) (h == j.input_id) refl l
            (sym (lookup-put j.input_id j d h) ∙ g))
        k i e

  given_by : {A : Type 0} (o : Option A) → is_some o ≡ true → (a : A) × (o ≡ some a)
  given_by (some p) h = (p, refl)
  given_by none h = ground (arith, h)

  same_keys :
      (items : List (WorkerBatchItemV2 x)) (k : String)
      → is_some (lookup k (source_by_input x items)) ≡ is_some (lookup k (source_by_id x items))
  unfolding lookup
  same_keys items k =
      is_some-lookup-index_by (λ (i : WorkerBatchItemV2 x). i.provenance) [] items k
      ∙ sym (is_some-lookup-index_by (λ (i : WorkerBatchItemV2 x). i) [] items k)

  known_source :
      (items : List (WorkerBatchItemV2 x)) (k : String)
      → is_some (lookup k (source_by_id x items)) ≡ true
      → (p : ProvenanceV2) × (lookup k (source_by_input x items) ≡ some p)
  known_source items k h = given_by _ (same_keys items k ∙ h)

  facts_from-Known :
      (batch : WorkerInputV2 x) (item : WorkerBatchItemV2 x) (n : ℕ) (os : List Observation)
      → (p : ProvenanceV2) × (lookup item.input_id (source_by_input x batch.items) ≡ some p)
      → All (Known x (source_by_input x batch.items)) (facts_from x batch item n os)
  unfolding facts_from fact_of
  facts_from-Known batch item n [] known = tt
  facts_from-Known batch item n (o ∷ os) known =
      (known, facts_from-Known batch item (n + 1) os known)

  -- What a prepared entry keeps of the legacy result it comes from.
  pub record IsPrepared (batch : WorkerInputV2 x) (r : LegacyResult x) (p : Prepared x)
      : Type 0 where
    pub same : p.legacy_result ≡ r
    pub id : p.source.input_id ≡ r.input_id
    pub known :
        (s : ProvenanceV2) × (lookup p.source.input_id (source_by_input x batch.items) ≡ some s)

  some_same : {A : Type 0} (a b : A) → some a ≡ some b → a ≡ b
  some_same a b e = ap (λ o. or_else o a) e

  -- Inversion of the steps that may raise.
  and_then-some :
      {A B : Type 0} (f : A → Option B) (o : Option A) (b : B)
      → and_then f o ≡ some b
      → (a : A) × (o ≡ some a) × (f a ≡ some b)
  and_then-some f none b e = absurd (ground (arith, e))
  and_then-some f (some a) b e = (a, refl, e)

  if-some : {A : Type 0} (t : Bool) (a b : A) → (if t then some a else none) ≡ some b → a ≡ b
  if-some true a b e = some_same a b e
  if-some false a b e = absurd (ground (arith, e))

  module _ (batch : WorkerInputV2 x) (pointing : Option (FirePointingExecution x))
      (burned : Option (BurnedAreaExecution x)) where
    prepare_item-IsPrepared :
        (r : LegacyResult x) (o : Option (WorkerBatchItemV2 x)) (p : Prepared x)
        → lookup r.input_id (source_by_id x batch.items) ≡ o
        → prepare_item x pointing burned r o ≡ some p
        → IsPrepared batch r p
    unfolding prepare_item lookup
    prepare_item-IsPrepared r none p e h = absurd (ground (arith, h))
    prepare_item-IsPrepared r (some source) p e h =
        let id = lookup-index_by [] batch.items (λ k i g. ground (arith, g)) r.input_id source e in
        subst (IsPrepared batch r) (some_same _ p h) (record {
          same = refl;
          id = id;
          known = known_source batch.items source.input_id (
              subst (λ k. is_some (lookup k (source_by_id x batch.items)) ≡ true) (sym id)
                (ap is_some e));
        })

    prepare-ArePrepared :
        (rs : List (LegacyResult x)) (ps : List (Prepared x))
        → prepare x batch pointing burned rs ≡ some ps
        → All₂ (IsPrepared batch) rs ps
    unfolding prepare
    prepare-ArePrepared rs ps e =
        traverse-All₂ (IsPrepared batch) _ (λ r p h. prepare_item-IsPrepared r _ p refl h) rs ps e

    -- What an item keeps of the prepared entry it comes from.
    pub record IsItem (p : Prepared x) (i : WorkerItemResultV2 x) : Type 0 where
      pub id : i.input_id ≡ p.source.input_id
      pub reviewed : i.requires_human_review ≡ true
      pub facts : i.fact_proposals ≡ fact_proposals x batch p.source p.legacy_result

    item_of-IsItem :
        (p : Prepared x) (proposals : List (Proposal x)) → IsItem p (item_of x batch p proposals)
    unfolding item_of
    item_of-IsItem p proposals = record { id = refl; reviewed = refl; facts = refl }

    module _ (accept_item : WorkerItemResultV2 x → Bool)
        (spatial : Option (SpatialExecution x)) where
      item_result-IsItem :
          (p : Prepared x) (i : WorkerItemResultV2 x)
          → item_result x accept_item batch burned spatial p ≡ some i
          → IsItem p i
      unfolding item_result
      item_result-IsItem p i e = go (proposals_of x batch burned spatial p) e
        where
          go :
              (o : Option (List (Proposal x)))
              → (elim o [
                | none ↦ none
                | some proposals ↦
                    if accept_item (item_of x batch p proposals)
                    then some (item_of x batch p proposals)
                    else none
              ])
                ≡ some i
              → IsItem p i
          go none h = absurd (ground (arith, h))
          go (some proposals) h =
              subst (IsItem p) (if-some (accept_item (item_of x batch p proposals)) _ i h)
                (item_of-IsItem p proposals)

    item_results-ids :
        (rs : List (LegacyResult x)) (ps : List (Prepared x)) (is : List (WorkerItemResultV2 x))
        → All₂ (IsPrepared batch) rs ps
        → All₂ IsItem ps is
        → map (λ (i : WorkerItemResultV2 x). i.input_id) is
          ≡ map (λ (r : LegacyResult x). r.input_id) rs
    item_results-ids [] [] [] are h = refl
    item_results-ids [] [] (i ∷ is) are h = elim h [ ]
    item_results-ids [] (p ∷ ps) is are h = elim are [ ]
    item_results-ids (r ∷ rs) [] is are h = elim are [ ]
    item_results-ids (r ∷ rs) (p ∷ ps) [] are h = elim h [ ]
    item_results-ids (r ∷ rs) (p ∷ ps) (i ∷ is) (a, are) (k, h) =
        ap₂ (λ b l. b ∷ l) (k.id ∙ a.id) (item_results-ids rs ps is are h)

    item_results-reviewed :
        (ps : List (Prepared x)) (is : List (WorkerItemResultV2 x))
        → All₂ IsItem ps is
        → All (λ (i : WorkerItemResultV2 x). i.requires_human_review ≡ true) is
    item_results-reviewed [] [] h = tt
    item_results-reviewed [] (i ∷ is) h = elim h [ ]
    item_results-reviewed (p ∷ ps) [] h = elim h [ ]
    item_results-reviewed (p ∷ ps) (i ∷ is) (k, h) = (k.reviewed, item_results-reviewed ps is h)

    facts-Known :
        (r : LegacyResult x) (p : Prepared x) (i : WorkerItemResultV2 x)
        → IsPrepared batch r p
        → IsItem p i
        → All (Known x (source_by_input x batch.items)) i.fact_proposals
    unfolding fact_proposals
    facts-Known r p i a k =
        subst (All (Known x (source_by_input x batch.items))) (sym k.facts)
          (facts_from-Known batch p.source 1 p.legacy_result.factual_observations a.known)

    item_results-Known :
        (rs : List (LegacyResult x)) (ps : List (Prepared x)) (is : List (WorkerItemResultV2 x))
        → All₂ (IsPrepared batch) rs ps
        → All₂ IsItem ps is
        → All (Known x (source_by_input x batch.items)) (all_facts x is)
    item_results-Known [] [] [] are h = tt
    item_results-Known [] [] (i ∷ is) are h = elim h [ ]
    item_results-Known [] (p ∷ ps) is are h = elim are [ ]
    item_results-Known (r ∷ rs) [] is are h = elim are [ ]
    item_results-Known (r ∷ rs) (p ∷ ps) [] are h = elim h [ ]
    item_results-Known (r ∷ rs) (p ∷ ps) (i ∷ is) (a, are) (k, h) =
        All-append (Known x (source_by_input x batch.items)) i.fact_proposals _
          (facts-Known r p i a k) (item_results-Known rs ps is are h)

  -- What a version 2 output keeps of the session it comes from.
  pub record IsFaithful (batch : WorkerInputV2 x) (legacy : LegacyOutput x) (stages : Stages x)
      (out : WorkerOutputV2 x) : Type 0 where
    pub input_ids :
        map (λ (i : WorkerItemResultV2 x). i.input_id) out.items
        ≡ map (λ (r : LegacyResult x). r.input_id) legacy.items
    pub reviewed : All (λ (i : WorkerItemResultV2 x). i.requires_human_review ≡ true) out.items
    pub listed : AllListed x (all_facts x out.items) out.report_draft.sections
    pub status : is_succeeded_overall out.status ≡ (
        is_succeeded_overall legacy.status
        && not (
            has_failed (
              map_option
                (λ (e : FirePointingExecution x). e.stage_trace)
                stages.fire_pointing_execution))
        && not (
            has_failed (
              map_option
                (λ (e : BurnedAreaExecution x). e.stage_trace)
                stages.burned_area_execution)))
    pub earlier : List StageTrace
    pub closing : List StageTrace
    pub closed : out.stage_traces ≡ earlier ++ closing
    pub numbered :
        map {B = StageRole × ℕ} (λ (t : StageTrace). (t.stage_role, t.sequence)) closing
        ≡ (StageRole.other "evidence_fusion", length earlier + 1)
          ∷ (StageRole.other "situation_report", length earlier + 2)
          ∷ []

  and_assoc : (a b c : Bool) → ((a && b) && c) ≡ (a && b && c)
  and_assoc a b c = ground arith

  lower_status-succeeded :
      (t : Option StageTrace) (s : OverallStatus)
      → is_succeeded_overall (lower_status t s) ≡ (is_succeeded_overall s && not (has_failed t))
  unfolding lower_status
  lower_status-succeeded none OverallStatus.succeeded = refl
  lower_status-succeeded none OverallStatus.partial_failure = refl
  lower_status-succeeded none OverallStatus.failed = refl
  lower_status-succeeded (some t) OverallStatus.partial_failure = refl
  lower_status-succeeded (some t) OverallStatus.failed = refl
  lower_status-succeeded (some t) OverallStatus.succeeded = ground arith

  module _ (checks : Checks x) (contract_of : StageRole → String) (inference_ms : String → ℕ)
      (batch : WorkerInputV2 x) (legacy : LegacyOutput x) (stages : Stages x) where
    final_status-succeeded :
        is_succeeded_overall (final_status x checks contract_of inference_ms batch legacy stages)
        ≡ (is_succeeded_overall legacy.status
            && not
                (has_failed (pointing_trace x checks contract_of inference_ms batch legacy stages))
            && not (
                has_failed
                  (burned_area_trace x checks contract_of inference_ms batch legacy stages)))
    unfolding final_status
    final_status-succeeded =
        let p = pointing_trace x checks contract_of inference_ms batch legacy stages in
        let b = burned_area_trace x checks contract_of inference_ms batch legacy stages in
        lower_status-succeeded b (lower_status p legacy.status)
        ∙ (ap (λ t. t && not (has_failed b)) (lower_status-succeeded p legacy.status)
            ∙ and_assoc (is_succeeded_overall legacy.status) (not (has_failed p))
                (not (has_failed b)))

    output_of-IsFaithful :
        (ps : List (Prepared x)) (is : List (WorkerItemResultV2 x))
        (spatial : Option (SpatialExecution x)) (draft : SituationReportDraftV2)
        → All₂ (IsPrepared batch) legacy.items ps
        → All₂ (IsItem batch stages.fire_pointing_execution stages.burned_area_execution) ps is
        → report x checks.report batch is ≡ some draft
        → IsFaithful batch legacy stages
            (output_of x checks contract_of inference_ms batch legacy stages spatial is draft)
    unfolding output_of closing_traces orchestration_trace
    output_of-IsFaithful ps is spatial draft are items written =
        let pointing = stages.fire_pointing_execution in
        let burned = stages.burned_area_execution in
        let (plan, r, planned, section, listed) =
          report-returns x checks.report batch is
            (item_results-Known batch pointing burned legacy.items ps is are items) in
        let same : plan ≡ draft =
          if-some (accepts checks.report plan) plan draft (sym r ∙ written) in
        record {
          input_ids = item_results-ids batch pointing burned legacy.items ps is are items;
          reviewed = item_results-reviewed batch pointing burned ps is items;
          listed = subst (λ d. AllListed x (all_facts x is) d.sections) same listed;
          status = final_status-succeeded;
          earlier =
              traces_before_spatial x checks contract_of inference_ms batch legacy stages
              ++ spatial_traces x checks contract_of inference_ms batch legacy stages spatial;
          closing = _;
          closed = refl;
          numbered = refl;
        }

    pub from_legacy_output-IsFaithful :
        (out : WorkerOutputV2 x)
        → from_legacy_output x checks contract_of inference_ms batch legacy stages ≡ some out
        → IsFaithful batch legacy stages out
    unfolding from_legacy_output compose compose_items accepted_output
    from_legacy_output-IsFaithful out built =
        let pointing = stages.fire_pointing_execution in
        let burned = stages.burned_area_execution in
        let (ps, e, built1) = and_then-some _ _ out built in
        let (spatial, f, built2) =
          and_then-some (compose x checks contract_of inference_ms batch legacy stages ps)
            (spatial_execution x checks contract_of inference_ms batch legacy stages ps) out
            built1 in
        let (is, g, built3) =
          and_then-some
            (compose_items x checks contract_of inference_ms batch legacy stages spatial)
            (item_results x checks.accept_item batch burned spatial ps) out built2 in
        let (draft, h, built4) =
          and_then-some
            (λ draft.
              accepted_output x checks contract_of inference_ms batch legacy stages
                (output_of x checks contract_of inference_ms batch legacy stages spatial is draft))
            (report x checks.report batch is) out built3 in
        subst (IsFaithful batch legacy stages)
          (if-some
            (checks.accept_output
              (output_of x checks contract_of inference_ms batch legacy stages spatial is draft))
            _ out built4)
          (output_of-IsFaithful ps is spatial draft
            (prepare-ArePrepared batch pointing burned legacy.items ps e)
            (traverse-All₂ (IsItem batch pointing burned)
              (item_result x checks.accept_item batch burned spatial)
              (item_result-IsItem batch pointing burned checks.accept_item spatial) ps is g)
            h)
