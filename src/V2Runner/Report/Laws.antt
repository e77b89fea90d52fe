-- ===== src/V2Runner/Report/Laws.antt =====
-- The report: where the facts' inputs are known, every fact stands in its section of the draft.
use fireviewer_orchestrator.Common.{
  String, Bool, true, none, some, List, [], ◌∷◌, ◌++◌, ◌≡◌, refl, sym, ap, ap₂, ◌∙◌, subst, arith,
  Bool-cases, inl, inr, All, All-imp, All-keep, any, any-append, keep, or_else, nonempty, ◌&&◌,
  traverse, traverse-returns, if◌then◌else◌,
}
use fireviewer_orchestrator.Common.Order.{◌==◌, string_ord}
use fireviewer_orchestrator.Common.Sets.{contains, eqb_refl, eqb_sym}
use fireviewer_orchestrator.Common.Dict.{lookup, put, lookup-put}
use fireviewer_orchestrator.V2Runner.{
  Externals, WorkerInputV2, FactProposalV2, WorkerItemResultV2, ProvenanceV2, FactCategory,
  fire_activity, burned_area, resources, evacuation, access, infrastructure, weather, other,
}
use fireviewer_orchestrator.V2Runner.Report.{
  ReportSectionV2, SituationReportDraftV2, section_for_category, headings, Sources, source_by_input,
  sourced_fact_line, facts_by_section, fact_ids, add_section, fact_sections, sources_of,
  source_entry, sources_section, sections_of, all_facts, or_limitations, draft_of, drafted,
  planned_report, report, ReportChecks, accepts, accepted_draft, fact_line,
}

-- A section of a key lists a fact.
abbrev pub lists : String → String → List ReportSectionV2 → Bool
lists key id sections =
    any (λ (s : ReportSectionV2). (s.key == key) && contains id s.fact_ids) sections

module _ (x : Externals) where
  -- The source of a fact's input is known.
  abbrev pub Known : Sources → FactProposalV2 x → Type 0
  Known d fact = (source : ProvenanceV2) × (lookup fact.input_id d ≡ some source)

  abbrev has_key : String → FactProposalV2 x → Bool
  has_key key fact = section_for_category fact.category == key

  append_assoc : (xs ys zs : List (FactProposalV2 x)) → (xs ++ ys) ++ zs ≡ xs ++ (ys ++ zs)
  append_assoc [] ys zs = refl
  append_assoc (y ∷ xs) ys zs = ap (λ l. y ∷ l) (append_assoc xs ys zs)

  append_nil : (xs : List (FactProposalV2 x)) → xs ++ [] ≡ xs
  append_nil [] = refl
  append_nil (y ∷ xs) = ap (λ l. y ∷ l) (append_nil xs)

  group_put :
      (key k : String) (d : List (String × List (FactProposalV2 x))) (f : FactProposalV2 x)
      (rest : List (FactProposalV2 x))
      → or_else (lookup key (put k (or_else (lookup k d) [] ++ f ∷ []) d)) [] ++ rest
        ≡ or_else (lookup key d) [] ++ (if k == key then f ∷ rest else rest)
  group_put key k d f rest =
      subst
        (λ o.
          or_else o [] ++ rest ≡ or_else (lookup key d) [] ++ (if k == key then f ∷ rest else rest))
        (sym (lookup-put k (or_else (lookup k d) [] ++ f ∷ []) d key))
        (elim (Bool-cases (k == key)) [
          | inl same ↦
              subst
                (λ j.
                  or_else (if j == k then some (or_else (lookup k d) [] ++ f ∷ []) else lookup j d)
                      []
                    ++ rest
                  ≡ or_else (lookup j d) [] ++ (if k == j then f ∷ rest else rest))
                ((string_ord.eqb_iff k key).0 same)
                (rw (eqb_refl k) (append_assoc (or_else (lookup k d) []) (f ∷ []) rest))
          | inr differs ↦ rw (differs, eqb_sym key k, differs) refl
        ])

  -- The group of a key: what it had, then the facts of that key in order.
  lookup-facts_by_section :
      (key : String) (d : List (String × List (FactProposalV2 x))) (facts : List (FactProposalV2 x))
      → or_else (lookup key (facts_by_section x d facts)) []
        ≡ or_else (lookup key d) [] ++ keep (has_key key) facts
  unfolding facts_by_section
  lookup-facts_by_section key d [] = sym (append_nil _)
  lookup-facts_by_section key d (f ∷ facts) =
      let k = section_for_category f.category in
      lookup-facts_by_section key (put k (or_else (lookup k d) [] ++ f ∷ []) d) facts
      ∙ group_put key k d f (keep (has_key key) facts)

  lookup-sections :
      (key : String) (facts : List (FactProposalV2 x))
      → or_else (lookup key (facts_by_section x [] facts)) [] ≡ keep (has_key key) facts
  unfolding lookup
  lookup-sections key facts = lookup-facts_by_section key [] facts

  listed_there :
      (facts : List (FactProposalV2 x))
      → All (λ (f : FactProposalV2 x). contains f.fact_id (fact_ids x facts) ≡ true) facts
  listed_there [] = tt
  listed_there (f ∷ facts) = (
    ground (arith, string_ord.eqb_iff f.fact_id f.fact_id),
    All-imp (λ (g : FactProposalV2 x). contains g.fact_id (fact_ids x facts) ≡ true) _ facts
        (λ g h. ground (arith, h)) (listed_there facts),
  )

  -- A fact under the key of its category, and the others.
  split_category :
      (P : String → FactProposalV2 x → Type 0) (f : FactProposalV2 x) (c : FactCategory)
      (ss os rs is : List (FactProposalV2 x))
      → All (P "situation") (if section_for_category c == "situation" then f ∷ ss else ss)
      → All
          (P "observed_activity")
          (if section_for_category c == "observed_activity" then f ∷ os else os)
      → All (P "resources") (if section_for_category c == "resources" then f ∷ rs else rs)
      → All (P "impacts") (if section_for_category c == "impacts" then f ∷ is else is)
      → P (section_for_category c) f
        × (All (P "situation") ss
            × (All (P "observed_activity") os × (All (P "resources") rs × All (P "impacts") is)))
  unfolding section_for_category
  split_category P f fire_activity ss os rs is s o r i = (o.0, (s, (o.1, (r, i))))
  split_category P f burned_area ss os rs is s o r i = (o.0, (s, (o.1, (r, i))))
  split_category P f resources ss os rs is s o r i = (r.0, (s, (o, (r.1, i))))
  split_category P f evacuation ss os rs is s o r i = (i.0, (s, (o, (r, i.1))))
  split_category P f access ss os rs is s o r i = (i.0, (s, (o, (r, i.1))))
  split_category P f infrastructure ss os rs is s o r i = (i.0, (s, (o, (r, i.1))))
  split_category P f weather ss os rs is s o r i = (s.0, (s.1, (o, (r, i))))
  split_category P f other ss os rs is s o r i = (s.0, (s.1, (o, (r, i))))

  -- A fact of each category stands among the facts of its key.
  by_category :
      (P : String → FactProposalV2 x → Type 0) (facts : List (FactProposalV2 x))
      → All (P "situation") (keep (has_key "situation") facts)
      → All (P "observed_activity") (keep (has_key "observed_activity") facts)
      → All (P "resources") (keep (has_key "resources") facts)
      → All (P "impacts") (keep (has_key "impacts") facts)
      → All (λ (f : FactProposalV2 x). P (section_for_category f.category) f) facts
  by_category P [] s o r i = tt
  by_category P (f ∷ facts) s o r i =
      let (first, (ss, (os, (rs, is)))) = split_category P f f.category _ _ _ _ s o r i in
      (first, by_category P facts ss os rs is)

  -- What a section of a key and the later ones list.
  add_section-returns :
      (key heading : String) (facts : List (FactProposalV2 x)) (lines : List String)
      (rest : List ReportSectionV2)
      → (sections : List ReportSectionV2) × (add_section x key heading facts
            (some lines)
            (some rest)
          ≡ some sections)
        × All (λ (f : FactProposalV2 x). lists key f.fact_id sections ≡ true) facts
        × ((k : String) (id : String) → lists k id rest ≡ true → lists k id sections ≡ true)
  unfolding add_section
  add_section-returns key heading [] lines rest = (rest, refl, tt, λ k id h. h)
  add_section-returns key heading (f ∷ fs) lines rest = (
    _,
    refl,
    All-imp (λ (g : FactProposalV2 x). contains g.fact_id (fact_ids x (f ∷ fs)) ≡ true) _ (f ∷ fs)
        (λ g h. ground (arith, h, eqb_refl key)) (listed_there (f ∷ fs)),
    λ k id h. ground (arith, h),
  )

  -- The facts of a key.
  abbrev group : List (String × List (FactProposalV2 x)) → String → List (FactProposalV2 x)
  group groups key = or_else (lookup key groups) []

  -- A list of keys whose groups are listed.
  abbrev Covered :
      List (String × List (FactProposalV2 x))
      → List ReportSectionV2
      → List (String × String)
      → Type 0
  Covered groups sections keys =
      All
        (λ ((k, h) : String × String).
          All (λ (f : FactProposalV2 x). lists k f.fact_id sections ≡ true) (group groups k))
        keys

  lines-returns :
      (d : Sources) (facts : List (FactProposalV2 x))
      → All (Known d) facts
      → (lines : List String) × (traverse (sourced_fact_line x d) facts ≡ some lines)
  lines-returns d facts known =
      traverse-returns (sourced_fact_line x d) facts (
        All-imp (Known d) _ facts (λ f (source, e). (fact_line x f source, ground (arith, e)))
          known)

  fact_sections-returns :
      (d : Sources) (groups : List (String × List (FactProposalV2 x)))
      (keys : List (String × String))
      → All (λ ((k, h) : String × String). All (Known d) (group groups k)) keys
      → (sections : List ReportSectionV2) × (fact_sections x d groups keys ≡ some sections)
        × Covered groups sections keys
  unfolding fact_sections
  fact_sections-returns d groups [] known = ([], refl, tt)
  fact_sections-returns d groups ((k, h) ∷ keys) (known, others) =
      let (rest, e, covered) = fact_sections-returns d groups keys others in
      let (lines, l) = lines-returns d (group groups k) known in
      let (sections, s, listed, later) = add_section-returns k h (group groups k) lines rest in
      (
        sections,
        ap₂ (add_section x k h (group groups k)) l e ∙ s,
        (
          listed,
          All-imp
              (λ ((j, i) : String × String).
                All (λ (f : FactProposalV2 x). lists j f.fact_id rest ≡ true) (group groups j))
              _ keys
              (λ (j, i) c.
                All-imp (λ (f : FactProposalV2 x). lists j f.fact_id rest ≡ true) _ _
                  (λ f g. later j f.fact_id g) c)
              covered,
        ),
      )

  sources_of-returns :
      (d : Sources) (sources : List (String × (String × (String × String))))
      (facts : List (FactProposalV2 x))
      → All (Known d) facts
      → (result : List (String × (String × (String × String)))) × (sources_of x d sources facts
          ≡ some result)
  unfolding sources_of
  sources_of-returns d sources [] known = (sources, refl)
  sources_of-returns d sources (f ∷ facts) ((source, e), known) =
      let (result, r) =
        sources_of-returns d (put source.source_key (source_entry x source) sources) facts known in
      (result, ground (arith, e, r))

  sources_section-returns :
      (facts : List (FactProposalV2 x)) (sources : List (String × (String × (String × String))))
      (sections : List ReportSectionV2)
      → (result : List ReportSectionV2) × (sources_section x facts (some sources) (some sections)
          ≡ some result)
        × ((k : String) (id : String) → lists k id sections ≡ true → lists k id result ≡ true)
  unfolding sources_section
  sources_section-returns [] sources sections = (sections, refl, λ k id h. h)
  sources_section-returns (f ∷ fs) sources sections =
      (_, refl, λ k id h. rw (any-append _ sections _, h) refl)

  -- `Listed` facts: each in the section of its category.
  abbrev pub AllListed : List (FactProposalV2 x) → List ReportSectionV2 → Type 0
  AllListed facts sections =
      All
        (λ (f : FactProposalV2 x).
          lists (section_for_category f.category) f.fact_id sections ≡ true)
        facts

  sections_of-returns :
      (d : Sources) (facts : List (FactProposalV2 x))
      → All (Known d) facts
      → (sections : List ReportSectionV2) × (sections_of x d facts ≡ some sections)
        × AllListed facts sections
  unfolding sections_of
  sections_of-returns d facts known =
      let groups = facts_by_section x [] facts in
      let keyed = λ (key : String).
        subst (All (Known d)) (sym (lookup-sections key facts))
          (All-keep (Known d) (has_key key) facts known) in
      let (sections, e, (s, (o, (r, (i, t))))) = fact_sections-returns d groups headings (
        keyed "situation",
        (keyed "observed_activity", (keyed "resources", (keyed "impacts", tt))),
      ) in
      let (sources, g) = sources_of-returns d [] facts known in
      let (result, q, later) = sources_section-returns facts sources sections in
      let kept = λ (key : String).
        subst (All (λ (f : FactProposalV2 x). lists key f.fact_id sections ≡ true))
          (lookup-sections key facts) in
      (
        result,
        ap₂ (sources_section x facts) g e ∙ q,
        All-imp
            (λ (f : FactProposalV2 x).
              lists (section_for_category f.category) f.fact_id sections ≡ true)
            _ facts (λ f l. later (section_for_category f.category) f.fact_id l)
            (by_category (λ key f. lists key f.fact_id sections ≡ true) facts (kept "situation" s)
              (kept "observed_activity" o) (kept "resources" r) (kept "impacts" i)),
      )

  or_limitations-lists :
      (items : List (WorkerItemResultV2 x)) (sections : List ReportSectionV2) (k id : String)
      → lists k id sections ≡ true
      → lists k id (or_limitations x items sections) ≡ true
  unfolding or_limitations
  or_limitations-lists items [] k id h = ground (arith, h)
  or_limitations-lists items (s ∷ ss) k id h = h

  nonempty-or_limitations :
      (items : List (WorkerItemResultV2 x)) (sections : List ReportSectionV2)
      → nonempty (or_limitations x items sections) ≡ true
  unfolding or_limitations
  nonempty-or_limitations items [] = refl
  nonempty-or_limitations items (s ∷ ss) = refl

  planned_report-returns :
      (batch : WorkerInputV2 x) (items : List (WorkerItemResultV2 x))
      → All (Known (source_by_input x batch.items)) (all_facts x items)
      → (draft : SituationReportDraftV2) × (planned_report x batch items ≡ some draft)
        × (nonempty draft.sections ≡ true)
        × AllListed (all_facts x items) draft.sections
  unfolding planned_report draft_of
  planned_report-returns batch items known =
      let facts = all_facts x items in
      let (sections, e, listed) = sections_of-returns (source_by_input x batch.items) facts known in
      (
        draft_of x batch items sections,
        ap (drafted x batch items) e,
        nonempty-or_limitations items sections,
        All-imp
            (λ (f : FactProposalV2 x).
              lists (section_for_category f.category) f.fact_id sections ≡ true)
            _ facts
            (λ f l.
              or_limitations-lists items sections (section_for_category f.category) f.fact_id l)
            listed,
      )

  -- Where every fact's input is one of the batch, there is a draft that has a section and lists every
  -- fact of the items in a section of the key of its category; the report is that draft if the
  -- validators accept all its sections and itself, and an exception otherwise.
  pub report-returns :
      (checks : ReportChecks) (batch : WorkerInputV2 x) (items : List (WorkerItemResultV2 x))
      → All (Known (source_by_input x batch.items)) (all_facts x items)
      → (draft : SituationReportDraftV2) × (report x checks batch items
          ≡ (if accepts checks draft then some draft else none))
        × (planned_report x batch items ≡ some draft)
        × (nonempty draft.sections ≡ true)
        × AllListed (all_facts x items) draft.sections
  unfolding report accepted_draft
  report-returns checks batch items known =
      let (draft, e, some_section, listed) = planned_report-returns batch items known in
      (draft, ap (accepted_draft checks) e, e, some_section, listed)
