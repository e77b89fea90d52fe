-- ===== src/V2Runner/Report.antt =====
-- v2_runner.py, `_report`: the draft of a situation report over an analysis window.
pub mod Laws
use fireviewer_orchestrator.Common.{
  String, ◌+++◌, Bool, true, false, Option, none, some, List, [], ◌∷◌, ◌++◌, ◌||◌, if◌then◌else◌,
  or_else, map, traverse, concat, any, not, ◌&&◌,
}
use fireviewer_orchestrator.Common.Order.{Ord, ◌==◌, string_ord}
use fireviewer_orchestrator.Common.Sets.{ordered}
use fireviewer_orchestrator.Common.Dict.{lookup, put, values}
use fireviewer_orchestrator.Common.Texts.{join}
use fireviewer_orchestrator.Contracts.{text_or}
use fireviewer_orchestrator.V2Runner.{
  Externals, WorkerInputV2, WorkerBatchItemV2, ProvenanceV2, FactProposalV2, SpatialProposalV2,
  WorkerItemResultV2, index_by, FactCategory, fire_activity, burned_area, resources, evacuation,
  access, infrastructure, weather, other,
}

pub record ReportSectionV2 : Type 0 where
  pub key : String
  pub heading : String
  pub body : String
  pub fact_ids : List String
  pub basis_codes : List String

pub record SituationReportDraftV2 : Type 0 where
  pub title : String
  pub body_markdown : String
  pub sections : List ReportSectionV2

-- The validators of the two records: the limits on their texts and lists, and unique fact ids. They
-- belong to another package.
pub record ReportChecks : Type 0 where
  pub accept_section : ReportSectionV2 → Bool
  pub accept_draft : SituationReportDraftV2 → Bool

-- Every section and the draft itself are accepted.
unfoldable pub accepts : ReportChecks → SituationReportDraftV2 → Bool
accepts checks draft =
    not (any (λ s. not (checks.accept_section s)) draft.sections) && checks.accept_draft draft

unfoldable pub accepted_draft :
    ReportChecks → Option SituationReportDraftV2 → Option SituationReportDraftV2
accepted_draft checks none = none
accepted_draft checks (some draft) = if accepts checks draft then some draft else none

-- `section_for_category`
unfoldable pub section_for_category : FactCategory → String
section_for_category fire_activity = "observed_activity"
section_for_category burned_area = "observed_activity"
section_for_category resources = "resources"
section_for_category evacuation = "impacts"
section_for_category access = "impacts"
section_for_category infrastructure = "impacts"
section_for_category weather = "situation"
section_for_category other = "situation"

-- `headings`, in the order in which the loop goes through its keys.
abbrev pub headings : List (String × String)
headings =
    ("situation", "Situation et consignes")
    ∷ ("observed_activity", "Activité observée")
    ∷ ("resources", "Moyens engagés")
    ∷ ("impacts", "Population, impacts et accès")
    ∷ []

abbrev pub Sources : Type 0
Sources = List (String × ProvenanceV2)

module _ (x : Externals) where
  -- `source_by_input`
  abbrev pub source_by_input : List (WorkerBatchItemV2 x) → Sources
  source_by_input items = index_by x (λ (item : WorkerBatchItemV2 x). item.provenance) [] items

  abbrev pub label_of : ProvenanceV2 → String
  label_of source =
      text_or source.attribution (text_or source.source_policy_domain source.source_key)

  abbrev pub is_text_of : String → Option String → Bool
  is_text_of s none = false
  is_text_of s (some t) = t == s

  unfoldable pub fact_line : FactProposalV2 x → ProvenanceV2 → String
  fact_line fact source =
      "- "
      +++ fact.summary
      +++ " — "
      +++ label_of source
      +++ ", "
      +++ x.isoformat fact.as_of
      +++ " ("
      +++ (if is_text_of "lead" source.source_confidence || is_text_of "press" source.source_kind
          then "rapporté, à recouper"
          else "source institutionnelle ou technique")
      +++ ")"

  -- `sourced_fact_line`: none is the `KeyError` of an unknown input.
  abbrev pub sourced_fact_line : Sources → FactProposalV2 x → Option String
  sourced_fact_line d fact = elim (lookup fact.input_id d) [
    | none ↦ none
    | some source ↦ some (fact_line fact source)
  ]

  -- `facts_by_section`
  unfoldable pub facts_by_section :
      List (String × List (FactProposalV2 x))
      → List (FactProposalV2 x)
      → List (String × List (FactProposalV2 x))
  facts_by_section d [] = d
  facts_by_section d (fact ∷ facts) =
      let key = section_for_category fact.category in
      facts_by_section (put key (or_else (lookup key d) [] ++ fact ∷ []) d) facts

  abbrev pub fact_ids : List (FactProposalV2 x) → List String
  fact_ids facts = map (λ (f : FactProposalV2 x). f.fact_id) facts

  -- The section of a key, before the later ones, unless it has no facts.
  unfoldable pub add_section :
      String
      → String
      → List (FactProposalV2 x)
      → Option (List String)
      → Option (List ReportSectionV2)
      → Option (List ReportSectionV2)
  add_section key heading [] lines rest = rest
  add_section key heading (f ∷ fs) (some lines) (some rest) = some (
      record {
        key = key;
        heading = heading;
        body = join "\n" lines;
        fact_ids = fact_ids (f ∷ fs);
        basis_codes = [];
      }
      ∷ rest)
  add_section key heading (f ∷ fs) _ _ = none

  unfoldable pub fact_sections :
      Sources
      → List (String × List (FactProposalV2 x))
      → List (String × String)
      → Option (List ReportSectionV2)
  fact_sections d groups [] = some []
  fact_sections d groups ((key, heading) ∷ keys) =
      let facts = or_else (lookup key groups) [] in
      add_section key heading facts (traverse (sourced_fact_line d) facts)
        (fact_sections d groups keys)

  -- The label, the confidence and the address of a source.
  abbrev pub source_entry : ProvenanceV2 → String × (String × String)
  source_entry source = (
    label_of source,
    (text_or source.source_confidence source.trust, text_or source.source_reference_url "sans URL"),
  )

  abbrev pub source_line : String × (String × String) → String
  source_line (label, (confidence, url)) =
      "- " +++ label +++ " — niveau " +++ confidence +++ " — " +++ url

  -- `sources`
  unfoldable pub sources_of :
      Sources
      → List (String × (String × (String × String)))
      → List (FactProposalV2 x)
      → Option (List (String × (String × (String × String))))
  sources_of d sources [] = some sources
  sources_of d sources (fact ∷ facts) = elim (lookup fact.input_id d) [
    | none ↦ none
    | some source ↦ sources_of d (put source.source_key (source_entry source) sources) facts
  ]

  -- The section on the sources, after the others, where they could be written.
  unfoldable pub sources_section :
      List (FactProposalV2 x)
      → Option (List (String × (String × (String × String))))
      → Option (List ReportSectionV2)
      → Option (List ReportSectionV2)
  sources_section facts sources none = none
  sources_section [] sources (some sections) = some sections
  sources_section (f ∷ fs) none (some sections) = none
  sources_section (f ∷ fs) (some sources) (some sections) = some (
      sections
      ++ record {
        key = "sources_and_freshness";
        heading = "Sources et fraîcheur";
        body = join "\n" (map source_line (values sources));
        fact_ids = fact_ids (f ∷ fs);
        basis_codes = [];
      }
        ∷ [])

  abbrev pub all_facts : List (WorkerItemResultV2 x) → List (FactProposalV2 x)
  all_facts items = concat (map (λ (r : WorkerItemResultV2 x). r.fact_proposals) items)

  abbrev pub all_codes : List (WorkerItemResultV2 x) → List String
  all_codes items = concat (
      map (λ (p : SpatialProposalV2 x). p.uncertainty_codes)
        (concat (map (λ (r : WorkerItemResultV2 x). r.spatial_proposals) items)))

  abbrev pub or_no_fact : List String → List String
  or_no_fact [] = "no_explicit_fact_extracted" ∷ []
  or_no_fact (c ∷ cs) = c ∷ cs

  -- The section on the limits, where there is no other.
  unfoldable pub or_limitations :
      List (WorkerItemResultV2 x) → List ReportSectionV2 → List ReportSectionV2
  or_limitations items [] =
      record {
        key = "limitations";
        heading = "Limites";
        body = "Aucun fait explicite exploitable n'a été extrait pour cette fenêtre.";
        fact_ids = [];
        basis_codes = or_no_fact (ordered (all_codes items));
      }
      ∷ []
  or_limitations items (s ∷ ss) = s ∷ ss

  abbrev pub section_text : ReportSectionV2 → String
  section_text section = "## " +++ section.heading +++ "\n\n" +++ section.body

  unfoldable pub draft_of :
      WorkerInputV2 x → List (WorkerItemResultV2 x) → List ReportSectionV2 → SituationReportDraftV2
  draft_of batch items sections =
      let all_sections = or_limitations items sections in
      record {
        title = "Point de situation du " +++ batch.local_date;
        body_markdown = join "\n\n" (map section_text all_sections);
        sections = all_sections;
      }

  -- The sections with facts and the one on their sources.
  unfoldable pub sections_of : Sources → List (FactProposalV2 x) → Option (List ReportSectionV2)
  sections_of d facts =
      sources_section facts (sources_of d [] facts)
        (fact_sections d (facts_by_section [] facts) headings)

  unfoldable pub drafted :
      WorkerInputV2 x
      → List (WorkerItemResultV2 x)
      → Option (List ReportSectionV2)
      → Option SituationReportDraftV2
  drafted batch items none = none
  drafted batch items (some sections) = some (draft_of batch items sections)

  -- `_report` but for the validators
  unfoldable pub planned_report :
      WorkerInputV2 x → List (WorkerItemResultV2 x) → Option SituationReportDraftV2
  unfolding drafted
  planned_report batch items =
      drafted batch items (sections_of (source_by_input batch.items) (all_facts items))

  -- `_report`. Each section that it builds stands in the draft, so a section that a validator refuses
  -- is one of the draft's; none is an exception.
  unfoldable pub report :
      ReportChecks → WorkerInputV2 x → List (WorkerItemResultV2 x) → Option SituationReportDraftV2
  report checks batch items = accepted_draft checks (planned_report batch items)
