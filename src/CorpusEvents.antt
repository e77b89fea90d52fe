-- ===== src/CorpusEvents.antt =====
-- corpus_event.py: a reviewed case of the corpus as the evidence of an event. Models of other packages
-- appear by the fields that the code reads; times, distances and SHA-256 are parameters.
pub mod Laws
use fireviewer_orchestrator.Common.{
  String, ◌+++◌, Bool, true, false, not, Option, none, some, List, [], ◌∷◌, ◌≡◌, refl, sym, ap, ◌∙◌,
  subst, arith, ◌&&◌, ◌||◌, if◌then◌else◌, map, all, any, nonempty, traverse, prepend, All, All₂,
  traverse-All₂, Bool-cases, inl, inr,
}
use fireviewer_orchestrator.Common.Order.{Ord, ◌==◌, string_ord}
use fireviewer_orchestrator.Common.Sets.{contains}
use fireviewer_orchestrator.Common.Dict.{put, keys}

-- Distances and shares, times, and the first 24 hexadecimal digits of a SHA-256. A time of day is that
-- of the start of a date in Paris.
pub record Measures : Type 1 where
  pub Real : Type 0
  pub Time : Type 0
  pub share : String → Real
  pub max : Real → Real → Real
  pub per_thousand : Real → Real
  pub haversine_m : Real × Real → Real × Real → Real
  pub midnight_in_paris : String → Time
  pub one_day_later : Time → Time
  pub sha256_24 : String → String

-- `_source_type`
unfoldable pub source_type : String → String
source_type kind =
    if kind == "press"
    then "press"
    else if kind == "official_social"
    then "social"
    else if kind == "copernicus_ems"
    then "satellite"
    else "official"

pub record CaseSource : Type 0 where
  pub source_id : String
  pub origin_id : String
  pub url : String
  pub publisher : String
  pub retrieved_at : String
  pub kind : String
  pub claim_summary : String

pub record CaseMedia : Type 0 where
  pub media_id : String
  pub source_id : String
  pub origin_id : String
  pub relative_path : Option String
  pub media_sha256 : Option String
  pub captured_at : Option String

-- The weight of a source is 1.
pub record EvidenceSource : Type 0 where
  pub source_id : String
  pub origin_id : String
  pub source_url : String
  pub publisher : String
  pub retrieved_at : String
  pub source_type : String

-- The kind of a medium is `photo`.
pub record EvidenceMedia : Type 0 where
  pub media_id : String
  pub source_id : String
  pub media_group_id : String
  pub origin_id : String
  pub sha256 : String
  pub captured_at : Option String

module _ (x : Measures) where
  pub record Case : Type 0 where
    pub case_id : String
    pub label : String
    pub event_date : String
    pub center_wgs84 : x.Real × x.Real
    pub min_lon : x.Real
    pub min_lat : x.Real
    pub max_lon : x.Real
    pub max_lat : x.Real
    pub basis : String
    pub provenance_source_id : String
    pub sources : List CaseSource
    pub media : List CaseMedia

  -- A claim's type is `event-context`.
  pub record Claim : Type 0 where
    pub claim_id : String
    pub source_id : String
    pub text : String
    pub observed_at : x.Time
    pub confidence : x.Real

  pub record CandidateArea : Type 0 where
    pub center : x.Real × x.Real
    pub radius_km : x.Real
    pub confidence : x.Real
    pub name : String
    pub supporting_source_ids : List String

  pub record EventEvidence : Type 0 where
    pub event_id : String
    pub from_at : x.Time
    pub to_at : x.Time
    pub candidate_area : CandidateArea
    pub sources : List EvidenceSource
    pub claims : List Claim
    pub media : List EvidenceMedia

  pub record CorpusEventRuntimeInput : Type 0 where
    pub evidence : EventEvidence
    pub relative_paths_by_media_id : List (String × String)

  -- `_candidate_radius_km`
  unfoldable pub candidate_radius_km : Case → x.Real
  candidate_radius_km c =
      let distance = x.haversine_m c.center_wgs84 in
      x.per_thousand (
        x.max (distance (c.min_lon, c.min_lat)) (
          x.max (distance (c.min_lon, c.max_lat))
            (x.max (distance (c.max_lon, c.min_lat)) (distance (c.max_lon, c.max_lat)))))

  unfoldable pub evidence_source : CaseSource → EvidenceSource
  evidence_source source = record {
    source_id = source.source_id;
    origin_id = source.origin_id;
    source_url = source.url;
    publisher = source.publisher;
    retrieved_at = source.retrieved_at;
    source_type = source_type source.kind;
  }

  unfoldable pub claim_of : Case → CaseSource → Claim
  claim_of c source = record {
    claim_id = "CLAIM-" +++ x.sha256_24 (c.case_id +++ ":" +++ source.source_id);
    source_id = source.source_id;
    text = source.claim_summary;
    observed_at = x.midnight_in_paris c.event_date;
    confidence = x.share (if source.kind == "press" then "0.65" else "0.8");
  }

  abbrev pub source_ids : Case → List String
  source_ids c = map (λ (s : CaseSource). s.source_id) c.sources

  -- One medium with its path; none is a ValueError.
  unfoldable pub medium_at :
      Case → CaseMedia → Option String → Option String → Option (EvidenceMedia × String)
  medium_at c item (some path) (some digest) =
      if contains item.source_id (source_ids c)
      then some (
        record {
          media_id = item.media_id;
          source_id = item.source_id;
          media_group_id = "GROUP-" +++ x.sha256_24 (c.case_id +++ ":" +++ item.origin_id);
          origin_id = item.origin_id;
          sha256 = digest;
          captured_at = item.captured_at;
        },
        path,
      )
      else none
  medium_at c item _ _ = none

  -- The body of the loop over the media.
  abbrev pub medium_of : Case → CaseMedia → Option (EvidenceMedia × String)
  medium_of c item = medium_at c item item.relative_path item.media_sha256

  -- `paths`
  unfoldable pub paths_of :
      List (String × String) → List (EvidenceMedia × String) → List (String × String)
  paths_of d [] = d
  paths_of d ((m, path) ∷ ms) = paths_of (put m.media_id path d) ms

  -- `min_length=1` and `validate_paths`
  unfoldable pub validate_paths : CorpusEventRuntimeInput → Bool
  validate_paths input =
      let media_ids = map (λ (m : EvidenceMedia). m.media_id) input.evidence.media in
      let path_ids = keys input.relative_paths_by_media_id in
      nonempty path_ids
      && all (λ id. contains id media_ids) path_ids
      && all (λ id. contains id path_ids) media_ids

  -- The input, once the media are there.
  unfoldable pub runtime_input : Case → List (EvidenceMedia × String) → CorpusEventRuntimeInput
  runtime_input c ms = record {
    evidence = record {
      event_id = c.case_id;
      from_at = x.midnight_in_paris c.event_date;
      to_at = x.one_day_later (x.midnight_in_paris c.event_date);
      candidate_area = record {
        center = c.center_wgs84;
        radius_km = candidate_radius_km c;
        confidence = x.share (if c.basis == "cems_activation_extent" then "0.8" else "0.65");
        name = c.label;
        supporting_source_ids = c.provenance_source_id ∷ [];
      };
      sources = map evidence_source c.sources;
      claims = map (claim_of c) c.sources;
      media = map (λ (p : EvidenceMedia × String). p.0) ms;
    };
    relative_paths_by_media_id = paths_of [] ms;
  }

  unfoldable pub validated : CorpusEventRuntimeInput → Option CorpusEventRuntimeInput
  validated input = if validate_paths input then some input else none

  unfoldable pub prepared :
      Case → Option (List (EvidenceMedia × String)) → Option CorpusEventRuntimeInput
  unfolding validated
  prepared c none = none
  prepared c (some ms) = validated (runtime_input c ms)

  -- `prepare_corpus_event`: none is a ValueError.
  unfoldable pub prepare_corpus_event : Case → Option CorpusEventRuntimeInput
  unfolding prepared
  prepare_corpus_event c = prepared c (traverse (medium_of c) c.media)
