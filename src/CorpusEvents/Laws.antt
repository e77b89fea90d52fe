-- ===== src/CorpusEvents/Laws.antt =====
-- What a prepared case keeps of its media: their order, their sources and their paths.
use fireviewer_orchestrator.Common.{
  String, ◌+++◌, Bool, true, false, Option, none, some, List, ◌≡◌, refl, sym, ap, subst, arith,
  if◌then◌else◌, or_else, traverse, All₂, traverse-All₂,
}
use fireviewer_orchestrator.Common.Order.{string_ord}
use fireviewer_orchestrator.Common.Sets.{contains}
use fireviewer_orchestrator.CorpusEvents.{
  Measures, CaseMedia, EvidenceMedia, Case, CorpusEventRuntimeInput, source_ids, medium_at,
  medium_of, runtime_input, validate_paths, validated, prepared, prepare_corpus_event,
}

module _ (x : Measures) (c : Case x) where
  -- A medium as it is in the case, of a source of the case, with its path.
  pub record IsQualified (item : CaseMedia) (m : EvidenceMedia × String) : Type 0 where
    pub same_media : m.0.media_id ≡ item.media_id
    pub path : some m.1 ≡ item.relative_path
    pub digest : some m.0.sha256 ≡ item.media_sha256
    pub known_source : contains m.0.source_id (source_ids x c) ≡ true

  medium_at-IsQualified :
      (item : CaseMedia) (path digest : Option String) (m : EvidenceMedia × String)
      → path ≡ item.relative_path
      → digest ≡ item.media_sha256
      → medium_at x c item path digest ≡ some m
      → IsQualified item m
  unfolding medium_at
  medium_at-IsQualified item (some path) (some digest) m p d e =
      go (contains item.source_id (source_ids x c)) refl e
    where
      made : EvidenceMedia × String
      made = (
        record {
          media_id = item.media_id;
          source_id = item.source_id;
          media_group_id = "GROUP-" +++ x.sha256_24 (c.case_id +++ ":" +++ item.origin_id);
          origin_id = item.origin_id;
          sha256 = digest;
          captured_at = item.captured_at;
        },
        path,
      )

      go :
          (b : Bool)
          → contains item.source_id (source_ids x c) ≡ b
          → (if b then some made else none) ≡ some m
          → IsQualified item m
      go true known q =
          subst (IsQualified item) (ap (λ o. or_else o m) q)
            (record { same_media = refl; path = p; digest = d; known_source = known })
      go false known q = absurd (ground (arith, q))
  medium_at-IsQualified item none digest m p d e = absurd (ground (arith, e))
  medium_at-IsQualified item (some path) none m p d e = absurd (ground (arith, e))

  prepared-media :
      (o : Option (List (EvidenceMedia × String))) (input : CorpusEventRuntimeInput x)
      → prepared x c o ≡ some input
      → (ms : List (EvidenceMedia × String)) × (o ≡ some ms) × (input ≡ runtime_input x c ms)
  unfolding prepared validated
  prepared-media none input e = absurd (ground (arith, e))
  prepared-media (some ms) input e = go (validate_paths x (runtime_input x c ms)) e
    where
      go :
          (b : Bool)
          → (if b then some (runtime_input x c ms) else none) ≡ some input
          → (ns : List (EvidenceMedia × String)) × (some ms ≡ some ns)
            × (input ≡ runtime_input x c ns)
      go true q = (ms, refl, sym (ap (λ o. or_else o input) q))
      go false q = absurd (ground (arith, q))

  -- A case that is prepared has all its media, in order, each with its path and its digest and of a
  -- source of the case.
  pub prepare_corpus_event-IsQualified :
      (input : CorpusEventRuntimeInput x)
      → prepare_corpus_event x c ≡ some input
      → (ms : List (EvidenceMedia × String)) × (input ≡ runtime_input x c ms)
        × All₂ IsQualified c.media ms
  unfolding prepare_corpus_event
  prepare_corpus_event-IsQualified input e =
      let (ms, made, whole) = prepared-media (traverse (medium_of x c) c.media) input e in
      (
        ms,
        whole,
        traverse-All₂ IsQualified (medium_of x c)
            (λ item m q.
              medium_at-IsQualified item item.relative_path item.media_sha256 m refl refl q)
            c.media ms made,
      )
