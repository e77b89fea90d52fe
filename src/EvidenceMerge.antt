-- ===== src/EvidenceMerge.antt =====
-- mvp/orchestration/evidence_merge.py: the merge of providers' records of one event. The models of
-- `fireviewer_contracts` are a parameter: a type of items with their equality and identifiers.
pub mod Laws
use fireviewer_orchestrator.Common.{
  ℕ, nat_eq, String, Bool, true, false, Option, none, some, List, [], ◌∷◌, ◌≡◌, ◌↔◌, ◌||◌,
  if◌then◌else◌, any, map, not,
}
use fireviewer_orchestrator.Common.Order.{Ord, ◌==◌, string_ord}
use fireviewer_orchestrator.Common.Sets.{ordered}
use fireviewer_orchestrator.Common.Dict.{keys, lookup, put}

-- The collections of `EventEvidenceV1` that are merged, in the order of the source.
pub data Label : Type 0 where
  source claim media visual_observation satellite_observation : Label
  location_candidate candidate_cluster contradiction uncertainty : Label

abbrev pub labels : List Label
labels =
    source ∷ claim ∷ media ∷ visual_observation ∷ satellite_observation ∷ location_candidate
    ∷ candidate_cluster ∷ contradiction ∷ uncertainty ∷ []

abbrev pub label_index : Label → ℕ
label_index source = 0
label_index claim = 1
label_index media = 2
label_index visual_observation = 3
label_index satellite_observation = 4
label_index location_candidate = 5
label_index candidate_cluster = 6
label_index contradiction = 7
label_index uncertainty = 8

abbrev pub label_eq : Label → Label → Bool
label_eq l m = nat_eq (label_index l) (label_index m)

pub data MergeError : Type 0 where
  no_records different_events different_windows different_areas invalid : MergeError
  conflicting : Label → String → MergeError

pub data Merged (A : Type 0) : Type 0 where
  merged : A → Merged A
  refused : MergeError → Merged A

pub record Evidence (Item : Type 0) : Type 0 where
  pub event_id : String
  pub time_window : String
  pub candidate_area : String
  pub collection : Label → List Item
  pub needs_human_review : Bool

-- `==` of the items, and the identifiers of each collection.
pub record Items (Item : Type 0) : Type 0 where
  pub same : Item → Item → Bool
  pub same_iff : (a b : Item) → (same a b ≡ true) ↔ (a ≡ b)
  pub identifier : Label → Item → String

module _ {Item : Type 0} (items : Items Item) where
  module _ (label : Label) where
    -- The inner loop of `_merge_records`.
    unfoldable pub merge_collection :
        List (String × Item) → List Item → Merged (List (String × Item))
    merge_collection d [] = merged d
    merge_collection d (x ∷ xs) =
        let item_id = items.identifier label x in
        let rest = merge_collection (put item_id x d) xs in
        elim (lookup item_id d) [
          | none ↦ rest
          | some existing ↦
              if items.same existing x then rest else refused (conflicting label item_id)
        ]

    -- The outer loop.
    unfoldable pub merge_collections :
        List (String × Item) → List (List Item) → Merged (List (String × Item))
    merge_collections d [] = merged d
    merge_collections d (c ∷ cs) = elim (merge_collection d c) [
      | refused e ↦ refused e
      | merged d' ↦ merge_collections d' cs
    ]

    -- `tuple(merged[item_id] for item_id in sorted(merged))`, at the sorted keys
    unfoldable pub pick_items : List (String × Item) → List String → List Item
    pick_items d [] = []
    pick_items d (k ∷ ks) = elim (lookup k d) [
      | none ↦ pick_items d ks
      | some x ↦ x ∷ pick_items d ks
    ]

    -- `_merge_records`
    unfoldable pub merge_records : List (List Item) → Merged (List Item)
    merge_records records = elim (merge_collections [] records) [
      | refused e ↦ refused e
      | merged d ↦ merged (pick_items d (ordered (keys d)))
    ]

  -- The loop that holds the records against the first.
  unfoldable pub check_records : Evidence Item → List (Evidence Item) → Option MergeError
  check_records reference [] = none
  check_records reference (r ∷ rs) =
      let rest = check_records reference rs in
      if not (r.event_id == reference.event_id)
      then some different_events
      else if not (r.time_window == reference.time_window)
      then some different_windows
      else if not (r.candidate_area == reference.candidate_area)
      then some different_areas
      else rest

  -- The collections of the update, merged in order; the first conflict raises.
  unfoldable pub merge_labels :
      List (Evidence Item) → List Label → (Label → List Item) → Merged (Label → List Item)
  merge_labels records [] out = merged out
  merge_labels records (l ∷ ls) out =
      elim (merge_records l (map (λ (r : Evidence Item). r.collection l) records)) [
        | refused e ↦ refused e
        | merged xs ↦ merge_labels records ls (λ m. if label_eq m l then xs else out m)
      ]

  -- `merge_event_evidence`. The validation of the merged record is another package's.
  unfoldable pub merge_event_evidence :
      (Evidence Item → Bool) → List (Evidence Item) → Merged (Evidence Item)
  merge_event_evidence model_validate [] = refused no_records
  merge_event_evidence model_validate (reference ∷ rest) = elim (check_records reference rest) [
    | some e ↦ refused e
    | none ↦ elim (merge_labels (reference ∷ rest) labels reference.collection) [
      | refused e ↦ refused e
      | merged collection ↦
          let out : Evidence Item = record reference {
            collection = collection;
            needs_human_review =
                any (λ (r : Evidence Item). r.needs_human_review) (reference ∷ rest);
          } in
          if model_validate out then merged out else refused invalid
    ]
  ]
