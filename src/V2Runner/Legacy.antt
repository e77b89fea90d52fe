-- ===== src/V2Runner/Legacy.antt =====
-- v2_runner.py, `to_legacy_input`: a version 2 batch as the version 1 batch that a session runs. The
-- validation of the result is by `fireviewer_contracts`.
use fireviewer_orchestrator.Common.{
  String, false, Option, none, some, List, [], ◌∷◌, ◌≡◌, refl, ap₂, All, map, is_some,
  if◌then◌else◌, Bool-cases, inl, inr,
}
use fireviewer_orchestrator.Common.Order.{◌==◌, string_ord}
use fireviewer_orchestrator.Common.Dict.{lookup}
use fireviewer_orchestrator.Contracts.{text_or, LocationOrigin}
use fireviewer_orchestrator.V2Runner.{
  Externals, WorkerInputV2, WorkerBatchItemV2, CameraV2, ProvenanceV2,
}

-- `origin_by_pose`
abbrev pub origin_by_pose : List (String × LocationOrigin)
origin_by_pose =
    ("METADATA", LocationOrigin.metadata)
    ∷ ("USER_DECLARED", LocationOrigin.user_declared)
    ∷ ("HUMAN_CONFIRMED", LocationOrigin.human_confirmed)
    ∷ []

module _ (x : Externals) where
  pub record InputMetadata : Type 0 where
    pub captured_at : Option x.Time
    pub latitude : Option x.Real
    pub longitude : Option x.Real
    pub gps_accuracy_m : Option x.Real
    pub location_origin : Option LocationOrigin

  pub record LegacyItem : Type 0 where
    pub input_id : String
    pub media_type : String
    pub working_file_url : Option String
    pub metadata : InputMetadata
    pub frame_ids : List String
    pub audio_url : Option String
    pub article_text : Option String
    pub source_context : ProvenanceV2

  pub record LegacyInput : Type 0 where
    pub batch_id : String
    pub items : List LegacyItem

  -- `InputMetadata(captured_at=…)`
  abbrev pub unlocated : Option x.Time → InputMetadata
  unlocated t = record {
    captured_at = t;
    latitude = none;
    longitude = none;
    gps_accuracy_m = none;
    location_origin = none;
  }

  unfoldable pub located :
      Option x.Time
      → Option x.Real
      → Option x.Real
      → Option x.Real
      → Option LocationOrigin
      → InputMetadata
  located t (some latitude) (some longitude) accuracy (some origin) = record {
    captured_at = t;
    latitude = some latitude;
    longitude = some longitude;
    gps_accuracy_m = accuracy;
    location_origin = some origin;
  }
  located t _ _ accuracy _ = unlocated t

  -- `_legacy_metadata`, at the capture time and the camera.
  unfoldable pub legacy_metadata : Option x.Time → Option (CameraV2 x) → InputMetadata
  unfolding located
  legacy_metadata t none = unlocated t
  legacy_metadata t (some camera) =
      located t camera.latitude camera.longitude camera.horizontal_accuracy_m
        (lookup (text_or camera.pose_origin "") origin_by_pose)

  unfoldable pub legacy_item : WorkerBatchItemV2 x → LegacyItem
  legacy_item item = record {
    input_id = item.input_id;
    media_type = if item.media_type == "satellite_data" then "article" else item.media_type;
    working_file_url = item.working_file_url;
    metadata = legacy_metadata item.captured_at item.camera;
    frame_ids = item.frame_ids;
    audio_url = item.audio_url;
    article_text = item.article_text;
    source_context = item.provenance;
  }

  -- `to_legacy_input`
  unfoldable pub to_legacy_input : WorkerInputV2 x → LegacyInput
  to_legacy_input batch = record { batch_id = batch.batch_id; items = map legacy_item batch.items }

  -- A location is whole, with an origin, or absent; and the media type is none of version 2's own.
  pub record IsVersionOne (i : LegacyItem) : Type 0 where
    pub pair : is_some i.metadata.latitude ≡ is_some i.metadata.longitude
    pub origin : is_some i.metadata.latitude ≡ is_some i.metadata.location_origin
    pub media : (i.media_type == "satellite_data") ≡ false

  abbrev WholeLocation : InputMetadata → Type 0
  WholeLocation m =
      (is_some m.latitude ≡ is_some m.longitude) × (is_some m.latitude ≡ is_some m.location_origin)

  located-WholeLocation :
      (t : Option x.Time) (lat lon accuracy : Option x.Real) (o : Option LocationOrigin)
      → WholeLocation (located t lat lon accuracy o)
  unfolding located
  located-WholeLocation t (some lat) (some lon) accuracy (some o) = (refl, refl)
  located-WholeLocation t none lon accuracy o = (refl, refl)
  located-WholeLocation t (some lat) none accuracy o = (refl, refl)
  located-WholeLocation t (some lat) (some lon) accuracy none = (refl, refl)

  legacy_metadata-WholeLocation :
      (t : Option x.Time) (c : Option (CameraV2 x)) → WholeLocation (legacy_metadata t c)
  unfolding legacy_metadata
  legacy_metadata-WholeLocation t none = (refl, refl)
  legacy_metadata-WholeLocation t (some c) = located-WholeLocation t _ _ _ _

  not_satellite_data :
      (m : String) → ((if m == "satellite_data" then "article" else m) == "satellite_data") ≡ false
  not_satellite_data m = elim (Bool-cases (m == "satellite_data")) [
    | inl e ↦ rw e refl
    | inr e ↦ rw (e, e) refl
  ]

  legacy_items-IsVersionOne :
      (items : List (WorkerBatchItemV2 x)) → All IsVersionOne (map legacy_item items)
  unfolding legacy_item
  legacy_items-IsVersionOne [] = tt
  legacy_items-IsVersionOne (i ∷ items) = (
    record {
      pair = (legacy_metadata-WholeLocation i.captured_at i.camera).0;
      origin = (legacy_metadata-WholeLocation i.captured_at i.camera).1;
      media = not_satellite_data i.media_type;
    },
    legacy_items-IsVersionOne items,
  )

  legacy_items-ids :
      (items : List (WorkerBatchItemV2 x))
      → map (λ (i : LegacyItem). i.input_id) (map legacy_item items)
        ≡ map (λ (i : WorkerBatchItemV2 x). i.input_id) items
  unfolding legacy_item
  legacy_items-ids [] = refl
  legacy_items-ids (i ∷ items) = ap₂ (λ a l. a ∷ l) refl (legacy_items-ids items)

  -- The version 1 batch has the items of the version 2 batch, in order, under their ids; each has a
  -- latitude just where it has a longitude and an origin, and none is satellite data.
  pub to_legacy_input-IsVersionOne :
      (batch : WorkerInputV2 x)
      → (map (λ (i : LegacyItem). i.input_id) (to_legacy_input batch).items
          ≡ map (λ (i : WorkerBatchItemV2 x). i.input_id) batch.items)
        × All IsVersionOne (to_legacy_input batch).items
  unfolding to_legacy_input
  to_legacy_input-IsVersionOne batch =
      (legacy_items-ids batch.items, legacy_items-IsVersionOne batch.items)
