-- ===== src/V2Runner/Spatial/Laws.antt =====
-- Spatial proposals: a coordinate only with a reference and inside its bounds, and how many there are.
use mathlib.Core.Option.{map as map_option}
use fireviewer_orchestrator.Common.{
  ℕ, suc, ◌+◌, ◌≤◌, String, Bool, true, false, Option, none, some, List, [], ◌∷◌, ◌≡◌, ◌⊎◌, refl,
  ap, arith, All, length, is_some, nonempty, inl, inr, not, ◌||◌, ◌&&◌, ltb, if◌then◌else◌,
}
use fireviewer_orchestrator.Common.Order.{◌==◌, string_ord}
use fireviewer_orchestrator.Common.Sets.{contains}
use fireviewer_orchestrator.V2Runner.{
  Externals, Json, Items, null, boolean, number, text, array, object, no_items, one_item,
  WorkerInputV2, WorkerBatchItemV2, HotspotV2, SatelliteV2, SourceAnnotationV2,
}
use fireviewer_orchestrator.V2Runner.Spatial.{
  Proposal, count_items, get_member, is_text, abstention, on_earth, ground_coordinates,
  satellite_proposal, ground_point, feature_point, within, hotspot_proposal, keep_feature,
  add_feature, hotspot_points, loaded_points, or_no_hotspots, collection_points, payload_points,
  invalid_geojson, hotspot_proposals, point_or_abstain, point_proposals, spatial_proposals,
  abstention_codes,
}

not-false : (b : Bool) → not b ≡ false → b ≡ true
not-false b h = ground arith

-- What both branches have, where the test's value is known in each.
if_holds :
    {A : Type 0} (P : A → Type 0) (b : Bool) (s t : A)
    → (b ≡ true → P s)
    → (b ≡ false → P t)
    → P (if b then s else t)
if_holds P true s t f g = f refl
if_holds P false s t f g = g refl

-- If there is a value, it satisfies `P`.
abbrev pub WhenSome : {A : Type 0} → (A → Type 0) → Option A → Type 0
WhenSome P none = Unit
WhenSome P (some a) = P a

module _ (x : Externals) where
  -- A proposal that abstains has no geometry and says why.
  pub record Abstains (p : Proposal x) : Type 0 where
    pub status : p.status ≡ "insufficient_geometry"
    pub no_point : p.point ≡ none
    pub no_reference : p.reference_bundle_sha256 ≡ none
    pub codes : nonempty p.uncertainty_codes ≡ true

  -- A proposal with coordinates names the batch's reference, and its coordinates lie in the
  -- hotspot's box, or on the earth where a satellite's geotransform gave them.
  pub record Located (reference : Option String) (hotspot : Option (HotspotV2 x))
      (satellite : Option (SatelliteV2 x)) (p : Proposal x) : Type 0 where
    pub coordinates : x.Real × x.Real
    pub has_point : p.point ≡ some coordinates
    pub names : p.reference_bundle_sha256 ≡ reference
    pub referenced : is_some reference ≡ true
    pub bounded :
        ((h : HotspotV2 x) × (hotspot ≡ some h) × (within x h coordinates ≡ true))
        ⊎ ((is_some satellite ≡ true) × (on_earth x coordinates.0 coordinates.1 ≡ true))

  abbrev pub Justified :
      Option String → Option (HotspotV2 x) → Option (SatelliteV2 x) → Proposal x → Type 0
  Justified reference hotspot satellite p = Abstains p ⊎ Located reference hotspot satellite p

  abstention-Justified :
      (reference : Option String) (hotspot : Option (HotspotV2 x))
      (satellite : Option (SatelliteV2 x)) (k : String) (a : Option String) (t : Option x.Time)
      (c : String)
      → Justified reference hotspot satellite (abstention x k a t (c ∷ []))
  unfolding abstention
  abstention-Justified reference hotspot satellite k a t c =
      inl (record { status = refl; no_point = refl; no_reference = refl; codes = refl })

  module _ (id : String) (h : HotspotV2 x) (m : String) (satellite : Option (SatelliteV2 x)) where
    keep_feature-Justified :
        (index : ℕ) (o : Option (x.Real × x.Real)) (others : List (Proposal x))
        → All (Justified (some m) (some h) satellite) others
        → All (Justified (some m) (some h) satellite) (keep_feature x id h m index o others)
    unfolding keep_feature hotspot_proposal
    keep_feature-Justified index none others js = js
    keep_feature-Justified index (some p) others js =
        if_holds (All (Justified (some m) (some h) satellite)) (within x h p) _ _
          (λ inside. (
            inr (record {
              coordinates = p;
              has_point = refl;
              names = refl;
              referenced = refl;
              bounded = inl (h, refl, inside);
            }),
            js,
          ))
          (λ outside. js)

    length-keep_feature :
        (index : ℕ) (o : Option (x.Real × x.Real)) (others : List (Proposal x))
        → length (keep_feature x id h m index o others) ≤ suc (length others)
    unfolding keep_feature
    length-keep_feature index none others = omega arith
    length-keep_feature index (some p) others = ground arith

    add_feature-Kept :
        (index n : ℕ) (o : Option (Option (x.Real × x.Real))) (others : Option (List (Proposal x)))
        → WhenSome (λ ps. All (Justified (some m) (some h) satellite) ps × (length ps ≤ n)) others
        → WhenSome
            (λ ps. All (Justified (some m) (some h) satellite) ps × (length ps ≤ suc n))
            (add_feature x id h m index o others)
    unfolding add_feature
    add_feature-Kept index n none others k = tt
    add_feature-Kept index n (some p) none k = tt
    add_feature-Kept index n (some p) (some others) (js, le) = (
      keep_feature-Justified index p others js,
      omega (arith, le, length-keep_feature index p others),
    )

    hotspot_points-Kept :
        (index : ℕ) (features : Items x.Real)
        → WhenSome
            (λ ps.
              All (Justified (some m) (some h) satellite) ps × (length ps ≤ count_items features))
            (hotspot_points x id h m index features)
    unfolding hotspot_points count_items
    hotspot_points-Kept index no_items = (tt, omega arith)
    hotspot_points-Kept index (one_item v rest) =
        add_feature-Kept index (count_items rest) (feature_point x v)
          (hotspot_points x id h m (index + 1) rest) (hotspot_points-Kept (index + 1) rest)

    or_no_hotspots-Justified :
        (ps : List (Proposal x))
        → All (Justified (some m) (some h) satellite) ps
        → All (Justified (some m) (some h) satellite) (or_no_hotspots x id h m ps)
    unfolding or_no_hotspots
    or_no_hotspots-Justified [] js = (abstention-Justified (some m) (some h) satellite _ _ _ _, tt)
    or_no_hotspots-Justified (p ∷ ps) js = js

    or_no_hotspots-bounds :
        (ps : List (Proposal x))
        → length ps ≤ 5000
        → (1 ≤ length (or_no_hotspots x id h m ps)) × (length (or_no_hotspots x id h m ps) ≤ 5000)
    unfolding or_no_hotspots
    or_no_hotspots-bounds [] le = (omega arith, omega arith)
    or_no_hotspots-bounds (p ∷ ps) le = (omega arith, le)

    -- What the property asks of the proposals of a hotspot: each justified, from 1 to 5000 of them.
    abbrev Good : List (Proposal x) → Type 0
    Good ps =
        All (Justified (some m) (some h) satellite) ps × ((1 ≤ length ps) × (length ps ≤ 5000))

    one_abstention-Good : (k : String) (c : String) → Good (abstention x k none none (c ∷ []) ∷ [])
    one_abstention-Good k c = (
      (abstention-Justified (some m) (some h) satellite k none none c, tt),
      (omega arith, omega arith),
    )

    WhenSome-map :
        (n : ℕ) (o : Option (List (Proposal x)))
        → n ≤ 5000
        → WhenSome (λ ps. All (Justified (some m) (some h) satellite) ps × (length ps ≤ n)) o
        → WhenSome Good (map_option (or_no_hotspots x id h m) o)
    WhenSome-map n none le k = tt
    WhenSome-map n (some ps) le (js, few) =
        (or_no_hotspots-Justified ps js, or_no_hotspots-bounds ps (omega (arith, le, few)))

    collection_points-Good :
        (o : Option (Json x.Real)) → WhenSome Good (collection_points x id h m o)
    unfolding collection_points
    collection_points-Good none = one_abstention-Good _ _
    collection_points-Good (some null) = one_abstention-Good _ _
    collection_points-Good (some (boolean b)) = one_abstention-Good _ _
    collection_points-Good (some (number r)) = one_abstention-Good _ _
    collection_points-Good (some (text t)) = one_abstention-Good _ _
    collection_points-Good (some (object ms)) = one_abstention-Good _ _
    collection_points-Good (some (array features)) =
        if_holds (WhenSome Good) (ltb 5000 (count_items features)) _ _
          (λ many. one_abstention-Good _ _)
          (λ few.
            WhenSome-map (count_items features) (hotspot_points x id h m 1 features)
              (ground (arith, few)) (hotspot_points-Kept 1 features))

    payload_points-Good : (o : Option (Json x.Real)) → WhenSome Good (payload_points x id h m o)
    unfolding payload_points invalid_geojson
    payload_points-Good none = one_abstention-Good _ _
    payload_points-Good (some null) = one_abstention-Good _ _
    payload_points-Good (some (boolean b)) = one_abstention-Good _ _
    payload_points-Good (some (number r)) = one_abstention-Good _ _
    payload_points-Good (some (text t)) = one_abstention-Good _ _
    payload_points-Good (some (array xs)) = one_abstention-Good _ _
    payload_points-Good (some (object payload)) =
        if_holds (WhenSome Good) (is_text "FeatureCollection" (get_member "type" payload)) _ _
          (λ _. collection_points-Good (get_member "features" payload))
          (λ _. one_abstention-Good _ _)

    loaded_points-Good :
        (o : Option (Option (Json x.Real))) → WhenSome Good (loaded_points x id h m o)
    unfolding loaded_points
    loaded_points-Good none = tt
    loaded_points-Good (some payload) = payload_points-Good payload

  -- The proposals of an item, justified by its hotspot, its satellite and the batch's reference.
  module _ (batch : WorkerInputV2 x) (item : WorkerBatchItemV2 x) where
    abbrev pub ItemJustified : Proposal x → Type 0
    ItemJustified = Justified batch.reference_manifest item.hotspot item.satellite

    hotspot_proposals-Good :
        (id : String) (hotspot : Option (HotspotV2 x)) (article : Option String)
        (reference : Option String) (satellite : Option (SatelliteV2 x))
        → WhenSome
            (λ ps.
              All (Justified reference hotspot satellite) ps
              × ((1 ≤ length ps) × (length ps ≤ 5000)))
            (hotspot_proposals x id hotspot article reference)
    unfolding hotspot_proposals
    hotspot_proposals-Good id (some h) (some article) (some m) satellite =
        loaded_points-Good id h m satellite (x.loads article)
    hotspot_proposals-Good id (some h) (some article) none satellite =
        ((abstention-Justified none (some h) satellite _ _ _ _, tt), (omega arith, omega arith))
    hotspot_proposals-Good id (some h) none reference satellite = (
      (abstention-Justified reference (some h) satellite _ _ _ _, tt),
      (omega arith, omega arith),
    )
    hotspot_proposals-Good id none article reference satellite =
        ((abstention-Justified reference none satellite _ _ _ _, tt), (omega arith, omega arith))

    ground_point-Justified :
        (hotspot : Option (HotspotV2 x)) (satellite : Option (SatelliteV2 x))
        (reference : Option String) (annotation : SourceAnnotationV2 x)
        (o : Option (x.Real × x.Real))
        → All (Justified reference hotspot satellite) (
            point_or_abstain x batch item annotation
              (ground_point x satellite reference annotation o)
            ∷ [])
    unfolding ground_point point_or_abstain satellite_proposal abstention_codes
    ground_point-Justified hotspot (some satellite) (some m) annotation (some p) =
        if_holds
          (λ o.
            All (Justified (some m) hotspot (some satellite))
              (point_or_abstain x batch item annotation o ∷ []))
          (not
            (contains (x.normalize_crs satellite.crs) ("EPSG:4326" ∷ "OGC:CRS84" ∷ "CRS84" ∷ [])))
          _ _ (λ _. (abstention-Justified (some m) hotspot (some satellite) _ _ _ _, tt))
          (λ _.
            if_holds
              (λ o.
                All (Justified (some m) hotspot (some satellite))
                  (point_or_abstain x batch item annotation o ∷ []))
              (not (
                on_earth x (ground_coordinates x satellite p).0
                  (ground_coordinates x satellite p).1))
              _ _ (λ _. (abstention-Justified (some m) hotspot (some satellite) _ _ _ _, tt))
              (λ inside. (
                inr (record {
                  coordinates = ground_coordinates x satellite p;
                  has_point = refl;
                  names = refl;
                  referenced = refl;
                  bounded = inr (refl, not-false _ inside);
                }),
                tt,
              )))
    ground_point-Justified hotspot (some satellite) (some m) annotation none =
        (abstention-Justified (some m) hotspot (some satellite) _ _ _ _, tt)
    ground_point-Justified hotspot (some satellite) none annotation o =
        (abstention-Justified none hotspot (some satellite) _ _ _ _, tt)
    ground_point-Justified hotspot none reference annotation o =
        (abstention-Justified reference hotspot none _ _ _ _, tt)

    point_proposals-Justified :
        (annotations : List (SourceAnnotationV2 x))
        → All ItemJustified (point_proposals x batch item annotations)
    unfolding point_proposals
    point_proposals-Justified [] = tt
    point_proposals-Justified (a ∷ annotations) = (
      (ground_point-Justified item.hotspot item.satellite batch.reference_manifest a
          a.source_point_normalized).0,
      point_proposals-Justified annotations,
    )

    length-point_proposals :
        (annotations : List (SourceAnnotationV2 x))
        → length (point_proposals x batch item annotations) ≡ length annotations
    unfolding point_proposals
    length-point_proposals [] = refl
    length-point_proposals (a ∷ annotations) = ap suc (length-point_proposals annotations)

    WhenSome-imp :
        {A : Type 0} (P Q : A → Type 0) (o : Option A)
        → ((a : A) → P a → Q a)
        → WhenSome P o
        → WhenSome Q o
    WhenSome-imp P Q none f k = tt
    WhenSome-imp P Q (some a) f k = f a k

    -- Every spatial proposal that an item gets either abstains, with a reason and neither a point nor
    -- a reference, or has a point, names the reference of the batch, which there is, and lies in the
    -- box of the item's hotspot or, where the item has a satellite, on the earth.
    pub spatial_proposals-Justified :
        (annotations : List (SourceAnnotationV2 x))
        → WhenSome (All ItemJustified) (spatial_proposals x batch item annotations)
    unfolding spatial_proposals
    spatial_proposals-Justified annotations =
        if_holds (WhenSome (All ItemJustified)) (item.media_type == "satellite_data") _ _
          (λ _.
            WhenSome-imp _ (All ItemJustified) _ (λ ps k. k.0)
              (hotspot_proposals-Good item.input_id item.hotspot item.article_text
                batch.reference_manifest item.satellite))
          (λ _.
            if_holds (WhenSome (All ItemJustified))
              (not (nonempty annotations)
                && (is_some item.working_file_url || nonempty item.frame_ids))
              _ _
              (λ _. (
                abstention-Justified batch.reference_manifest item.hotspot item.satellite _ _ _ _,
                tt,
              ))
              (λ _. point_proposals-Justified annotations))

    -- Satellite data whose GeoJSON is read and whose numbers convert without an exception has from 1 to
    -- 5000 spatial proposals.
    pub spatial_proposals-bounds :
        (annotations : List (SourceAnnotationV2 x))
        → (item.media_type == "satellite_data") ≡ true
        → WhenSome
            (λ ps. (1 ≤ length ps) × (length ps ≤ 5000))
            (spatial_proposals x batch item annotations)
    unfolding spatial_proposals
    spatial_proposals-bounds annotations h = rw h (
        WhenSome-imp _ (λ ps. (1 ≤ length ps) × (length ps ≤ 5000)) _ (λ ps k. k.1)
          (hotspot_proposals-Good item.input_id item.hotspot item.article_text
            batch.reference_manifest item.satellite))
