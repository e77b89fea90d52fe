-- ===== src/EvidenceMerge/Laws.antt =====
-- The merge of one collection: what it keeps, and when it refuses.
use fireviewer_orchestrator.Common.{
  String, true, Option, none, some, List, [], ◌∷◌, ◌≡◌, refl, sym, ap, ◌∙◌, subst, arith, any, All,
  All-imp, map, Bool-cases, inl, inr, ◌⊎◌, ◌||◌, is_some, eq_iff,
}
use fireviewer_orchestrator.Common.Order.{◌==◌, string_ord}
use fireviewer_orchestrator.Common.Sets.{contains, ordered, contains-ordered}
use fireviewer_orchestrator.Common.Dict.{
  keys, lookup, put, lookup-put, contains-keys-put, is_some-lookup,
}
use fireviewer_orchestrator.EvidenceMerge.{
  Label, Merged, merged, refused, Items, merge_collection, merge_collections, pick_items,
  merge_records,
}

module _ {Item : Type 0} (items : Items Item) (label : Label) where
  abbrev id : Item → String
  id = items.identifier label

  -- every item is stored under its identifier
  abbrev pub Stores : List (String × Item) → List Item → Type 0
  Stores d xs = All (λ x. lookup (id x) d ≡ some x) xs

  -- The stored items of an earlier dictionary are kept.
  abbrev Extends : List (String × Item) → List (String × Item) → Type 0
  Extends d e = (k : String) (y : Item) → lookup k d ≡ some y → lookup k e ≡ some y

  put-Extends :
      (x : Item) (d : List (String × Item))
      → (lookup (id x) d ≡ none) ⊎ (lookup (id x) d ≡ some x)
      → Extends d (put (id x) x d)
  put-Extends x d old k y h = elim (Bool-cases (k == id x)) [
    | inr other ↦ ground (arith, lookup-put (id x) x d k)
    | inl same ↦
        let e : k ≡ id x = (eq_iff k (id x)).0 same in
        let h' : lookup (id x) d ≡ some y = subst (λ t. lookup t d ≡ some y) e h in
        ground (arith, lookup-put (id x) x d k)
  ]

  -- A merge that succeeds stores its items and keeps what was stored; its keys are those of
  -- before and the identifiers of the items.
  record Grows (d e : List (String × Item)) (xs : List Item) : Type 0 where
    stores : Stores e xs
    extends : Extends d e
    ids : (k : String) → contains k (keys e) ≡ (contains k (keys d) || contains k (map id xs))

  Stores-Extends :
      (d e : List (String × Item)) (xs : List Item) → Extends d e → Stores d xs → Stores e xs
  Stores-Extends d e xs ext st = All-imp _ _ xs (λ x h. ext (id x) x h) st

  merge_collection-Grows :
      (d : List (String × Item)) (xs : List Item) {e : List (String × Item)}
      → merge_collection items label d xs ≡ merged e
      → Grows d e xs
  unfolding merge_collection
  merge_collection-Grows d [] {e} h =
      let p : d ≡ e = ground arith in
      record {
        stores = tt;
        extends = λ k y q. subst (λ t. lookup k t ≡ some y) p q;
        ids = λ k. ap (λ t. contains k (keys t)) (sym p) ∙ ground arith;
      }
  merge_collection-Grows d (x ∷ xs) {e} h =
      let old = put-case (lookup (id x) d) refl in
      let q : merge_collection items label (put (id x) x d) xs ≡ merged e = ground arith in
      let g = merge_collection-Grows (put (id x) x d) xs q in
      let self : lookup (id x) (put (id x) x d) ≡ some x =
        ground (arith, lookup-put (id x) x d (id x), eq_iff (id x) (id x)) in
      record {
        stores = (g.extends (id x) x self, g.stores);
        extends = λ k y p. g.extends k y (put-Extends x d old k y p);
        ids = λ k. ground (arith, g.ids k, contains-keys-put (id x) x d k);
      }
    where
      put-case :
          (found : Option Item)
          → lookup (id x) d ≡ found
          → ((lookup (id x) d ≡ none) ⊎ (lookup (id x) d ≡ some x))
      put-case none q = inl q
      put-case (some y) q = elim (Bool-cases (items.same y x)) [
        | inl same ↦ inr (q ∙ ap some ((items.same_iff y x).0 same))
        | inr other ↦ absurd (ground arith)
      ]

  record AllGrow (d e : List (String × Item)) (cs : List (List Item)) : Type 0 where
    stores : All (Stores e) cs
    extends : Extends d e

  merge_collections-Grows :
      (d : List (String × Item)) (cs : List (List Item)) {e : List (String × Item)}
      → merge_collections items label d cs ≡ merged e
      → AllGrow d e cs
  unfolding merge_collections
  merge_collections-Grows d [] {e} h =
      let p : d ≡ e = ground arith in
      record { stores = tt; extends = λ k y q. subst (λ t. lookup k t ≡ some y) p q }
  merge_collections-Grows d (c ∷ cs) {e} h =
      step (merge_collection items label d c) refl h (λ d' q. merge_collections-Grows d' cs q)
    where
      step :
          (o : Merged (List (String × Item)))
          → merge_collection items label d c ≡ o
          → (elim o [ refused m ↦ refused m | merged d' ↦ merge_collections items label d' cs ])
            ≡ merged e
          → ((d' : List (String × Item))
              → merge_collections items label d' cs ≡ merged e
              → AllGrow d' e cs)
          → AllGrow d e (c ∷ cs)
      step (refused m) p q later = absurd (ground arith)
      step (merged d') p q later =
          let g = merge_collection-Grows d c p in
          let r = later d' q in
          record {
            stores = (Stores-Extends d' e c r.extends g.stores, r.stores);
            extends = λ k y s. r.extends k y (g.extends k y s);
          }

  any-pick_items :
      (d : List (String × Item)) (ks : List String) (k : String) (x : Item)
      → contains k ks ≡ true
      → lookup k d ≡ some x
      → any (items.same x) (pick_items items label d ks) ≡ true
  unfolding pick_items
  any-pick_items d [] k x c h = absurd (ground arith)
  any-pick_items d (j ∷ ks) k x c h =
      ground (arith, eq_iff k j, items.same_iff x x, any-pick_items d ks k x)

  -- the item is among those of the output
  abbrev pub Kept : List Item → Item → Type 0
  Kept out x = any (items.same x) out ≡ true

  stored-Kept :
      (d : List (String × Item)) (x : Item)
      → lookup (id x) d ≡ some x
      → Kept (pick_items items label d (ordered (keys d))) x
  stored-Kept d x h =
      any-pick_items d (ordered (keys d)) (id x) x
        (contains-ordered (id x) (keys d) ∙ sym (is_some-lookup (id x) d) ∙ ap is_some h) h

  -- A merge of one collection that is not refused loses nothing: each item of each record is among
  -- the items of the output.
  pub merge_records-Kept :
      (records : List (List Item)) (out : List Item)
      → merge_records items label records ≡ merged out
      → All (All (Kept out)) records
  unfolding merge_records
  merge_records-Kept records out h = from (merge_collections items label [] records) refl h
    where
      from :
          (o : Merged (List (String × Item)))
          → merge_collections items label [] records ≡ o
          → (elim o [
            | refused m ↦ refused m
            | merged d ↦ merged (pick_items items label d (ordered (keys d)))
          ])
            ≡ merged out
          → All (All (Kept out)) records
      from (refused m) p q = absurd (ground arith)
      from (merged d) p q =
          let e : pick_items items label d (ordered (keys d)) ≡ out = ground arith in
          let g = merge_collections-Grows [] records p in
          All-imp _ _ records
            (λ c st. All-imp _ _ c (λ x s. subst (λ t. Kept t x) e (stored-Kept d x s)) st) g.stores
