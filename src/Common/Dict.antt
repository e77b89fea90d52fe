-- ===== src/Common/Dict.antt =====
-- Python dictionaries as association lists in insertion order.
use mathlib.Core.Path.{◌≡◌, refl}
use mathlib.Core.Bool.{true, ◌||◌}
use mathlib.Core.Option.{Option, none, some}
use mathlib.Core.List.{List, [], ◌∷◌}
use native.Mathlib.Omega.{arith}
use fireviewer_orchestrator.Common.Tests.{if◌then◌else◌, is_some}
use fireviewer_orchestrator.Common.Order.{Ord, ◌==◌}
use fireviewer_orchestrator.Common.Sets.{contains}

module _ {ℓ κ} {K : Type ℓ} {V : Type κ} where
  abbrev pub keys : List (K × V) → List K
  keys [] = []
  keys ((k, v) ∷ d) = k ∷ keys d

  abbrev pub values : List (K × V) → List V
  values [] = []
  values ((k, v) ∷ d) = v ∷ values d

module _ {ℓ κ} {K : Type ℓ} {V : Type κ} ⦃o : Ord K⦄ where
  -- `d.get(k)`
  unfoldable pub lookup : K → List (K × V) → Option V
  lookup k [] = none
  lookup k ((j, v) ∷ d) = if k == j then some v else lookup k d

  -- `d[k] = v`: a present key keeps its place.
  unfoldable pub put : K → V → List (K × V) → List (K × V)
  put k v [] = (k, v) ∷ []
  put k v ((j, w) ∷ d) = if k == j then (j, v) ∷ d else (j, w) ∷ put k v d

  pub lookup-put :
      (k : K) (v : V) (d : List (K × V)) (j : K)
      → lookup j (put k v d) ≡ (if j == k then some v else lookup j d)
  unfolding lookup put
  lookup-put k v [] j = refl
  lookup-put k v ((i, w) ∷ d) j =
      ground (arith, o.eqb_iff k i, o.eqb_iff j i, o.eqb_iff j k, lookup-put k v d j)

  -- Writing a present key keeps the keys; a new key comes last.
  pub contains-keys-put :
      (k : K) (v : V) (d : List (K × V)) (j : K)
      → contains j (keys (put k v d)) ≡ ((j == k) || contains j (keys d))
  unfolding put
  contains-keys-put k v [] j = refl
  contains-keys-put k v ((i, w) ∷ d) j =
      ground (arith, o.eqb_iff k i, o.eqb_iff j i, o.eqb_iff j k, contains-keys-put k v d j)

  pub keys-put_present :
      (k : K) (v : V) (d : List (K × V)) → contains k (keys d) ≡ true → keys (put k v d) ≡ keys d
  unfolding put
  keys-put_present k v [] h = cc
  keys-put_present k v ((i, w) ∷ d) h = ground (arith, keys-put_present k v d)

  -- `k in d` is what `d.get(k)` tells.
  pub is_some-lookup : (k : K) (d : List (K × V)) → is_some (lookup k d) ≡ contains k (keys d)
  unfolding lookup
  is_some-lookup k [] = refl
  is_some-lookup k ((j, v) ∷ d) = ground (arith, is_some-lookup k d)
