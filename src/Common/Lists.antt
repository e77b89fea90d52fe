-- ===== src/Common/Lists.antt =====
-- Lists measured by native numbers, and Boolean quantifiers over them.
use Prim.Native.Nat.{ℕ, zero, suc, ◌+◌}
use mathlib.Core.Path.{◌≡◌, refl, sym, ap, ap₂, subst}
use mathlib.Core.Bool.{Bool, true, false, ◌&&◌, ◌||◌}
use mathlib.Core.List.{List, [], ◌∷◌, ◌++◌}
use mathlib.Core.Option.{Option, none, some}
use native.Mathlib.Omega.{arith}
use fireviewer_orchestrator.Common.Tests.{if◌then◌else◌}

module _ {ℓ} {A : Type ℓ} where
  abbrev pub length : List A → ℕ
  length [] = 0
  length (x ∷ xs) = suc (length xs)

  -- `any(p(x) for x in xs)`
  abbrev pub any : (A → Bool) → List A → Bool
  any p [] = false
  any p (x ∷ xs) = p x || any p xs

  -- `all(p(x) for x in xs)`
  abbrev pub all : (A → Bool) → List A → Bool
  all p [] = true
  all p (x ∷ xs) = p x && all p xs

  -- `[x for x in xs if p(x)]`
  abbrev pub keep : (A → Bool) → List A → List A
  keep p [] = []
  keep p (x ∷ xs) = if p x then x ∷ keep p xs else keep p xs

  -- `sum(p(x) for x in xs)` of a Boolean `p`
  abbrev pub count_if : (A → Bool) → List A → ℕ
  count_if p [] = 0
  count_if p (x ∷ xs) = (if p x then 1 else 0) + count_if p xs

  -- `bool(xs)`
  abbrev pub nonempty : List A → Bool
  nonempty [] = false
  nonempty (x ∷ xs) = true

  abbrev pub get_elem? : List A → ℕ → Option A
  get_elem? [] i = none
  get_elem? (x ∷ xs) zero = some x
  get_elem? (x ∷ xs) (suc i) = get_elem? xs i

  pub length-append : (xs ys : List A) → length (xs ++ ys) ≡ length xs + length ys
  length-append [] ys = omega arith
  length-append (x ∷ xs) ys = omega (arith, length-append xs ys)

  pub any-append : (p : A → Bool) (xs ys : List A) → any p (xs ++ ys) ≡ (any p xs || any p ys)
  any-append p [] ys = refl
  any-append p (x ∷ xs) ys = ground (arith, any-append p xs ys)

module _ {ℓ κ} {A : Type ℓ} (P : A → Type κ) where
  abbrev pub All : List A → Type κ
  All [] = Unit
  All (x ∷ xs) = P x × All xs

  pub All-append : (xs ys : List A) → All xs → All ys → All (xs ++ ys)
  All-append [] ys h k = k
  All-append (x ∷ xs) ys (p, h) k = (p, All-append xs ys h k)

module _ {ℓ κ} {A : Type ℓ} where
  pub All-imp {μ} :
      (P : A → Type κ) (Q : A → Type μ) (xs : List A) → ((x : A) → P x → Q x) → All P xs → All Q xs
  All-imp P Q [] f h = tt
  All-imp P Q (x ∷ xs) f (p, h) = (f x p, All-imp P Q xs f h)

module _ {κ} {B : Type κ} where
  unfoldable pub prepend : Option B → Option (List B) → Option (List B)
  prepend (some y) (some ys) = some (y ∷ ys)
  prepend _ _ = none

module _ {ℓ κ} {A : Type ℓ} {B : Type κ} where
  -- `[f(x) for x in xs]`, none where an `f(x)` raises
  unfoldable pub traverse : (A → Option B) → List A → Option (List B)
  unfolding prepend
  traverse f [] = some []
  traverse f (x ∷ xs) = prepend (f x) (traverse f xs)

  -- It returns where `f` does everywhere.
  pub traverse-returns :
      (f : A → Option B) (xs : List A)
      → All (λ x. (y : B) × (f x ≡ some y)) xs
      → (ys : List B) × (traverse f xs ≡ some ys)
  unfolding traverse
  traverse-returns f [] h = ([], refl)
  traverse-returns f (x ∷ xs) ((y, e), h) =
      let rest = traverse-returns f xs h in (y ∷ rest.0, ap₂ prepend e rest.1)

module _ {ℓ} {A : Type ℓ} where
  -- `[x for xs in xss for x in xs]`
  abbrev pub concat : List (List A) → List A
  concat [] = []
  concat (xs ∷ xss) = xs ++ concat xss

module _ {ℓ κ} {A : Type ℓ} (P : A → Type κ) where
  if-All : (b : Bool) (x : A) (xs : List A) → P x → All P xs → All P (if b then x ∷ xs else xs)
  if-All true x xs h hs = (h, hs)
  if-All false x xs h hs = hs

  pub All-keep : (p : A → Bool) (xs : List A) → All P xs → All P (keep p xs)
  All-keep p [] h = tt
  All-keep p (x ∷ xs) (h, hs) = if-All (p x) x (keep p xs) h (All-keep p xs hs)

  pub All-concat : (xss : List (List A)) → All (All P) xss → All P (concat xss)
  All-concat [] h = tt
  All-concat (xs ∷ xss) (h, hs) = All-append P xs (concat xss) h (All-concat xss hs)

module _ {κ} {B : Type κ} where
  -- The parts of a list that was put together.
  prepend-some :
      (o : Option B) (r : Option (List B)) (ys : List B)
      → prepend o r ≡ some ys
      → (y : B) × (zs : List B) × (o ≡ some y) × (r ≡ some zs) × (ys ≡ y ∷ zs)
  unfolding prepend
  prepend-some (some y) (some zs) ys e = (y, zs, refl, refl, ap (λ t. or_nil t) (sym e))
    where
      or_nil : Option (List B) → List B
      or_nil none = []
      or_nil (some l) = l
  prepend-some none r ys e = absurd (ground (arith, e))
  prepend-some (some y) none ys e = absurd (ground (arith, e))

module _ {ℓ κ} {A : Type ℓ} {B : Type κ} (P : A → B → Type 0) where
  -- Two lists of one length, related member by member.
  abbrev pub All₂ : List A → List B → Type 0
  All₂ [] [] = Unit
  All₂ (x ∷ xs) (y ∷ ys) = P x y × All₂ xs ys
  All₂ [] (y ∷ ys) = ⊥
  All₂ (x ∷ xs) [] = ⊥

  -- What `traverse` makes of each member.
  pub traverse-All₂ :
      (f : A → Option B)
      → ((x : A) (y : B) → f x ≡ some y → P x y)
      → (xs : List A) (ys : List B) → traverse f xs ≡ some ys
      → All₂ xs ys
  unfolding traverse
  traverse-All₂ f h [] [] e = tt
  traverse-All₂ f h [] (y ∷ ys) e = absurd (ground (arith, e))
  traverse-All₂ f h (x ∷ xs) ys e =
      let (y, zs, first, rest, whole) = prepend-some (f x) (traverse f xs) ys e in
      subst (All₂ (x ∷ xs)) (sym whole) (h x y first, traverse-All₂ f h xs zs rest)
