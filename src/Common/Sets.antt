-- ===== src/Common/Sets.antt =====
-- Python's sets, seen through membership, and `sorted(set(xs))`, their one ordered view.
use mathlib.Core.Path.{◌≡◌, refl, sym, ap, ap₂, ◌∙◌, subst}
use mathlib.Core.Logic.{◌↔◌, inl, inr}
use mathlib.Core.Bool.{Bool, true, false, ◌&&◌, ◌||◌, not}
use mathlib.Core.List.{List, [], ◌∷◌, ◌++◌}
use native.Mathlib.Omega.{arith}
use fireviewer_orchestrator.Common.Tests.{if◌then◌else◌, Bool-cases}
use fireviewer_orchestrator.Common.Lists.{any, keep, All, nonempty}
use fireviewer_orchestrator.Common.Order.{Ord, ◌==◌}

module _ {ℓ} {A : Type ℓ} ⦃o : Ord A⦄ where
  -- `a in xs`
  abbrev pub contains : A → List A → Bool
  contains a [] = false
  contains a (x ∷ xs) = (a == x) || contains a xs

  -- `xs - ys`
  abbrev pub minus : List A → List A → List A
  minus xs ys = keep (λ x. not (contains x ys)) xs

  -- `xs & ys`
  abbrev pub intersection : List A → List A → List A
  intersection xs ys = keep (λ x. contains x ys) xs

  unfoldable pub insert : A → List A → List A
  insert a [] = a ∷ []
  insert a (x ∷ xs) = if a == x then x ∷ xs else if o.le a x then a ∷ x ∷ xs else x ∷ insert a xs

  -- `sorted(set(xs))`
  unfoldable pub ordered : List A → List A
  unfolding insert
  ordered [] = []
  ordered (x ∷ xs) = insert x (ordered xs)

  -- strictly below
  abbrev pub Lt : A → A → Type 0
  Lt a b = (o.le a b ≡ true) × ((a == b) ≡ false)

  abbrev pub IsSorted : List A → Type 0
  IsSorted [] = Unit {0}
  IsSorted (x ∷ xs) = All (Lt x) xs × IsSorted xs

  pub eqb_refl : (a : A) → (a == a) ≡ true
  eqb_refl a = (o.eqb_iff a a).1 refl

  pub eqb_sym : (a b : A) → (a == b) ≡ (b == a)
  eqb_sym a b = ground (arith, o.eqb_iff a b, o.eqb_iff b a)

  pub contains-append :
      (a : A) (xs ys : List A) → contains a (xs ++ ys) ≡ (contains a xs || contains a ys)
  contains-append a [] ys = refl
  contains-append a (x ∷ xs) ys = ground (arith, contains-append a xs ys)

  pub contains-keep :
      (a : A) (p : A → Bool) (xs : List A) → contains a (keep p xs) ≡ (contains a xs && p a)
  contains-keep a p [] = refl
  contains-keep a p (x ∷ xs) = elim (Bool-cases (a == x)) [
    | inl same ↦
        let e : a ≡ x = (o.eqb_iff a x).0 same in ground (arith, contains-keep a p xs, ap p e)
    | inr other ↦ ground (arith, contains-keep a p xs)
  ]

  pub contains-minus :
      (a : A) (xs ys : List A) → contains a (minus xs ys) ≡ (contains a xs && not (contains a ys))
  contains-minus a xs ys = contains-keep a (λ x. not (contains x ys)) xs

  pub contains-intersection :
      (a : A) (xs ys : List A) → contains a (intersection xs ys) ≡ (contains a xs && contains a ys)
  contains-intersection a xs ys = contains-keep a (λ x. contains x ys) xs

  contains-insert : (b a : A) (xs : List A) → contains b (insert a xs) ≡ ((b == a) || contains b xs)
  unfolding insert
  contains-insert b a [] = refl
  contains-insert b a (x ∷ xs) = elim (Bool-cases (a == x)) [
    | inl same ↦
        let e : (b == a) ≡ (b == x) = ap (λ (t : A). b == t) ((o.eqb_iff a x).0 same) in
        ground (arith, same, e)
    | inr other ↦ ground (arith, other, contains-insert b a xs)
  ]

  -- The ordered view has the members of the set.
  pub contains-ordered : (a : A) (xs : List A) → contains a (ordered xs) ≡ contains a xs
  unfolding ordered
  contains-ordered a [] = refl
  contains-ordered a (x ∷ xs) =
      contains-insert a x (ordered xs) ∙ ap (λ b. (a == x) || b) (contains-ordered a xs)

  Lt-trans : (a b c : A) → Lt a b → Lt b c → Lt a c
  Lt-trans a b c (p, n) (q, m) = elim (Bool-cases (a == c)) [
    | inr ne ↦ (o.le_trans a b c p q, ne)
    | inl eq ↦
        let back : o.le b a ≡ true = ap (o.le b) ((o.eqb_iff a c).0 eq) ∙ q in
        let e : a ≡ b = o.le_antisym a b p back in absurd (ground (arith, (o.eqb_iff a b).1 e, n))
  ]

  All-Lt-trans : (a b : A) (xs : List A) → Lt a b → All (Lt b) xs → All (Lt a) xs
  All-Lt-trans a b [] p h = tt
  All-Lt-trans a b (x ∷ xs) p (q, h) = (Lt-trans a b x p q, All-Lt-trans a b xs p h)

  All-insert : (b a : A) (xs : List A) → Lt b a → All (Lt b) xs → All (Lt b) (insert a xs)
  unfolding insert
  All-insert b a [] p h = (p, tt)
  All-insert b a (x ∷ xs) p h = ground (arith, All-insert b a xs p)

  insert-IsSorted : (a : A) (xs : List A) → IsSorted xs → IsSorted (insert a xs)
  unfolding insert
  insert-IsSorted a [] h = (tt, tt)
  insert-IsSorted a (x ∷ xs) (h, s) = ground (
    arith,
    insert-IsSorted a xs s,
    λ (below : Lt a x). All-Lt-trans a x xs below h,
    λ (above : Lt x a). All-insert x a xs above h,
    o.le_total a x,
    eqb_sym a x,
  )

  -- The ordered view is strictly ascending, so without repetitions.
  pub ordered-IsSorted : (xs : List A) → IsSorted (ordered xs)
  unfolding ordered
  ordered-IsSorted [] = tt
  ordered-IsSorted (x ∷ xs) = insert-IsSorted x (ordered xs) (ordered-IsSorted xs)

  absent_below : (a : A) (xs : List A) → All (Lt a) xs → contains a xs ≡ false
  absent_below a [] h = refl
  absent_below a (x ∷ xs) h = ground (arith, absent_below a xs h.1)

  Lt_of_contains : (a b : A) (xs : List A) → All (Lt a) xs → contains b xs ≡ true → Lt a b
  Lt_of_contains a b [] h c = cc
  Lt_of_contains a b (x ∷ xs) h c = elim (Bool-cases (b == x)) [
    | inl same ↦ subst (Lt a) (sym ((o.eqb_iff b x).0 same)) h.0
    | inr other ↦ Lt_of_contains a b xs h.1 (ground arith)
  ]

  Lt_asym : (a b : A) → Lt a b → Lt b a → ⊥
  Lt_asym a b (p, n) (q, m) = ground (arith, (o.eqb_iff a b).1 (o.le_antisym a b p q))

  head_eq :
      (x y : A) (xs ys : List A)
      → All (Lt x) xs
      → All (Lt y) ys
      → contains x (y ∷ ys) ≡ true
      → contains y (x ∷ xs) ≡ true
      → x ≡ y
  head_eq x y xs ys h k p q = elim (Bool-cases (x == y)) [
    | inl same ↦ (o.eqb_iff x y).0 same
    | inr other ↦ absurd (
        Lt_asym x y (Lt_of_contains x y xs h (ground (arith, eqb_sym x y)))
          (Lt_of_contains y x ys k (ground arith)))
  ]

  tail_same :
      (a x : A) (xs ys : List A)
      → All (Lt x) xs
      → All (Lt x) ys
      → contains a (x ∷ xs) ≡ contains a (x ∷ ys)
      → contains a xs ≡ contains a ys
  tail_same a x xs ys h k e = elim (Bool-cases (a == x)) [
    | inl same ↦
        subst (λ t. contains t xs ≡ contains t ys) (sym ((o.eqb_iff a x).0 same))
          (absent_below x xs h ∙ sym (absent_below x ys k))
    | inr other ↦ ground arith
  ]

  -- Ascending lists with the same members are equal.
  pub IsSorted-ext :
      (xs ys : List A)
      → IsSorted xs
      → IsSorted ys
      → ((a : A) → contains a xs ≡ contains a ys)
      → xs ≡ ys
  IsSorted-ext [] [] s t e = refl
  IsSorted-ext [] (y ∷ ys) s t e = absurd (ground (arith, e y, eqb_refl y))
  IsSorted-ext (x ∷ xs) [] s t e = absurd (ground (arith, e x, eqb_refl x))
  IsSorted-ext (x ∷ xs) (y ∷ ys) (h, s) (k, t) e =
      let p : x ≡ y =
        head_eq x y xs ys h k (ground (arith, e x, eqb_refl x)) (ground (arith, e y, eqb_refl y)) in
      let k' : All (Lt x) ys = subst (λ z. All (Lt z) ys) (sym p) k in
      let e' : (a : A) → contains a (x ∷ xs) ≡ contains a (x ∷ ys) =
        λ a. e a ∙ ap (λ z. (a == z) || contains a ys) (sym p) in
      ap₂ ◌∷◌ p (IsSorted-ext xs ys s t (λ a. tail_same a x xs ys h k' (e' a)))

  -- The ordered view depends on the members alone.
  pub ordered-ext :
      (xs ys : List A) → ((a : A) → contains a xs ≡ contains a ys) → ordered xs ≡ ordered ys
  ordered-ext xs ys e =
      IsSorted-ext (ordered xs) (ordered ys) (ordered-IsSorted xs) (ordered-IsSorted ys)
        (λ a. contains-ordered a xs ∙ e a ∙ sym (contains-ordered a ys))

  -- `nonempty` of a set depends on the members alone, and the ordered view keeps it.
  pub nonempty-ordered : (xs : List A) → nonempty (ordered xs) ≡ nonempty xs
  unfolding ordered
  nonempty-ordered [] = refl
  nonempty-ordered (x ∷ xs) = nonempty-insert x (ordered xs)
    where
      nonempty-insert : (a : A) (ys : List A) → nonempty (insert a ys) ≡ true
      nonempty-insert a [] = refl
      nonempty-insert a (y ∷ ys) = ground arith

  -- A set is empty exactly when it has no member.
  pub nonempty-false_iff : (xs : List A) → (nonempty xs ≡ false) ↔ ((a : A) → contains a xs ≡ false)
  nonempty-false_iff [] = (λ _ a. refl, λ _. refl)
  nonempty-false_iff (x ∷ xs) =
      (λ p. absurd (ground arith), λ h. absurd (ground (arith, h x, eqb_refl x)))

  -- `any(p(x) for x in xs)` from one member.
  pub any_of_contains :
      (p : A → Bool) (a : A) (xs : List A) → contains a xs ≡ true → p a ≡ true → any p xs ≡ true
  any_of_contains p a [] c h = cc
  any_of_contains p a (x ∷ xs) c h = elim (Bool-cases (a == x)) [
    | inl same ↦ let e : p x ≡ true = ap p (sym ((o.eqb_iff a x).0 same)) ∙ h in rw e
    | inr other ↦ ground (arith, any_of_contains p a xs)
  ]
