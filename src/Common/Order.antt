-- ===== src/Common/Order.antt =====
-- Total orders as an interface, with the orders of numbers and of texts (by code points).
use Prim.Native.Nat.{ℕ, compare, Ordering}
use Prim.Native.Char.{Char, code}
use Prim.Native.String.{String, then}
use Prim.Native.String.compare as compare_string
use Prim.Native.String.{compare as compare_string}
use mathlib.Core.Path.{◌≡◌, refl, ap}
use mathlib.Core.Logic.{◌↔◌, ◌⊎◌, inl, inr}
use mathlib.Core.Bool.{Bool, true, false}
use native.Mathlib.Omega.{arith}
use text.Mathlib.Text.{◌==◌ as str_eq}
use text.Mathlib.TextEquality.{eq_iff, codes_equal}
use fireviewer_orchestrator.Common.Tests.{leb, nat_eq, nat_eq_iff}

-- A type whose values are compared by `==` and sorted by `<=`.
pub record Ord {ℓ} (A : Type ℓ) : Type ℓ where
  pub eqb : A → A → Bool
  pub le : A → A → Bool
  pub eqb_iff : (a b : A) → (eqb a b ≡ true) ↔ (a ≡ b)
  pub le_total : (a b : A) → (le a b ≡ true) ⊎ (le b a ≡ true)
  pub le_trans : (a b c : A) → le a b ≡ true → le b c ≡ true → le a c ≡ true
  pub le_antisym : (a b : A) → le a b ≡ true → le b a ≡ true → a ≡ b

infix 50 ◌==◌
abbrev pub ◌==◌ {ℓ} : {A : Type ℓ} ⦃o : Ord A⦄ → A → A → Bool
◌==◌ ⦃o⦄ = o.eqb

pub leb_total : (a b : ℕ) → (leb a b ≡ true) ⊎ (leb b a ≡ true)
leb_total a b = ground arith

pub leb_trans : (a b c : ℕ) → leb a b ≡ true → leb b c ≡ true → leb a c ≡ true
leb_trans a b c p q = ground arith

pub leb_antisym : (a b : ℕ) → leb a b ≡ true → leb b a ≡ true → a ≡ b
leb_antisym a b p q = ground arith

instance abbrev pub nat_ord : Ord ℕ
nat_ord = record {
  eqb = nat_eq;
  le = leb;
  eqb_iff = nat_eq_iff;
  le_total = leb_total;
  le_trans = leb_trans;
  le_antisym = leb_antisym;
}

not_gt : Ordering → Bool
not_gt Ordering.gt = false
not_gt _ = true

unfoldable pub str_le : String → String → Bool
unfolding not_gt
str_le s t = not_gt (compare_string s t)

cmp_cons :
    (c d : Char) (s t : String)
    → compare_string (String.◌∷◌ c s) (String.◌∷◌ d t)
      ≡ then (compare (code c) (code d)) (compare_string s t)
cmp_cons c d s t = compare_string.cons-cons c d s t

pub str_le_total : (s t : String) → (str_le s t ≡ true) ⊎ (str_le t s ≡ true)
unfolding str_le
str_le_total String.[] String.[] = inl refl
str_le_total String.[] (String.◌∷◌ d t) = inl (rw (compare_string.nil-cons d t))
str_le_total (String.◌∷◌ c s) String.[] = inr (rw (compare_string.nil-cons c s))
str_le_total (String.◌∷◌ c s) (String.◌∷◌ d t) =
    ground (arith, cmp_cons c d s t, cmp_cons d c t s, str_le_total s t)

pub str_le_trans : (r s t : String) → str_le r s ≡ true → str_le s t ≡ true → str_le r t ≡ true
unfolding str_le
str_le_trans String.[] s String.[] p q = refl
str_le_trans String.[] s (String.◌∷◌ e t) p q = rw (compare_string.nil-cons e t)
str_le_trans (String.◌∷◌ c r) String.[] t p q =
    absurd (ground (arith, ap not_gt (compare_string.cons-nil c r)))
str_le_trans (String.◌∷◌ c r) (String.◌∷◌ d s) String.[] p q =
    absurd (ground (arith, ap not_gt (compare_string.cons-nil d s)))
str_le_trans (String.◌∷◌ c r) (String.◌∷◌ d s) (String.◌∷◌ e t) p q =
    ground (arith, cmp_cons c d r s, cmp_cons d e s t, cmp_cons c e r t, str_le_trans r s t)

compare-code_eq : (c d : Char) → compare (code c) (code d) ≡ Ordering.eq → c ≡ d
compare-code_eq = codes_equal

pub str_le_antisym : (s t : String) → str_le s t ≡ true → str_le t s ≡ true → s ≡ t
unfolding str_le
str_le_antisym String.[] String.[] p q = refl
str_le_antisym String.[] (String.◌∷◌ d t) p q =
    absurd (ground (arith, ap not_gt (compare_string.cons-nil d t)))
str_le_antisym (String.◌∷◌ c s) String.[] p q =
    absurd (ground (arith, ap not_gt (compare_string.cons-nil c s)))
str_le_antisym (String.◌∷◌ c s) (String.◌∷◌ d t) p q =
    ground (arith, cmp_cons c d s t, cmp_cons d c t s, str_le_antisym s t, compare-code_eq c d)

instance abbrev pub string_ord : Ord String
string_ord = record {
  eqb = str_eq;
  le = str_le;
  eqb_iff = eq_iff;
  le_total = str_le_total;
  le_trans = str_le_trans;
  le_antisym = str_le_antisym;
}
