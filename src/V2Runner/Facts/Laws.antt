-- ===== src/V2Runner/Facts/Laws.antt =====
-- The key of a fact: its length and its characters.
use Prim.Native.Char.{Char}
use fireviewer_orchestrator.Common.{
  ℕ, suc, zero, ◌≤◌, String, Bool, true, false, ◌≡◌, refl, ◌&&◌, not, arith, Bool-cases, inl, inr,
  if◌then◌else◌,
}
use fireviewer_orchestrator.Common.Order.{◌==◌, string_ord}
use fireviewer_orchestrator.Common.Texts.{str_len, str_take, str_len-str_take}
use fireviewer_orchestrator.V2Runner.Facts.{
  is_key_char, is_stripped, keep_char, replace_runs, strip_left, strip_right, strip, safe_fact_key,
}

-- every character satisfies the test
unfoldable pub all_chars : (Char → Bool) → String → Bool
all_chars p String.[] = true
all_chars p (String.◌∷◌ c s) = p c && all_chars p s

underscore-key_char :
    (s : String) → all_chars is_key_char s ≡ true → all_chars is_key_char (String.◌∷◌ "_" s) ≡ true
unfolding all_chars is_key_char
underscore-key_char s h = h

keep_char-key_chars :
    (k : Bool) (in_run : Bool) (c : Char) (s : String)
    → is_key_char c ≡ k
    → all_chars is_key_char s ≡ true
    → all_chars is_key_char (keep_char k in_run c s) ≡ true
unfolding all_chars keep_char
keep_char-key_chars true in_run c s key h = rw (key, h) refl
keep_char-key_chars false true c s odd h = h
keep_char-key_chars false false c s odd h = underscore-key_char s h

if-key_chars :
    (b : Bool) (s t : String)
    → all_chars is_key_char s ≡ true
    → all_chars is_key_char t ≡ true
    → all_chars is_key_char (if b then s else t) ≡ true
if-key_chars true s t h k = h
if-key_chars false s t h k = k

replace_runs-key_chars : (b : Bool) (s : String) → all_chars is_key_char (replace_runs b s) ≡ true
unfolding all_chars replace_runs
replace_runs-key_chars b String.[] = refl
replace_runs-key_chars b (String.◌∷◌ c s) =
    keep_char-key_chars (is_key_char c) b c _ refl (replace_runs-key_chars (not (is_key_char c)) s)

strip_left-key_chars :
    (s : String) → all_chars is_key_char s ≡ true → all_chars is_key_char (strip_left s) ≡ true
unfolding all_chars strip_left
strip_left-key_chars String.[] h = refl
strip_left-key_chars (String.◌∷◌ c s) h = ground (arith, strip_left-key_chars s)

strip_right-key_chars :
    (s : String) → all_chars is_key_char s ≡ true → all_chars is_key_char (strip_right s) ≡ true
unfolding all_chars strip_right
strip_right-key_chars String.[] h = refl
strip_right-key_chars (String.◌∷◌ c s) h =
    if-key_chars (strip_right s == "" && is_stripped c) "" (String.◌∷◌ c (strip_right s)) refl
      (ground (arith, strip_right-key_chars s))

str_take-key_chars :
    (n : ℕ) (s : String)
    → all_chars is_key_char s ≡ true
    → all_chars is_key_char (str_take n s) ≡ true
unfolding all_chars str_take
str_take-key_chars zero s h = refl
str_take-key_chars (suc n) String.[] h = refl
str_take-key_chars (suc n) (String.◌∷◌ c s) h = ground (arith, str_take-key_chars n s)

str_take-nonempty : (n : ℕ) (s : String) → (s == "") ≡ false → 1 ≤ str_len (str_take (suc n) s)
unfolding str_take str_len
str_take-nonempty n String.[] h = ground (arith, h)
str_take-nonempty n (String.◌∷◌ c s) h = omega arith

or_observation : (s : String) → ((if s == "" then "observation" else s) == "") ≡ false
or_observation s = elim (Bool-cases (s == "")) [ inl e ↦ rw e refl | inr e ↦ rw (e, e) refl ]

observation-key_chars : all_chars is_key_char "observation" ≡ true
unfolding all_chars is_key_char
observation-key_chars = refl

-- The key of a fact has from 1 to 128 characters, all of them of `[A-Za-z0-9._:-]`.
pub safe_fact_key-bounds :
    (value : String)
    → (1 ≤ str_len (safe_fact_key value))
      × ((str_len (safe_fact_key value) ≤ 128)
          × (all_chars is_key_char (safe_fact_key value) ≡ true))
unfolding safe_fact_key
safe_fact_key-bounds value =
    let normalized = strip (replace_runs false value) in
    (
      str_take-nonempty 127 _ (or_observation normalized),
      (
        str_len-str_take 128 _,
        str_take-key_chars 128 _ (
            if-key_chars (normalized == "") "observation" normalized observation-key_chars (
              strip_right-key_chars _
                (strip_left-key_chars _ (replace_runs-key_chars false value)))),
      ),
    )
