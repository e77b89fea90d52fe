-- ===== src/Common/Texts.antt =====
-- Python's operations on texts that the code uses.
use Prim.Native.Nat.{ℕ, zero, suc, ◌≤◌}
use Prim.Native.String.{String, ◌++◌}
use mathlib.Core.Bool.{Bool, ◌||◌}
use mathlib.Core.List.{List, [], ◌∷◌}
use native.Mathlib.Omega.{arith}
use text.Mathlib.Text.{starts_with}
use fireviewer_orchestrator.Common.Lists.{any}

-- `len`, `s[:n]` and `s[n:]`
unfoldable pub str_len : String → ℕ
str_len String.[] = 0
str_len (String.◌∷◌ c s) = suc (str_len s)

unfoldable pub str_take : ℕ → String → String
str_take zero s = ""
str_take (suc n) String.[] = ""
str_take (suc n) (String.◌∷◌ c s) = String.◌∷◌ c (str_take n s)

unfoldable pub str_drop : ℕ → String → String
str_drop zero s = s
str_drop (suc n) String.[] = ""
str_drop (suc n) (String.◌∷◌ c s) = str_drop n s

pub str_len-str_take : (n : ℕ) (s : String) → str_len (str_take n s) ≤ n
unfolding str_len str_take
str_len-str_take zero s = omega arith
str_len-str_take (suc n) String.[] = omega arith
str_len-str_take (suc n) (String.◌∷◌ c s) = omega (arith, str_len-str_take n s)

-- `token in s`
unfoldable pub contains_text : String → String → Bool
contains_text token String.[] = starts_with "" token
contains_text token (String.◌∷◌ c s) = starts_with (String.◌∷◌ c s) token || contains_text token s

-- `any(token in s for token in tokens)`
abbrev pub contains_one : List String → String → Bool
contains_one tokens s = any (λ token. contains_text token s) tokens

-- `sep.join(parts)`
unfoldable pub join : String → List String → String
join sep [] = ""
join sep (p ∷ []) = p
join sep (p ∷ q ∷ ps) = p ++ sep ++ join sep (q ∷ ps)
