-- ===== src/Common/Pairs.antt =====
-- The order of pairs of texts, which is that of Python's tuples.
use Prim.Native.String.{String}
use mathlib.Core.Path.{◌≡◌}
use mathlib.Core.Logic.{◌↔◌, ◌⊎◌}
use mathlib.Core.Bool.{Bool, true, ◌&&◌}
use native.Mathlib.Omega.{arith}
use text.Mathlib.TextEquality.{eq_iff}
use fireviewer_orchestrator.Common.Tests.{if◌then◌else◌}
use fireviewer_orchestrator.Common.Order.{
  Ord, ◌==◌, string_ord, str_le, str_le_total, str_le_trans, str_le_antisym,
}

-- Pairs of texts, compared as tuples are: by the first, then by the second.
abbrev pub pair_eqb : (String × String) → (String × String) → Bool
pair_eqb (a, b) (c, d) = (a == c) && (b == d)

unfoldable pub pair_le : (String × String) → (String × String) → Bool
pair_le (a, b) (c, d) = if (a == c) then str_le b d else str_le a c

pub pair_eqb_iff : (p q : String × String) → (pair_eqb p q ≡ true) ↔ (p ≡ q)
pair_eqb_iff (a, b) (c, d) = ground (arith, eq_iff a c, eq_iff b d)

pub pair_le_total : (p q : String × String) → (pair_le p q ≡ true) ⊎ (pair_le q p ≡ true)
unfolding pair_le
pair_le_total (a, b) (c, d) =
    ground (arith, eq_iff a c, eq_iff c a, str_le_total a c, str_le_total b d)

pub pair_le_trans :
    (p q r : String × String) → pair_le p q ≡ true → pair_le q r ≡ true → pair_le p r ≡ true
unfolding pair_le
pair_le_trans (a, b) (c, d) (e, f) h k = ground (
  arith,
  eq_iff a c,
  eq_iff c e,
  eq_iff a e,
  str_le_trans a c e,
  str_le_trans b d f,
  str_le_antisym a c,
)

pub pair_le_antisym : (p q : String × String) → pair_le p q ≡ true → pair_le q p ≡ true → p ≡ q
unfolding pair_le
pair_le_antisym (a, b) (c, d) h k =
    ground (arith, eq_iff a c, eq_iff c a, str_le_antisym a c, str_le_antisym b d)

instance abbrev pub pair_ord : Ord (String × String)
pair_ord = record {
  eqb = pair_eqb;
  le = pair_le;
  eqb_iff = pair_eqb_iff;
  le_total = pair_le_total;
  le_trans = pair_le_trans;
  le_antisym = pair_le_antisym;
}
