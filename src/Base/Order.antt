-- ===== src/Base/Order.antt =====
-- The order of texts, as Go's `<` on strings: by code points, which for valid UTF-8 is by bytes.
use Prim.Native.Nat.{Ordering}
use Prim.Native.String.{String, compare}
use Prim.Native.String.compare
use mathlib.Core.Path.{◌≡◌, refl}
use mathlib.Core.Bool.{Bool, true}
use mathlib.Core.Logic.{◌⊎◌, inl, inr}
use native.Mathlib.Omega.{arith}
use text.Mathlib.Text.{is_lt, is_le}
use text.Mathlib.TextEquality.{path_by_compare}

-- `s < t`
abbrev pub str_lt : String → String → Bool
str_lt s t = is_lt (compare s t)

-- `!(t < s)`
abbrev pub str_le : String → String → Bool
str_le s t = is_le (compare s t)

-- Either text is at most the other.
pub str_le_total : (s t : String) → (str_le s t ≡ true) ⊎ (str_le t s ≡ true)
str_le_total String.[] String.[] = inl refl
str_le_total String.[] (String.◌∷◌ d t) = inl (rw compare.nil-cons)
str_le_total (String.◌∷◌ c s) String.[] = inr (rw compare.nil-cons)
str_le_total (String.◌∷◌ c s) (String.◌∷◌ d t) =
    ground (arith, compare.cons-cons c d s t, compare.cons-cons d c t s, str_le_total s t)

pub str_le_trans : (s t u : String) → str_le s t ≡ true → str_le t u ≡ true → str_le s u ≡ true
str_le_trans String.[] String.[] u h k = k
str_le_trans String.[] (String.◌∷◌ d t) String.[] h k = refl
str_le_trans String.[] (String.◌∷◌ d t) (String.◌∷◌ e u) h k = rw compare.nil-cons
str_le_trans (String.◌∷◌ c s) String.[] u h k = ground (arith, compare.cons-nil c s)
str_le_trans (String.◌∷◌ c s) (String.◌∷◌ d t) String.[] h k = ground (arith, compare.cons-nil d t)
str_le_trans (String.◌∷◌ c s) (String.◌∷◌ d t) (String.◌∷◌ e u) h k = ground (
  arith,
  compare.cons-cons c d s t,
  compare.cons-cons d e t u,
  compare.cons-cons c e s u,
  str_le_trans s t u,
)

both_le : (s t : String) → str_le s t ≡ true → str_le t s ≡ true → compare s t ≡ Ordering.eq
both_le String.[] String.[] h k = compare.nil-nil
both_le String.[] (String.◌∷◌ d t) h k = ground (arith, compare.cons-nil d t)
both_le (String.◌∷◌ c s) String.[] h k = ground (arith, compare.cons-nil c s)
both_le (String.◌∷◌ c s) (String.◌∷◌ d t) h k =
    ground (arith, compare.cons-cons c d s t, compare.cons-cons d c t s, both_le s t)

pub str_le_antisymm : (s t : String) → str_le s t ≡ true → str_le t s ≡ true → s ≡ t
str_le_antisymm s t h k = path_by_compare s t (both_le s t h k)
