-- ===== src/Prelude/Text.antt =====
-- Texts: Go's byte order on strings, and its laws.
use Prim.Native.Nat.{compare, Ordering}
use Prim.Native.Char.{Char, code}
use Prim.Native.String.{String}
use mathlib.Core.Path.{◌≡◌, refl, ap₂}
use mathlib.Core.Bool.{Bool, true, false}
use native.Mathlib.Omega.{arith}
use text.Mathlib.TextEquality.{codes_equal}

-- `s < t`: the bytes of UTF-8 are ordered as the code points are.
unfoldable pub str_lt : String → String → Bool
str_lt String.[] String.[] = false
str_lt String.[] (String.◌∷◌ d t) = true
str_lt (String.◌∷◌ c s) String.[] = false
str_lt (String.◌∷◌ c s) (String.◌∷◌ d t) =
    let rest = str_lt s t in
    elim (compare (code c) (code d)) [
      | Ordering.lt ↦ true
      | Ordering.eq ↦ rest
      | Ordering.gt ↦ false
    ]

pub str_lt_irrefl : (s : String) → str_lt s s ≡ false
unfolding str_lt
str_lt_irrefl String.[] = refl
str_lt_irrefl (String.◌∷◌ c s) = ground (arith, str_lt_irrefl s)

pub str_lt_asymm : (s t : String) → str_lt s t ≡ true → str_lt t s ≡ false
unfolding str_lt
str_lt_asymm String.[] String.[] h = cc
str_lt_asymm String.[] (String.◌∷◌ d t) h = refl
str_lt_asymm (String.◌∷◌ c s) String.[] h = cc
str_lt_asymm (String.◌∷◌ c s) (String.◌∷◌ d t) h = ground (arith, str_lt_asymm s t)

-- `s ≤ t` is a transitive relation, written as the negation of `t < s`.
pub str_le_trans : (s t u : String) → str_lt t s ≡ false → str_lt u t ≡ false → str_lt u s ≡ false
unfolding str_lt
str_le_trans String.[] t String.[] h k = refl
str_le_trans String.[] t (String.◌∷◌ e u) h k = refl
str_le_trans (String.◌∷◌ c s) String.[] u h k = cc
str_le_trans (String.◌∷◌ c s) (String.◌∷◌ d t) String.[] h k = cc
str_le_trans (String.◌∷◌ c s) (String.◌∷◌ d t) (String.◌∷◌ e u) h k =
    ground (arith, str_le_trans s t u)

same_code : (c d : Char) → code c ≡ code d → c ≡ d
same_code c d h = codes_equal c d (ground arith)

-- Texts of which neither is less are equal.
pub str_lt_tri : (s t : String) → str_lt s t ≡ false → str_lt t s ≡ false → s ≡ t
unfolding str_lt
str_lt_tri String.[] String.[] h k = refl
str_lt_tri String.[] (String.◌∷◌ d t) h k = cc
str_lt_tri (String.◌∷◌ c s) String.[] h k = cc
str_lt_tri (String.◌∷◌ c s) (String.◌∷◌ d t) h k =
    ap₂ String.◌∷◌ (same_code c d (ground arith)) (str_lt_tri s t (ground arith) (ground arith))
