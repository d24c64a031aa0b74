-- ===== src/Util/StringSet/Subset.antt =====
-- What `Subset` decides on sorted lists.
use mathlib.Core.Path.{subst}
use close.Prelude.{
  All, Bool-cases, List, String, [], arith, false, inl, inr, length, ltb, refl, str_lt,
  str_lt_asymm, str_lt_irrefl, str_lt_tri, true, ◌++◌, ◌∷◌, ◌≡◌, ◌≤◌,
}
use close.Util.StringSet.{StringSet, subset, subset_loop}
use close.Util.StringSet.Sorting.{Below, IsSorted}

-- The texts of the first list stand in the second, in order, each at a place of its own.
pub data IsWithin : List String → List String → Type 0 where
  done : {ys : List String} → IsWithin [] ys
  skip : {xs ys : List String} {y : String} → IsWithin xs ys → IsWithin xs (y ∷ ys)
  keep : {xs ys : List String} {z : String} → IsWithin xs ys → IsWithin (z ∷ xs) (z ∷ ys)

-- Every text is less than `z`.
abbrev pub AllLess : String → List String → Type 0
AllLess z = All (λ x. str_lt x z ≡ true)

pub IsWithin-keep :
    {x y : String} {xs ys : List String} → x ≡ y → IsWithin xs ys → IsWithin (x ∷ xs) (y ∷ ys)
IsWithin-keep {x} {y} {xs} {ys} e w = subst (λ t. IsWithin (x ∷ xs) (t ∷ ys)) e (keep w)

loop_sound :
    (xs ys : List String) (z : String)
    → AllLess z xs
    → subset_loop xs (ys ++ z ∷ []) ≡ true
    → IsWithin xs (ys ++ z ∷ [])
unfolding subset_loop
loop_sound [] ys z b h = done
loop_sound (x ∷ xs) [] z b h = absurd (ground (arith, str_lt_asymm x z))
loop_sound (x ∷ xs) (y ∷ ys) z b h = elim (Bool-cases (str_lt y x)) [
  | inl e ↦ skip (loop_sound (x ∷ xs) ys z b (rw e at h))
  | inr e ↦ elim (Bool-cases (str_lt x y)) [
    | inl f ↦ absurd (ground arith)
    | inr f ↦ IsWithin-keep (str_lt_tri x y f e) (loop_sound xs ys z b.1 (rw f at (rw e at h)))
  ]
]

-- If the other set holds a text above all of the first set's, `Subset` is true only of a set whose
-- texts the other holds, as often.
pub subset_sound :
    (self ys : StringSet) (z : String)
    → AllLess z self
    → subset self (ys ++ z ∷ []) ≡ true
    → IsWithin self (ys ++ z ∷ [])
unfolding subset
subset_sound self ys z b h = elim (Bool-cases (ltb (length (ys ++ z ∷ [])) (length self))) [
  | inl e ↦ absurd (ground arith)
  | inr e ↦ loop_sound self ys z b (rw e at h)
]

IsWithin-length : {xs ys : List String} → IsWithin xs ys → length xs ≤ length ys
IsWithin-length done = omega arith
IsWithin-length (skip w) = omega (arith, IsWithin-length w)
IsWithin-length (keep w) = omega (arith, IsWithin-length w)

pub IsWithin-tail : {x : String} {xs ys : List String} → IsWithin (x ∷ xs) ys → IsWithin xs ys
IsWithin-tail (skip w) = skip (IsWithin-tail w)
IsWithin-tail (keep w) = skip w

pub IsWithin-Below :
    {x : String} {xs ys : List String} (y : String)
    → Below y ys
    → IsWithin (x ∷ xs) ys
    → str_lt x y ≡ false
IsWithin-Below y b (skip w) = IsWithin-Below y b.1 w
IsWithin-Below y b (keep w) = b.0

pub loop_skip :
    (x y : String) (xs ys : List String)
    → str_lt x y ≡ false
    → subset_loop (x ∷ xs) ys ≡ true
    → subset_loop xs ys ≡ true
    → subset_loop (x ∷ xs) (y ∷ ys) ≡ true
unfolding subset_loop
loop_skip x y xs ys h a b = ground arith

loop_complete : (xs ys : StringSet) → IsSorted ys → IsWithin xs ys → subset_loop xs ys ≡ true
unfolding subset_loop
loop_complete [] ys t w = refl
loop_complete (x ∷ xs) [] t w = refl
loop_complete (x ∷ xs) (y ∷ ys) t (skip w) =
    loop_skip x y xs ys (IsWithin-Below y t.0 w) (loop_complete (x ∷ xs) ys t.1 w)
      (loop_complete xs ys t.1 (IsWithin-tail w))
loop_complete (x ∷ xs) (_ ∷ ys) t (keep w) = rw (str_lt_irrefl x) (loop_complete xs ys t.1 w)

-- `Subset` is true of every set whose texts the other, sorted, set holds, as often.
pub subset_complete : (xs ys : StringSet) → IsSorted ys → IsWithin xs ys → subset xs ys ≡ true
unfolding subset
subset_complete xs ys t w =
    let h : ltb (length ys) (length xs) ≡ false = ground (arith, IsWithin-length w) in
    rw h (loop_complete xs ys t w)

loop_above :
    (x : String) (xs ys : List String)
    → All (λ y. str_lt y x ≡ true) ys
    → subset_loop (x ∷ xs) ys ≡ true
unfolding subset_loop
loop_above x xs [] h = refl
loop_above x xs (y ∷ ys) h = rw h.0 (loop_above x xs ys h.1)

not-IsWithin_above :
    {x : String} {xs ys : List String} → All (λ y. str_lt y x ≡ true) ys → IsWithin (x ∷ xs) ys → ⊥
not-IsWithin_above h (skip w) = not-IsWithin_above h.1 w
not-IsWithin_above {x} h (keep w) = cc (str_lt_irrefl x, h.0)

loop_refl : (xs : StringSet) → subset_loop xs xs ≡ true
unfolding subset_loop
loop_refl [] = refl
loop_refl (x ∷ xs) = rw (str_lt_irrefl x) (loop_refl xs)

-- `Subset` is also true of every set that is no longer than the other one and whose first text is
-- above all texts of the other, though the other then holds not even that text.
subset_above :
    (x : String) (xs ys : List String)
    → length (x ∷ xs) ≤ length ys
    → All (λ y. str_lt y x ≡ true) ys
    → (subset (x ∷ xs) ys ≡ true) × (¬ IsWithin (x ∷ xs) ys)
unfolding subset
subset_above x xs ys short h =
    let e : ltb (length ys) (length (x ∷ xs)) ≡ false = ground arith in
    (rw e (loop_above x xs ys h), not-IsWithin_above h)

-- A set is a subset of itself.
pub subset_refl : (xs : StringSet) → subset xs xs ≡ true
unfolding subset
subset_refl xs = let h : ltb (length xs) (length xs) ≡ false = ground arith in rw h (loop_refl xs)
