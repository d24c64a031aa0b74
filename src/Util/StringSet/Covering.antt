-- ===== src/Util/StringSet/Covering.antt =====
-- What `Subset` is true of: the sets whose texts the other set holds, but for those that are not below
-- any text of the other one.
use close.Prelude.{
  All, Bool-cases, List, String, [], ap, arith, false, inl, inr, length, ltb, refl, str_lt,
  str_lt_asymm, str_lt_irrefl, str_lt_tri, subst, sym, true, ◌++◌, ◌↔◌, ◌∷◌, ◌≡◌, ◌≤◌,
}
use close.Util.StringSet.{StringSet, subset, subset_loop}
use close.Util.StringSet.Sorting.{Below, Below-trans, IsSorted}
use close.Util.StringSet.Subset.{
  IsWithin, IsWithin-Below, IsWithin-keep, IsWithin-tail, done, keep, loop_skip, skip,
}

-- The first list is no longer than the second. Its front stands in the second, in order, each text at a
-- place of its own, and no text behind the front is below a text of the second.
pub record IsCovered (xs ys : List String) : Type 0 where
  pub shorter : length xs ≤ length ys
  pub front : List String
  pub back : List String
  pub parts : xs ≡ front ++ back
  pub within : IsWithin front ys
  pub beyond : All (λ y. Below y back) ys

-- a front and a back, as in `IsCovered`
abbrev Split : List String → List String → Type 0
Split xs ys =
    (front : List String) × (back : List String) × (xs ≡ front ++ back)
    × IsWithin front ys
    × All (λ y. Below y back) ys

Below-back : (y : String) (front back : List String) → Below y (front ++ back) → Below y back
Below-back y [] back b = b
Below-back y (x ∷ front) back b = Below-back y front back b.1

loop-Split : (xs ys : List String) → IsSorted xs → subset_loop xs ys ≡ true → Split xs ys
unfolding subset_loop
loop-Split [] ys s h = ([], [], refl, done, nothing ys)
  where
    nothing : (ys : List String) → All (λ y. Below y []) ys
    nothing [] = tt
    nothing (y ∷ ys) = (tt, nothing ys)
loop-Split (x ∷ xs) [] s h = ([], x ∷ xs, refl, done, tt)
loop-Split (x ∷ xs) (y ∷ ys) s h = elim (Bool-cases (str_lt y x)) [
  | inl e ↦
      let (front, back, p, w, b) = loop-Split (x ∷ xs) ys s (rw e at h) in
      let low = str_lt_asymm y x e in
      (
        front,
        back,
        p,
        skip w,
        (Below-back y front back (subst (Below y) p (low, Below-trans y x xs low s.0)), b),
      )
  | inr e ↦ elim (Bool-cases (str_lt x y)) [
    | inl f ↦ absurd (ground arith)
    | inr f ↦
        let (front, back, p, w, b) = loop-Split xs ys s.1 (rw f at (rw e at h)) in
        (
          x ∷ front,
          back,
          ap (λ l. x ∷ l) p,
          IsWithin-keep (str_lt_tri x y f e) w,
          (Below-back y front back (subst (Below y) p (Below-trans y x xs f s.0)), b),
        )
  ]
]

loop_beyond : (back ys : List String) → All (λ y. Below y back) ys → subset_loop back ys ≡ true
unfolding subset_loop
loop_beyond [] ys b = refl
loop_beyond (x ∷ xs) [] b = refl
loop_beyond (x ∷ xs) (y ∷ ys) b =
    ground (arith, b.0.0, loop_beyond (x ∷ xs) ys b.1, loop_beyond xs ys (tails ys b.1))
  where
    tails : (ys : List String) → All (λ y. Below y (x ∷ xs)) ys → All (λ y. Below y xs) ys
    tails [] b = tt
    tails (y ∷ ys) b = (b.0.1, tails ys b.1)

loop_covered :
    (front back ys : List String)
    → IsSorted ys
    → IsWithin front ys
    → All (λ y. Below y back) ys
    → subset_loop (front ++ back) ys ≡ true
unfolding subset_loop
loop_covered [] back ys s w b = loop_beyond back ys b
loop_covered (x ∷ front) back [] s w b = refl
loop_covered (x ∷ front) back (y ∷ ys) s (skip w) b =
    loop_skip x y (front ++ back) ys (IsWithin-Below y s.0 w)
      (loop_covered (x ∷ front) back ys s.1 w b.1)
      (loop_covered front back ys s.1 (IsWithin-tail w) b.1)
loop_covered (x ∷ front) back (_ ∷ ys) s (keep w) b =
    rw (str_lt_irrefl x) (loop_covered front back ys s.1 w b.1)

-- On sorted sets `Subset` is true just of the covered ones: a set that is no longer than the other one,
-- whose front the other one holds, text by text, and of which no text behind the front is below a text
-- of the other one.
pub subset_iff :
    (xs ys : StringSet) → IsSorted xs → IsSorted ys → (subset xs ys ≡ true) ↔ IsCovered xs ys
unfolding subset
subset_iff xs ys sx sy = (
  λ h. elim (Bool-cases (ltb (length ys) (length xs))) [
    | inl e ↦ absurd (ground arith)
    | inr e ↦
        let (front, back, p, w, b) = loop-Split xs ys sx (rw e at h) in
        record {
          shorter = ground arith;
          front = front;
          back = back;
          parts = p;
          within = w;
          beyond = b;
        }
  ],
  λ c.
      let e : ltb (length ys) (length xs) ≡ false = ground (arith, c.shorter) in
      rw e (
        subst (λ l. subset_loop l ys ≡ true) (sym c.parts)
          (loop_covered c.front c.back ys sy c.within c.beyond)),
)
