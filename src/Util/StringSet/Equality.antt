-- ===== src/Util/StringSet/Equality.antt =====
-- `Equals` compares the sets, whatever order their texts were given in.
use close.Prelude.{
  Bool-cases, List, String, [], ap, arith, eq_iff, inl, inr, length, refl, sym, true, ◌==◌, ◌↔◌,
  ◌∙◌, ◌∷◌, ◌≡◌,
}
use close.Util.StringSet.{StringSet, equals, make_string_set, same_loop, sort}
use close.Util.StringSet.Sorting.{SameItems, count, count-sort, sort-IsSorted, sorted_unique}

same_loop_iff : (xs ys : StringSet) → length xs ≡ length ys → (same_loop xs ys ≡ true) ↔ (xs ≡ ys)
unfolding same_loop
same_loop_iff [] [] h = (λ _. refl, λ _. refl)
same_loop_iff [] (y ∷ ys) h = absurd (omega arith)
same_loop_iff (x ∷ xs) [] h = absurd (omega arith)
same_loop_iff (x ∷ xs) (y ∷ ys) h = ground (arith, eq_iff x y, same_loop_iff xs ys)

-- `Equals` is true just of equal lists.
pub equals_iff : (xs ys : StringSet) → (equals xs ys ≡ true) ↔ (xs ≡ ys)
unfolding equals
equals_iff xs ys = elim (Bool-cases (length xs == length ys)) [
  | inl e ↦ rw e (same_loop_iff xs ys (ground arith))
  | inr e ↦ rw e (λ h. cc, λ h. absurd (ground (arith, ap length h)))
]

-- Two sets made from lists of texts are `Equals` just when the lists hold the same texts as often,
-- in whatever order.
pub equals-make_string_set :
    (xs ys : List String)
    → (equals (make_string_set xs) (make_string_set ys) ≡ true) ↔ SameItems xs ys
unfolding make_string_set
equals-make_string_set xs ys = (
  λ h z.
      sym (count-sort z xs) ∙ ap (count z) ((equals_iff (sort xs) (sort ys)).0 h) ∙ count-sort z ys,
  λ same. (equals_iff (sort xs) (sort ys)).1 (
      sorted_unique (sort xs) (sort ys) (sort-IsSorted xs) (sort-IsSorted ys)
        (λ z. count-sort z xs ∙ same z ∙ sym (count-sort z ys))),
)
