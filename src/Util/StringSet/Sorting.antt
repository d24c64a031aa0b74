-- ===== src/Util/StringSet/Sorting.antt =====
-- Sorted lists of texts, and what sorting keeps.
use mathlib.Core.Path.{ap₂}
use close.Prelude.{
  All, Bool-cases, List, String, [], arith, eq_iff, eq_refl, false, if◌then◌else◌, inl, inr, refl,
  str_eq, str_le_trans, str_lt, str_lt_asymm, str_lt_irrefl, str_lt_tri, suc, sym, ℕ, ◌++◌, ◌+◌,
  ◌<◌, ◌∙◌, ◌∷◌, ◌≡◌,
}
use close.Util.StringSet.{StringSet, add, insert_sorted, sort}

-- `x` is at most each entry.
abbrev pub Below : String → List String → Type 0
Below x = All (λ y. str_lt y x ≡ false)

abbrev pub IsSorted : List String → Type 0
IsSorted [] = Unit {0}
IsSorted (x ∷ xs) = Below x xs × IsSorted xs

-- how often a text occurs
pub count : String → List String → ℕ
count x [] = 0
count x (y ∷ ys) = let rest = count x ys in if str_eq x y then suc rest else rest

-- Two lists hold the same texts, as often.
abbrev pub SameItems : List String → List String → Type 0
SameItems xs ys = (x : String) → count x xs ≡ count x ys

pub Below-trans : (x y : String) (ys : List String) → str_lt y x ≡ false → Below y ys → Below x ys
Below-trans x y [] h b = tt
Below-trans x y (z ∷ zs) h b = (str_le_trans x y z h b.0, Below-trans x y zs h b.1)

insert_sorted-Below :
    (z x : String) (ys : List String)
    → str_lt x z ≡ false
    → Below z ys
    → Below z (insert_sorted x ys)
unfolding insert_sorted
insert_sorted-Below z x [] h b = (h, tt)
insert_sorted-Below z x (y ∷ ys) h b = elim (Bool-cases (str_lt y x)) [
  | inl e ↦ rw e (b.0, insert_sorted-Below z x ys h b.1)
  | inr e ↦ rw e (h, b)
]

insert_sorted-IsSorted :
    (x : String) (ys : List String) → IsSorted ys → IsSorted (insert_sorted x ys)
unfolding insert_sorted
insert_sorted-IsSorted x [] s = (tt, tt)
insert_sorted-IsSorted x (y ∷ ys) s = elim (Bool-cases (str_lt y x)) [
  | inl e ↦
      rw e (insert_sorted-Below y x ys (str_lt_asymm y x e) s.0, insert_sorted-IsSorted x ys s.1)
  | inr e ↦ rw e ((e, Below-trans x y ys e s.0), s)
]

count-insert_sorted :
    (z x : String) (ys : List String) → count z (insert_sorted x ys) ≡ count z (x ∷ ys)
unfolding insert_sorted count
count-insert_sorted z x [] = refl
count-insert_sorted z x (y ∷ ys) = ground (arith, count-insert_sorted z x ys)

pub sort-IsSorted : (xs : List String) → IsSorted (sort xs)
unfolding sort
sort-IsSorted [] = tt
sort-IsSorted (x ∷ xs) = insert_sorted-IsSorted x (sort xs) (sort-IsSorted xs)

pub count-sort : (z : String) (xs : List String) → count z (sort xs) ≡ count z xs
unfolding sort count
count-sort z [] = refl
count-sort z (x ∷ xs) = ground (arith, count-insert_sorted z x (sort xs), count-sort z xs)

count-append : (z : String) (xs ys : List String) → count z (xs ++ ys) ≡ count z xs + count z ys
unfolding count
count-append z [] ys = omega arith
count-append z (x ∷ xs) ys = ground (arith, count-append z xs ys)

-- Adding a text to a set leaves a sorted list with that text once more and every other text as often
-- as before.
pub add_lem :
    (value : String) (self : StringSet) (z : String)
    → IsSorted (add value self)
      × (count z (add value self) ≡ count z self + (if str_eq z value then 1 else 0))
unfolding add
add_lem value self z = (
  sort-IsSorted (self ++ value ∷ []),
  count-sort z (self ++ value ∷ [])
      ∙ count-append z self (value ∷ [])
      ∙ unfold count in ground arith,
)

count-Below : (x y : String) (ys : List String) → Below x ys → 0 < count y ys → str_lt y x ≡ false
unfolding count
count-Below x y [] b h = absurd (omega arith)
count-Below x y (z ∷ zs) b h = elim (Bool-cases (str_eq y z)) [
  | inl e ↦ rw ((eq_iff y z).0 e) b.0
  | inr e ↦ count-Below x y zs b.1 (rw e at h)
]

count_self : (x : String) (xs : List String) → 0 < count x (x ∷ xs)
unfolding count
count_self x xs = rw (eq_refl x) (omega arith)

head_le :
    (x y : String) (xs ys : List String)
    → IsSorted (x ∷ xs)
    → SameItems (x ∷ xs) (y ∷ ys)
    → str_lt y x ≡ false
unfolding count
head_le x y xs ys s same =
    let h : 0 < count y (x ∷ xs) = rw (same y) (count_self y ys) in
    count-Below x y (x ∷ xs) (str_lt_irrefl x, s.0) h

count_cancel :
    (z : String) {x y : String} (xs ys : List String)
    → x ≡ y
    → count z (x ∷ xs) ≡ count z (y ∷ ys)
    → count z xs ≡ count z ys
unfolding count
count_cancel z xs ys e h = ground arith

-- Sorted lists with the same texts are equal.
pub sorted_unique : (xs ys : List String) → IsSorted xs → IsSorted ys → SameItems xs ys → xs ≡ ys
sorted_unique [] [] s t same = refl
sorted_unique [] (y ∷ ys) s t same = absurd (unfold count in omega (arith, count_self y ys, same y))
sorted_unique (x ∷ xs) [] s t same = absurd (unfold count in omega (arith, count_self x xs, same x))
sorted_unique (x ∷ xs) (y ∷ ys) s t same =
    let e : x ≡ y =
      str_lt_tri x y (head_le y x ys xs t (λ z. sym (same z))) (head_le x y xs ys s same) in
    ap₂ ◌∷◌ e (sorted_unique xs ys s.1 t.1 (λ z. count_cancel z xs ys e (same z)))
