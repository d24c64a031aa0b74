-- ===== src/Util/StringSet/Examples.antt =====
-- Sets of environment entries.
use close.Prelude.{[], refl, str_lt, true, ◌↔◌, ◌∷◌, ◌≡◌}
use close.Util.StringSet.Covering.{IsCovered, subset_iff}
use close.Util.StringSet.{StringSet, subset, equals, make_string_set}
use close.Util.StringSet.Sorting.{SameItems}
use close.Util.StringSet.Equality.{equals-make_string_set}

abbrev one_two : StringSet
one_two = "A=1" ∷ "B=2" ∷ []

equals-make_string_set_example :
    (equals (make_string_set ("B=2" ∷ "A=1" ∷ [])) (make_string_set one_two) ≡ true)
    ↔ SameItems ("B=2" ∷ "A=1" ∷ []) one_two
equals-make_string_set_example = equals-make_string_set ("B=2" ∷ "A=1" ∷ []) one_two

-- a set that is covered, without a text of the other set
subset_iff_example : (subset ("Z=1" ∷ []) one_two ≡ true) ↔ IsCovered ("Z=1" ∷ []) one_two
unfolding str_lt
subset_iff_example = subset_iff ("Z=1" ∷ []) one_two (tt, tt) ((refl, tt), (tt, tt))
