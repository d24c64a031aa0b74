-- ===== src/Util/StringSet.antt =====
-- util/stringset.go: a sorted list of strings. A method on a pointer returns the new value;
-- `sort.Strings` is an insertion sort, which has the same result on strings.
pub mod Sorting
pub mod Equality
pub mod Subset
pub mod Covering
pub mod Examples
use close.Prelude.{
  Bool, List, String, [], false, if◌then◌else◌, length, ltb, not, str_eq, str_lt, true, ◌&&◌, ◌++◌,
  ◌==◌, ◌∷◌, ◌⧺◌,
}

abbrev pub StringSet : Type 0
StringSet = List String

unfoldable pub insert_sorted : String → List String → List String
insert_sorted x [] = x ∷ []
insert_sorted x (y ∷ ys) = if str_lt y x then y ∷ insert_sorted x ys else x ∷ y ∷ ys

-- `sort`, by `sort.Strings`
unfoldable pub sort : List String → StringSet
unfolding insert_sorted
sort [] = []
sort (x ∷ xs) = insert_sorted x (sort xs)

-- `MakeStringSet`
unfoldable pub make_string_set : List String → StringSet
unfolding sort
make_string_set values = sort values

-- `Set`: Replace contents
unfoldable pub set : List String → StringSet
unfolding sort
set values = sort values

-- `Add`
unfoldable pub add : String → StringSet → StringSet
unfolding sort
add value self = sort (self ++ value ∷ [])

-- `AddEnv`, with the value as `%v` prints it
unfoldable pub add_env : String → String → StringSet → StringSet
unfolding add
add_env name value = add (name ⧺ "=" ⧺ value)

-- the loop of `Equals`, on lists of one length
unfoldable pub same_loop : StringSet → StringSet → Bool
same_loop [] other = true
same_loop (x ∷ xs) [] = true
same_loop (x ∷ xs) (y ∷ ys) = str_eq x y && same_loop xs ys

-- `Equals`
unfoldable pub equals : StringSet → StringSet → Bool
unfolding same_loop
equals self other = if not (length self == length other) then false else same_loop self other

-- the loop of `Subset`: it ends with true when either list is at its end
unfoldable pub subset_loop : StringSet → StringSet → Bool
subset_loop [] other = true
subset_loop (x ∷ xs) [] = true
subset_loop (x ∷ xs) (y ∷ ys) =
    let skip = subset_loop (x ∷ xs) ys in
    let next = subset_loop xs ys in if str_lt y x then skip else if str_lt x y then false else next

-- `Subset`
unfoldable pub subset : StringSet → StringSet → Bool
unfolding subset_loop
subset self other = if ltb (length other) (length self) then false else subset_loop self other

-- `Extend`: plain extend, with duplicates
unfoldable pub extend : StringSet → StringSet → StringSet
extend self other = self ++ other
