-- ===== src/Docker/Config/Creation.antt =====
-- What the options of a created container hold of the configuration.
use close.Prelude.{
  Bool-cases, List, String, [], false≢true, inl, inr, str_lt, sym, true, ◌++◌, ◌∙◌, ◌∷◌, ◌≡◌, ◌⧺◌,
}
use close.Util.StringSet.{StringSet, add, insert_sorted, sort, subset}
use close.Util.StringSet.Sorting.{Below, IsSorted, add_lem}
use close.Util.StringSet.Subset.{IsWithin, done, keep, skip, subset_complete}
use close.Docker.Config.{Config, constraint_env, create_options}
use close.Docker.Id.{ContainerId}

IsWithin-past :
    (x z : String) {xs zs : List String}
    → str_lt z x ≡ true
    → Below x xs
    → IsWithin xs (z ∷ zs)
    → IsWithin xs zs
IsWithin-past x z e b done = done
IsWithin-past x z e b (skip w) = w
IsWithin-past x _ e b (keep w) = absurd (false≢true (sym b.0 ∙ e))

insert_sorted-IsWithin :
    (x : String) {xs : List String} (zs : List String)
    → Below x xs
    → IsWithin xs zs
    → IsWithin (x ∷ xs) (insert_sorted x zs)
unfolding insert_sorted
insert_sorted-IsWithin x [] b w = keep w
insert_sorted-IsWithin x (z ∷ zs) b w = elim (Bool-cases (str_lt z x)) [
  | inl e ↦ rw e (skip (insert_sorted-IsWithin x zs b (IsWithin-past x z e b w)))
  | inr e ↦ rw e (keep w)
]

sort-IsWithin :
    (value : String) (xs : StringSet) → IsSorted xs → IsWithin xs (sort (xs ++ value ∷ []))
unfolding sort
sort-IsWithin value [] s = done
sort-IsWithin value (x ∷ xs) s =
    insert_sorted-IsWithin x (sort (xs ++ value ∷ [])) s.0 (sort-IsWithin value xs s.1)

add-IsWithin : (value : String) (xs : StringSet) → IsSorted xs → IsWithin xs (add value xs)
unfolding add
add-IsWithin value xs s = sort-IsWithin value xs s

IsWithin-trans : {xs ys zs : List String} → IsWithin xs ys → IsWithin ys zs → IsWithin xs zs
IsWithin-trans v (skip w) = skip (IsWithin-trans v w)
IsWithin-trans (skip v) (keep w) = skip (IsWithin-trans v w)
IsWithin-trans (keep v) (keep w) = keep (IsWithin-trans v w)
IsWithin-trans done w = done

IsWithin-self : (xs : List String) → IsWithin xs xs
IsWithin-self [] = done
IsWithin-self (x ∷ xs) = keep (IsWithin-self xs)

constraint_env-IsWithin :
    (env cs : StringSet)
    → IsSorted env
    → IsWithin env (constraint_env env cs) × IsSorted (constraint_env env cs)
unfolding constraint_env
constraint_env-IsWithin env [] s = (IsWithin-self env, s)
constraint_env-IsWithin env (c ∷ cs) s =
    let (w, t) =
      constraint_env-IsWithin (add ("constraint:" ⧺ c) env) cs
        (add_lem ("constraint:" ⧺ c) env "").0 in
    (IsWithin-trans (add-IsWithin ("constraint:" ⧺ c) env s) w, t)

-- The environment of a created container is sorted and passes the `Subset` test of the configuration
-- it was created from, whatever constraints were added to it.
pub create_options-env :
    (c : Config) (id : ContainerId)
    → IsSorted c.env
    → IsSorted (create_options c id).env × (subset c.env (create_options c id).env ≡ true)
unfolding create_options
create_options-env c id s =
    let (w, t) = constraint_env-IsWithin c.env c.constraints s in
    (t, subset_complete c.env (constraint_env c.env c.constraints) t w)
