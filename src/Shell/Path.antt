-- ===== src/Shell/Path.antt =====
-- util/strings.go: the path of a request with its parameters filled in. The fields of the command's
-- struct, which Go reads by reflection, are lists: a field has its tag `positional-args` and its own
-- fields, and one of those its tag `positional-arg-name` and its value.
use Prim.Native.Char.{code}
pub mod Requests
use close.Prelude.{
  Assoc, Bool, List, Option, Result, String, [], err, false, if◌then◌else◌, insert, lookup, none,
  ok, some, str_eq, true, ℕ, ◌==◌, ◌∷◌, ◌⧺◌,
}
use close.Docker.Container.{split_path}

pub record Field : Type 0 where
  pub positional : String  -- the tag, "" without one
  pub args : List (String × String)

-- `strings.Join(components, "/")` of a first component and the others
unfoldable pub join_slash : String → List String → String
join_slash c [] = c
join_slash c (d ∷ ds) = c ⧺ ("/" ⧺ join_slash d ds)

-- the inner loop over the arguments of a field, and the loop over the fields
unfoldable pub collect_args : List (String × String) → Assoc String → Assoc String
collect_args [] values = values
collect_args ((name, value) ∷ args) values =
    collect_args args (if str_eq name "" then values else insert name value values)

unfoldable pub collect_values : List Field → Assoc String → Assoc String
unfolding collect_args
collect_values [] values = values
collect_values (f ∷ fs) values =
    collect_values fs (if str_eq f.positional "" then values else collect_args f.args values)

-- `strings.HasPrefix(c, ":")` with `c[1:]`
unfoldable pub parameter : String → Option String
parameter String.[] = none
parameter (String.◌∷◌ c s) = if code c == b':' then some s else none

pub data ExpandError : Type 0 where
  not_found : String → ExpandError

unfoldable pub expand_component : Assoc String → String → Result ExpandError String
unfolding parameter lookup
expand_component values c = elim (parameter c) [
  | none ↦ ok c
  | some name ↦ elim (lookup name values) [ none ↦ err (not_found c) | some value ↦ ok value ]
]

-- the loop over the components
unfoldable pub expand_components : Assoc String → List String → Result ExpandError (List String)
unfolding expand_component
expand_components values [] = ok []
expand_components values (c ∷ cs) = elim (expand_component values c) [
  | err e ↦ err e
  | ok d ↦ elim (expand_components values cs) [ err e ↦ err e | ok ds ↦ ok (d ∷ ds) ]
]

unfoldable pub joined : Result ExpandError (List String) → Result ExpandError String
unfolding join_slash
joined (err e) = err e
joined (ok []) = ok ""
joined (ok (c ∷ cs)) = ok (join_slash c cs)

-- `ExpandPath`
unfoldable pub expand_path : String → List Field → Result ExpandError String
unfolding split_path collect_values expand_components joined
expand_path path extra =
    let (c, cs) = split_path path in joined (expand_components (collect_values extra []) (c ∷ cs))

-- `GenericConfigImpl.Path`: an error is the empty path. The comparison of types in it is never true,
-- since `extra` is a pointer.
unfoldable pub request_path : String → List Field → String
unfolding expand_path
request_path path extra = elim (expand_path path extra) [ err e ↦ "" | ok p ↦ p ]
