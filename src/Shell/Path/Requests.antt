-- ===== src/Shell/Path/Requests.antt =====
-- What a router reads of the path of a request.
use Prim.Native.Char.{code}
use text.Mathlib.TextLemmas.{nil-append, cons-append}
use close.Prelude.{
  All, Assoc, List, Option, Option-cases, Result, String, [], Bool-cases, ap, arith, err, false,
  if◌then◌else◌, inl, inr, lookup, none, ok, refl, some, str_eq, subst, sym, true, ◌==◌, ◌∙◌, ◌∷◌,
  ◌≡◌, ◌⧺◌, eq_refl,
}
use close.Docker.Container.{split_path}
use close.Docker.Id.Parsing.{NoSlash}
use close.Shell.Path.{
  request_path, ExpandError, Field, collect_values, expand_component, expand_components,
  expand_path, join_slash, joined, not_found, parameter,
}

-- A path split at its slashes is read back from its parts.
split_path-part :
    (c s : String)
    → NoSlash c
    → split_path (c ⧺ ("/" ⧺ s)) ≡ (c, (let (d, ds) = split_path s in d ∷ ds))
unfolding split_path
split_path-part String.[] s h = rw (nil-append, cons-append, nil-append) refl
split_path-part (String.◌∷◌ k c) s h =
    let e : (code k == b'/') ≡ false = ground arith in
    rw (cons-append k c ("/" ⧺ s), split_path-part c s h.1, e) refl

split_path-NoSlash : (c : String) → NoSlash c → split_path c ≡ (c, [])
unfolding split_path
split_path-NoSlash String.[] h = refl
split_path-NoSlash (String.◌∷◌ k c) h =
    let e : (code k == b'/') ≡ false = ground arith in rw (split_path-NoSlash c h.1, e) refl

split-join :
    (c : String) (cs : List String)
    → NoSlash c
    → All NoSlash cs
    → split_path (join_slash c cs) ≡ (c, cs)
unfolding join_slash
split-join c [] h hs = split_path-NoSlash c h
split-join c (d ∷ ds) h (k, ks) =
    rw (split_path-part c (join_slash d ds) h, split-join d ds k ks) refl

split_path-parts : (s : String) → NoSlash (split_path s).0 × All NoSlash (split_path s).1
unfolding split_path
split_path-parts String.[] = (tt, tt)
split_path-parts (String.◌∷◌ c s) =
    let (first, others) = split_path-parts s in
    elim (Bool-cases (code c == b'/')) [
      | inl e ↦ rw e (tt, (first, others))
      | inr e ↦ rw e ((ground arith, first), others)
    ]

-- What a path says of the parameters of a pattern, part by part: the parts that are no parameters are
-- the same, and the others are values.
abbrev pub captures : List String → List String → Option (List (String × String))
captures [] [] = some []
captures [] (d ∷ ds) = none
captures (c ∷ cs) [] = none
captures (c ∷ cs) (d ∷ ds) = elim (captures cs ds) [
  | none ↦ none
  | some rest ↦ elim (parameter c) [
    | none ↦ if str_eq c d then some rest else none
    | some name ↦ some ((name, d) ∷ rest)
  ]
]

-- Each parameter has the value that was given for it.
abbrev pub Given : Assoc String → Option (List (String × String)) → Type 0
Given values none = ⊥
Given values (some caught) = All (λ p. lookup p.0 values ≡ some p.1) caught

-- Values without a slash.
abbrev pub Plain : Assoc String → Type 0
Plain values = (name value : String) → lookup name values ≡ some value → NoSlash value

-- what a part is replaced by, a parameter or not
abbrev Replaces : Assoc String → String → String → Option String → Type 0
Replaces values c d none = d ≡ c
Replaces values c d (some name) = lookup name values ≡ some d

abbrev ExpandedAs : Assoc String → String → Option String → Result ExpandError String → Type 0
ExpandedAs values c o (err e) = Unit {0}
ExpandedAs values c o (ok d) = NoSlash d × Replaces values c d o

expand_component-ExpandedAs :
    (values : Assoc String) (c : String)
    → Plain values
    → NoSlash c
    → ExpandedAs values c (parameter c) (expand_component values c)
unfolding expand_component
expand_component-ExpandedAs values c plain h =
    elim (parameter c)
      as (λ o. ExpandedAs values c o (elim o as (λ _. Result ExpandError String) [
        | none ↦ ok c
        | some name ↦ elim (lookup name values) as (λ _. Result ExpandError String) [
          | none ↦ err (not_found c)
          | some value ↦ ok value
        ]
      ])) [
        | none ↦ (h, refl)
        | some name ↦ elim (Option-cases (lookup name values)) [
          | inl l ↦ rw l tt
          | inr (v, l) ↦ rw l (plain name v l, l)
        ]
      ]

captures-Given :
    (values : Assoc String) (c d : String) (o : Option String) (m : Option (List (String × String)))
    → Replaces values c d o
    → Given values m
    → Given values (elim m as (λ _. Option (List (String × String))) [
      | none ↦ none
      | some rest ↦ elim o as (λ _. Option (List (String × String))) [
        | none ↦ if str_eq c d then some rest else none
        | some name ↦ some ((name, d) ∷ rest)
      ]
    ])
captures-Given values c d o none x k = absurd k
captures-Given values c d none (some rest) x k =
    let same : str_eq c d ≡ true = ap (str_eq c) x ∙ eq_refl c in rw same k
captures-Given values c d (some name) (some rest) x k = (x, k)

abbrev Captured : Assoc String → List String → Result ExpandError (List String) → Type 0
Captured values cs (err e) = Unit {0}
Captured values cs (ok ds) = All NoSlash ds × Given values (captures cs ds)

expand_components-Captured :
    (values : Assoc String) (cs : List String)
    → Plain values
    → All NoSlash cs
    → Captured values cs (expand_components values cs)
unfolding expand_components
expand_components-Captured values [] plain h = (tt, tt)
expand_components-Captured values (c ∷ cs) plain (h, hs) =
    go (expand_component values c) (expand_components values cs)
      (expand_component-ExpandedAs values c plain h) (expand_components-Captured values cs plain hs)
  where
    go :
        (r : Result ExpandError String) (rs : Result ExpandError (List String))
        → ExpandedAs values c (parameter c) r
        → Captured values cs rs
        → Captured values (c ∷ cs) (elim r as (λ _. Result ExpandError (List String)) [
          | err e ↦ err e
          | ok d ↦ elim rs as (λ _. Result ExpandError (List String)) [
            | err e ↦ err e
            | ok ds ↦ ok (d ∷ ds)
          ]
        ])
    go (err e) rs x k = tt
    go (ok d) (err e) x k = tt
    go (ok d) (ok ds) (plain_d, x) (plain_ds, k) =
        ((plain_d, plain_ds), captures-Given values c d (parameter c) (captures cs ds) x k)

-- There is a value for a parameter.
abbrev pub Filled : Assoc String → Option String → Type 0
Filled values none = Unit {0}
Filled values (some name) = (value : String) × (lookup name values ≡ some value)

expand_component-Filled :
    (values : Assoc String) (c : String)
    → Filled values (parameter c)
    → (d : String) × (expand_component values c ≡ ok d)
unfolding expand_component
expand_component-Filled values c =
    elim (parameter c)
      as (λ o.
        Filled values o
        → (d : String) × (elim o as (λ _. Result ExpandError String) [
          | none ↦ ok c
          | some name ↦ elim (lookup name values) as (λ _. Result ExpandError String) [
            | none ↦ err (not_found c)
            | some value ↦ ok value
          ]
        ]
            ≡ ok d)) [ none ↦ λ h. (c, refl) | some name ↦ λ h. (h.0, rw (h.1) refl) ]

expand_components-Filled :
    (values : Assoc String) (cs : List String)
    → All (λ c. Filled values (parameter c)) cs
    → (ds : List String) × (expand_components values cs ≡ ok ds)
unfolding expand_components
expand_components-Filled values [] h = ([], refl)
expand_components-Filled values (c ∷ cs) h =
    let (d, p) = expand_component-Filled values c h.0 in
    let (ds, q) = expand_components-Filled values cs h.1 in
    (d ∷ ds, rw (expand_components, p, q) refl)

abbrev or_empty : Result ExpandError String → String
or_empty (err e) = ""
or_empty (ok path) = path

join-Given :
    (values : Assoc String) (c : String) (cs ds : List String)
    → Captured values (c ∷ cs) (ok ds)
    → let (d, others) = split_path (or_empty (joined (ok ds))) in
      Given values (captures (c ∷ cs) (d ∷ others))
unfolding joined
join-Given values c cs [] k = absurd k.1
join-Given values c cs (d ∷ ds) (plain, given) =
    subst (λ p. Given values (captures (c ∷ cs) (p.0 ∷ p.1)))
      (sym (split-join d ds plain.0 plain.1)) given

request_path-or_empty :
    (pattern : String) (extra : List Field)
    → request_path pattern extra
      ≡ or_empty (
          joined (
            let (c, cs) = split_path pattern in
            expand_components (collect_values extra []) (c ∷ cs)))
unfolding request_path expand_path
request_path-or_empty pattern extra =
    let (c, cs) = split_path pattern in
    go (joined (expand_components (collect_values extra []) (c ∷ cs)))
  where
    go :
        (r : Result ExpandError String)
        → elim r as (λ _. String) [ err e ↦ "" | ok p ↦ p ] ≡ or_empty r
    go (err e) = refl
    go (ok p) = refl

-- The path of a request is read as its pattern says: if every parameter has a value, and none of the
-- values holds a slash, the path can be made, the parts of the pattern that are no parameters stand in
-- it, and in the place of each parameter is the value that was given for it.
pub request_path-captures :
    (pattern : String) (extra : List Field)
    → Plain (collect_values extra [])
    → (let (c, cs) = split_path pattern in
        All (λ c. Filled (collect_values extra []) (parameter c)) (c ∷ cs))
    → let (c, cs) = split_path pattern in
      let (d, ds) = split_path (request_path pattern extra) in
      Given (collect_values extra []) (captures (c ∷ cs) (d ∷ ds))
request_path-captures pattern extra plain filled =
    let values = collect_values extra [] in
    let (c, cs) = split_path pattern in
    let (ds, e) = expand_components-Filled values (c ∷ cs) filled in
    let k =
      subst (Captured values (c ∷ cs)) e
        (expand_components-Captured values (c ∷ cs) plain (split_path-parts pattern)) in
    rw (request_path-or_empty pattern extra, e) (join-Given values c cs ds k)

pub All-Plain : (values : Assoc String) → All (λ p. NoSlash p.1) values → Plain values
unfolding lookup
All-Plain [] h name value e = absurd (cc)
All-Plain ((n, v) ∷ rest) h name value e = elim (Bool-cases (str_eq n name)) [
  | inl q ↦
      (let p : some v ≡ some value =
          subst (λ b. (if b then some v else lookup name rest) ≡ some value) q e in
        let p' : v ≡ value = cc in subst NoSlash p' h.0)
  | inr q ↦
      All-Plain rest h.1 name value
        (subst (λ b. (if b then some v else lookup name rest) ≡ some value) q e)
]
