-- ===== src/Docker/Id/Parsing.antt =====
-- Identities survive the daemon, and what a parsed identity says.
use Prim.Native.Char.{code}
use text.Mathlib.TextLemmas.{nil-append, cons-append}
use close.Prelude.{
  Assoc, Option-cases, String, ap, arith, eq_iff, eq_refl, false, false≢true, if◌then◌else◌, inl,
  inr, lookup, ok, refl, some, str_eq, sym, true, ◌==◌, ◌∙◌, ◌≡◌, ◌≢◌, ◌⧺◌,
}
use close.Docker.Id.{ContainerId, base_from, base_name, id_string, label, labels, parse_id}

-- No character of the text is a slash.
abbrev pub NoSlash : String → Type 0
NoSlash String.[] = Unit {0}
NoSlash (String.◌∷◌ c s) = (code c ≢ b'/') × NoSlash s

pub base_from-NoSlash : (start s : String) → NoSlash s → base_from start s ≡ start
unfolding base_from
base_from-NoSlash start String.[] h = refl
base_from-NoSlash start (String.◌∷◌ c s) h =
    let e : (code c == b'/') ≡ false = ground arith in rw e (base_from-NoSlash start s h.1)

pub base_from-slash : (start node s : String) → NoSlash s → base_from start (node ⧺ ("/" ⧺ s)) ≡ s
unfolding base_from
base_from-slash start String.[] s h =
    rw (nil-append, cons-append, nil-append) (base_from-NoSlash s s h)
base_from-slash start (String.◌∷◌ c node) s h =
    rw (cons-append c node ("/" ⧺ s))
      (base_from-slash (if code c == b'/' then node ⧺ ("/" ⧺ s) else start) node s h)

-- The identity is read back from the name and the labels that the manager gives a container, whatever
-- path a daemon or a swarm puts before the name, if no part is empty and the name holds no slash.
pub parse_id-labels :
    (path : String) (id : ContainerId)
    → id.class ≢ ""
    → id.type ≢ ""
    → id.instance_name ≢ ""
    → NoSlash (id_string id)
    → parse_id (path ⧺ ("/" ⧺ id_string id)) (labels id) ≡ ok id
unfolding parse_id base_name label labels lookup
parse_id-labels path id c t i h =
    let e : base_from (path ⧺ ("/" ⧺ id_string id)) (path ⧺ ("/" ⧺ id_string id)) ≡ id_string id =
      base_from-slash (path ⧺ ("/" ⧺ id_string id)) path (id_string id) h in
    rw e (
      rw (eq_refl (id_string id))
        (ground (arith, eq_iff id.class "", eq_iff id.type "", eq_iff id.instance_name "")))

lookup-label :
    (key : String) (ls : Assoc String)
    → str_eq (label key ls) "" ≡ false
    → lookup key ls ≡ some (label key ls)
unfolding label
lookup-label key ls h = elim (Option-cases (lookup key ls)) [
  | inl e ↦ absurd (false≢true (sym (rw (e, label) at h)))
  | inr (v, e) ↦ rw (e, label)
]

-- the tests that `parse_id` made
parse_id-tests :
    (name : String) (ls : Assoc String) (id : ContainerId)
    → parse_id name ls ≡ ok id
    → (str_eq (base_name name) (id_string id) ≡ true)
      × (str_eq id.class "" ≡ false)
      × (str_eq id.type "" ≡ false)
      × (str_eq id.instance_name "" ≡ false)
      × (id.class ≡ label "close" ls)
      × (id.type ≡ label "close.type" ls)
      × (id.instance_name ≡ label "close.instance" ls)
unfolding parse_id
parse_id-tests name ls id h = ground arith

-- A name and labels that parse belong to the identity: the name is the one the manager gives it, and
-- the three labels hold its parts, none of them empty.
pub parse_id_sound :
    (name : String) (ls : Assoc String) (id : ContainerId)
    → parse_id name ls ≡ ok id
    → (base_name name ≡ id_string id)
      × (lookup "close" ls ≡ some id.class)
      × (lookup "close.type" ls ≡ some id.type)
      × (lookup "close.instance" ls ≡ some id.instance_name)
      × (id.class ≢ "")
      × (id.type ≢ "")
      × (id.instance_name ≢ "")
parse_id_sound name ls id h =
    let (b, c, t, i, ec, et, ei) = parse_id-tests name ls id h in
    (
      (eq_iff (base_name name) (id_string id)).0 b,
      lookup-label "close" ls (rw ec at c) ∙ ap some (sym ec),
      lookup-label "close.type" ls (rw et at t) ∙ ap some (sym et),
      lookup-label "close.instance" ls (rw ei at i) ∙ ap some (sym ei),
      λ e. false≢true (sym c ∙ (eq_iff id.class "").1 e),
      λ e. false≢true (sym t ∙ (eq_iff id.type "").1 e),
      λ e. false≢true (sym i ∙ (eq_iff id.instance_name "").1 e),
    )
