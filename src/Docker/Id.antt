-- ===== src/Docker/Id.antt =====
-- docker/id.go: the identity of a container in its name and its labels.
pub mod Parsing
pub mod Examples
use Prim.Native.Char.{Char, code}
use close.Prelude.{
  Assoc, Bool, Result, String, [], err, if◌then◌else◌, lookup, none, not, ok, some, str_eq, ◌&&◌,
  ◌-◌, ◌==◌, ◌∷◌, ◌⧺◌,
}

pub record ContainerId : Type 0 where
  pub class : String
  pub type : String
  pub instance_name : String  -- Instance

abbrev pub no_id : ContainerId
no_id = record { class = ""; type = ""; instance_name = "" }

-- Go compares structs by their fields.
unfoldable pub id_eq : ContainerId → ContainerId → Bool
id_eq a b = str_eq a.class b.class && str_eq a.type b.type && str_eq a.instance_name b.instance_name

-- Docker name
unfoldable pub id_string : ContainerId → String
id_string id = "close-" ⧺ (id.class ⧺ ("-" ⧺ (id.type ⧺ ("-" ⧺ id.instance_name))))

unfoldable pub labels : ContainerId → Assoc String
labels id =
    ("close", id.class) ∷ ("close.type", id.type) ∷ ("close.instance", id.instance_name) ∷ []

pub data IdError : Type 0 where
  missing_class missing_type missing_instance : IdError
  name_mismatch : String → ContainerId → IdError

-- the part behind the last "/": `namePath := strings.Split(name, "/")` and its last entry
unfoldable pub base_from : String → String → String
base_from start String.[] = start
base_from start (String.◌∷◌ c s) = base_from (if code c == b'/' then s else start) s

unfoldable pub base_name : String → String
unfolding base_from
base_name name = base_from name name

-- `labels[key]`, which is "" for a missing key
unfoldable pub label : String → Assoc String → String
label key ls = elim (lookup key ls) [ none ↦ "" | some v ↦ v ]

unfoldable pub parse_id : String → Assoc String → Result IdError ContainerId
parse_id name ls =
    let id : ContainerId = record {
      class = label "close" ls;
      type = label "close.type" ls;
      instance_name = label "close.instance" ls;
    } in
    if str_eq id.class ""
    then err missing_class
    else if str_eq id.type ""
    then err missing_type
    else if str_eq id.instance_name ""
    then err missing_instance
    else if not (str_eq (base_name name) (id_string id))
    then err (name_mismatch (base_name name) id)
    else ok id
