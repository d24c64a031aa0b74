-- ===== src/Config/Id.antt =====
-- config/id.go: the identity of a registered configuration.
pub mod Validity
pub mod Examples
use Prim.Native.Char.{code}
use close.Prelude.{
  Bool, Result, String, [], err, false, if◌then◌else◌, leb, ok, true, ℕ, ◌&&◌, ◌==◌, ◌||◌, ◌∷◌, ◌⧺◌,
}

-- `config.ID`
pub record ConfigId : Type 0 where
  pub type : String
  pub instance_name : String  -- Instance

-- [a-zA-Z0-9_]
unfoldable pub is_word : ℕ → Bool
is_word c =
    (leb b'a' c && leb c b'z')
    || (leb b'A' c && leb c b'Z')
    || (leb b'0' c && leb c b'9')
    || c == b'_'

-- [a-zA-Z0-9_:-]
unfoldable pub is_instance : ℕ → Bool
unfolding is_word
is_instance c = is_word c || c == b':' || c == b'-'

-- the rest of `[a-zA-Z0-9_:-]+$`, behind its first character
unfoldable pub match_instance : String → Bool
unfolding is_instance
match_instance String.[] = true
match_instance (String.◌∷◌ c s) = is_instance (code c) && match_instance s

unfoldable pub some_instance : String → Bool
unfolding match_instance
some_instance String.[] = false
some_instance (String.◌∷◌ c s) = is_instance (code c) && match_instance s

-- the rest of `[a-zA-Z0-9_]+/[a-zA-Z0-9_:-]+$`, behind its first character: no class of the pattern
-- holds the slash, so there is no choice in a match
unfoldable pub match_type : String → Bool
unfolding some_instance is_word
match_type String.[] = false
match_type (String.◌∷◌ c s) =
    let rest = match_type s in if code c == b'/' then some_instance s else is_word (code c) && rest

-- `idRegexp.MatchString`
unfoldable pub match_id : String → Bool
unfolding match_type
match_id String.[] = false
match_id (String.◌∷◌ c s) = is_word (code c) && match_type s

unfoldable pub id_text : ConfigId → String
id_text id = id.type ⧺ ("/" ⧺ id.instance_name)

unfoldable pub valid : ConfigId → Bool
unfolding match_id id_text
valid id = match_id (id_text id)

pub data InvalidId : Type 0 where
  invalid_id : ConfigId → InvalidId

-- `ParseID`, with `Check`
unfoldable pub parse_id : String → String → Result InvalidId ConfigId
parse_id sub_type instance_name =
    let id : ConfigId = record { type = sub_type; instance_name = instance_name } in
    if valid id then ok id else err (invalid_id id)
