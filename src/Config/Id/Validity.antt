-- ===== src/Config/Id/Validity.antt =====
-- Which identities are valid.
use Prim.Native.Char.{Char, code}
use text.Mathlib.TextLemmas.{nil-append, cons-append}
use close.Prelude.{
  Bool, Bool-cases, String, arith, eq_iff, false, inl, inr, not, refl, str_eq, true, ℕ, ◌&&◌, ◌≡◌,
  ◌⧺◌,
}
use close.Config.Id.{ConfigId, is_word, match_id, match_instance, match_type, some_instance, valid}

-- Every character of the text is of the class.
abbrev pub all_chars : (ℕ → Bool) → String → Bool
all_chars p String.[] = true
all_chars p (String.◌∷◌ c s) = p (code c) && all_chars p s

match_instance-slash : (s t : String) → match_instance (s ⧺ ("/" ⧺ t)) ≡ false
unfolding match_instance
match_instance-slash String.[] t = rw (nil-append, cons-append) refl
match_instance-slash (String.◌∷◌ c s) t =
    rw (cons-append c s ("/" ⧺ t), match_instance-slash s t) (ground arith)

some_instance-slash : (s t : String) → some_instance (s ⧺ ("/" ⧺ t)) ≡ false
unfolding some_instance
some_instance-slash String.[] t = rw (nil-append, cons-append) refl
some_instance-slash (String.◌∷◌ c s) t =
    rw (cons-append c s ("/" ⧺ t), match_instance-slash s t) (ground arith)

match_type-slash :
    (s t : String) → match_type (s ⧺ ("/" ⧺ t)) ≡ (all_chars is_word s && some_instance t)
unfolding match_type
match_type-slash String.[] t = rw (nil-append, cons-append, nil-append) refl
match_type-slash (String.◌∷◌ c s) t =
    rw (cons-append c s ("/" ⧺ t), some_instance-slash s t, match_type-slash s t)
      (unfold is_word in ground arith)

pub cons-nonempty : (c : Char) (s : String) → str_eq (String.◌∷◌ c s) "" ≡ false
cons-nonempty c s = elim (Bool-cases (str_eq (String.◌∷◌ c s) "")) [
  | inl e ↦ (let p = (eq_iff (String.◌∷◌ c s) "").0 e in cc)
  | inr e ↦ e
]

and_shape : (a b c e : Bool) → e ≡ false → (a && (b && c)) ≡ (not e && (a && b) && c)
and_shape a b c e h = ground arith

match_id-slash :
    (s t : String)
    → match_id (s ⧺ ("/" ⧺ t)) ≡ (not (str_eq s "") && all_chars is_word s && some_instance t)
unfolding match_id
match_id-slash String.[] t = rw (nil-append, cons-append) refl
match_id-slash (String.◌∷◌ c s) t =
    rw (cons-append c s ("/" ⧺ t), match_type-slash s t)
      (and_shape (is_word (code c)) (all_chars is_word s) (some_instance t) _ (cons-nonempty c s))

-- An identity is valid just when its type is a word of one or more letters, digits and underscores,
-- and its instance is one or more of these, colons and dashes: no part can end the other.
pub valid_lem :
    (id : ConfigId)
    → valid id
      ≡ (not (str_eq id.type "") && all_chars is_word id.type && some_instance id.instance_name)
unfolding valid
valid_lem id = match_id-slash id.type id.instance_name
