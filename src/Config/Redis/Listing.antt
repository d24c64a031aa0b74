-- ===== src/Config/Redis/Listing.antt =====
-- Keys that are registered are found again: the path of a registration gives back its identity.
use Prim.Native.Char.{Char, code}
use text.Mathlib.TextLemmas.{nil-append, cons-append}
use close.Prelude.{
  String, arith, false, false≢true, if◌then◌else◌, ok, refl, str_eq, subst, true, ℕ, ◌==◌, ◌||◌,
  ◌≡◌, ◌≢◌, ◌⧺◌,
}
use close.Config.Id.{ConfigId, is_instance, is_word, match_instance, parse_id, some_instance, valid}
use close.Docker.Id.Parsing.{NoSlash, base_from-NoSlash, base_from-slash}
use close.Config.Redis.{join_path, path_base, sub_path, trim_slashes}
use close.Config.Id.Validity.{cons-nonempty, valid_lem}
use close.Docker.Id.{base_name}

instance_lem : (n : ℕ) → is_instance n ≡ true → n ≢ b'/'
unfolding is_instance is_word
instance_lem n h e = false≢true (subst (λ m. is_instance m ≡ true) e h)

match_instance-NoSlash : (s : String) → match_instance s ≡ true → NoSlash s
unfolding match_instance
match_instance-NoSlash String.[] h = tt
match_instance-NoSlash (String.◌∷◌ c s) h =
    (instance_lem (code c) (ground arith), match_instance-NoSlash s (ground arith))

trim_slashes-NoSlash : (s : String) → NoSlash s → trim_slashes s ≡ s
unfolding trim_slashes
trim_slashes-NoSlash String.[] h = refl
trim_slashes-NoSlash (String.◌∷◌ c s) h =
    let e : (code c == b'/') ≡ false = ground arith in rw (e, trim_slashes-NoSlash s h.1) refl

-- a text that is not empty keeps what is before it
trim_slashes-keeps :
    (p : Char) (s : String)
    → trim_slashes s ≡ s
    → str_eq s "" ≡ false
    → trim_slashes (String.◌∷◌ p s) ≡ String.◌∷◌ p s
unfolding trim_slashes
trim_slashes-keeps p s e h = rw (e, h) (ground arith)

tail-nonempty : (path s : String) → str_eq (path ⧺ ("/" ⧺ s)) "" ≡ false
tail-nonempty String.[] s = rw (nil-append, cons-append) (cons-nonempty _ _)
tail-nonempty (String.◌∷◌ p path) s = rw (cons-append p path ("/" ⧺ s)) (cons-nonempty _ _)

trim_slashes-part :
    (path s : String)
    → NoSlash s
    → str_eq s "" ≡ false
    → trim_slashes (path ⧺ ("/" ⧺ s)) ≡ path ⧺ ("/" ⧺ s)
trim_slashes-part String.[] s h n =
    rw (nil-append, cons-append, nil-append) (trim_slashes-keeps _ s (trim_slashes-NoSlash s h) n)
trim_slashes-part (String.◌∷◌ p path) s h n =
    rw (cons-append p path ("/" ⧺ s))
      (trim_slashes-keeps p _ (trim_slashes-part path s h n) (tail-nonempty path s))

path_base-part :
    (path s : String) → NoSlash s → str_eq s "" ≡ false → path_base (path ⧺ ("/" ⧺ s)) ≡ s
unfolding path_base base_name
path_base-part path s h n =
    rw (tail-nonempty path s, trim_slashes-part path s h n, tail-nonempty path s)
      (base_from-slash (path ⧺ ("/" ⧺ s)) path s h)

path_base-NoSlash : (s : String) → NoSlash s → str_eq s "" ≡ false → path_base s ≡ s
unfolding path_base base_name
path_base-NoSlash s h n = rw (n, trim_slashes-NoSlash s h, n) (base_from-NoSlash s s h)

path_base-join_path :
    (path s : String) → NoSlash s → str_eq s "" ≡ false → path_base (join_path path s) ≡ s
unfolding join_path
path_base-join_path path s h n =
    let part = path_base-part path s h n in
    let root = subst (λ t. path_base t ≡ s) (nil-append ("/" ⧺ s)) (path_base-part "" s h n) in
    let alone = path_base-NoSlash s h n in
    rw n
      (elim (str_eq path "" || str_eq path ".")
        as (λ b.
          path_base (if b then s else if str_eq path "/" then "/" ⧺ s else path ⧺ ("/" ⧺ s)) ≡ s) [
            | true ↦ alone
            | false ↦
                elim (str_eq path "/")
                  as (λ b. path_base (if b then "/" ⧺ s else path ⧺ ("/" ⧺ s)) ≡ s) [
                    | true ↦ root
                    | false ↦ part
                  ]
          ])

some_instance-NoSlash : (s : String) → some_instance s ≡ true → NoSlash s
unfolding some_instance
some_instance-NoSlash String.[] h = tt
some_instance-NoSlash (String.◌∷◌ c s) h =
    (instance_lem (code c) (ground arith), match_instance-NoSlash s (ground arith))

some_instance-nonempty : (s : String) → some_instance s ≡ true → str_eq s "" ≡ false
unfolding some_instance
some_instance-nonempty String.[] h = cc
some_instance-nonempty (String.◌∷◌ c s) h = cons-nonempty c s

-- The identity of a valid configuration is read back, by a listing of its type, from the path under
-- which `register` adds it, whatever the prefix is.
pub parse_id-sub_path :
    (prefix : String) (id : ConfigId)
    → valid id ≡ true
    → parse_id id.type (path_base (sub_path prefix id)) ≡ ok id
unfolding parse_id sub_path
parse_id-sub_path prefix id h =
    let shape = valid_lem id in
    let i : some_instance id.instance_name ≡ true = ground arith in
    rw
      (
        path_base-join_path (join_path prefix id.type) id.instance_name
            (some_instance-NoSlash id.instance_name i) (some_instance-nonempty id.instance_name i),
        h,
      )
      refl
