-- ===== src/Prelude/Maps.antt =====
-- Go's maps with text keys, as association lists with one entry for each key.
use Prim.Native.String.{String}
use mathlib.Core.Path.{◌≡◌, refl}
use mathlib.Core.Option.{Option, none, some}
use mathlib.Core.List.{List, [], ◌∷◌}
use native.Mathlib.Omega.{arith}
use text.Mathlib.Text.{◌==◌ as str_eq}
use text.Mathlib.TextEquality.{eq_iff}
use close.Prelude.Tests.{if◌then◌else◌}

abbrev pub Assoc {ℓ} : Type ℓ → Type ℓ
Assoc V = List (String × V)

module _ {ℓ} {V : Type ℓ} where
  -- `v, exists := m[k]`
  unfoldable pub lookup : String → Assoc V → Option V
  lookup key [] = none
  lookup key ((name, entry) ∷ rest) = if str_eq name key then some entry else lookup key rest

  -- `m[k] = v`
  unfoldable pub insert : String → V → Assoc V → Assoc V
  insert key value [] = (key, value) ∷ []
  insert key value ((name, entry) ∷ rest) =
      if str_eq name key then (key, value) ∷ rest else (name, entry) ∷ insert key value rest

  -- `delete(m, k)`
  unfoldable pub delete : String → Assoc V → Assoc V
  delete key [] = []
  delete key ((name, entry) ∷ rest) =
      let left = delete key rest in if str_eq name key then left else (name, entry) ∷ left

  pub lookup-insert :
      (key asked : String) (value : V) (entries : Assoc V)
      → lookup asked (insert key value entries)
        ≡ (if str_eq key asked then some value else lookup asked entries)
  unfolding lookup insert
  lookup-insert key asked value [] = refl
  lookup-insert key asked value ((name, entry) ∷ rest) =
      let ih = lookup-insert key asked value rest in
      ground (arith, eq_iff name asked, eq_iff name key, eq_iff key asked)

  pub lookup-delete :
      (key asked : String) (entries : Assoc V)
      → lookup asked (delete key entries)
        ≡ (if str_eq key asked then none else lookup asked entries)
  unfolding lookup delete
  lookup-delete key asked [] = ground arith
  lookup-delete key asked ((name, entry) ∷ rest) =
      let ih = lookup-delete key asked rest in
      ground (arith, eq_iff name asked, eq_iff name key, eq_iff key asked)
