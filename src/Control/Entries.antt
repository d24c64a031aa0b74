-- ===== src/Control/Entries.antt =====
-- The maps of clients and of workers under the loops of control/clients.go and control/worker.go, for
-- the entries of either: marking, and deleting what is not up.
use close.Prelude.{
  Assoc, Bool, Option, String, [], ap, arith, delete, eq_iff, eq_refl, false, if◌then◌else◌, insert,
  lookup, lookup-delete, lookup-insert, none, refl, some, str_eq, sym, true, ◌∙◌, ◌∷◌, ◌≡◌,
}

module _ {A : Type 0} where
  -- one entry for each key
  unfoldable pub IsMap : Assoc A → Type 0
  IsMap [] = Unit {0}
  IsMap ((k, a) ∷ m) = (lookup k m ≡ none) × IsMap m

  abbrev lookup-head :
      (i k : String) (a : A) (m : Assoc A)
      → lookup k ((i, a) ∷ m) ≡ (if str_eq i k then some a else lookup k m)
  unfolding lookup
  lookup-head i k a m = refl

  pub insert-IsMap : (k : String) (a : A) (m : Assoc A) → IsMap m → IsMap (insert k a m)
  unfolding IsMap insert lookup
  insert-IsMap k a [] h = (refl, tt)
  insert-IsMap k a ((i, x) ∷ m) (h, g) =
      let r = insert-IsMap k a m g in
      elim (str_eq i k)
          as (λ t. str_eq i k ≡ t → IsMap (if t then (k, a) ∷ m else (i, x) ∷ insert k a m)) [
            | true ↦ (λ e. (ap (λ j. lookup j m) (sym ((eq_iff i k).0 e)) ∙ h, g))
            | false ↦ (λ e. (lookup-insert k i a m ∙ ground (arith, eq_iff k i, eq_iff i k), r))
          ]
        refl

  pub delete-IsMap : (k : String) (m : Assoc A) → IsMap m → IsMap (delete k m)
  unfolding IsMap delete
  delete-IsMap k [] h = h
  delete-IsMap k ((i, x) ∷ m) (h, g) =
      elim (str_eq i k) as (λ t. IsMap (if t then delete k m else (i, x) ∷ delete k m)) [
        | true ↦ delete-IsMap k m g
        | false ↦ (lookup-delete k i m ∙ ground (arith, h), delete-IsMap k m g)
      ]

  pub lookup-empty : (m : Assoc A) → ((k : String) → lookup k m ≡ none) → m ≡ []
  unfolding lookup
  lookup-empty [] h = refl
  lookup-empty ((i, a) ∷ m) h =
      let e : some a ≡ none = sym (ap (λ b. if b then some a else lookup i m) (eq_refl i)) ∙ h i in
      absurd (cc)

  module _ (test : A → Bool) where
    -- what is left of the map `entries` after its keys with a failing entry among `range` are deleted
    unfoldable pub without : Assoc A → Assoc A → Assoc A
    without [] entries = entries
    without ((k, a) ∷ range) entries = without range (if test a then entries else delete k entries)

    unfoldable pub passing : Option A → Option A
    passing none = none
    passing (some a) = if test a then some a else none

    kept-lookup :
        (i k : String) (a : A) (entries : Assoc A)
        → str_eq i k ≡ false
        → lookup k (if test a then entries else delete i entries) ≡ lookup k entries
    kept-lookup i k a entries e =
        elim (test a)
          as (λ t. lookup k (if t then entries else delete i entries) ≡ lookup k entries) [
            | true ↦ refl
            | false ↦ lookup-delete i k entries ∙ rw e
          ]

    without-absent :
        (range : Assoc A) (entries : Assoc A) (k : String)
        → lookup k range ≡ none
        → lookup k (without range entries) ≡ lookup k entries
    unfolding without lookup
    without-absent [] entries k h = refl
    without-absent ((i, a) ∷ range) entries k h =
        let e : (str_eq i k ≡ false) × (lookup k range ≡ none) = ground arith in
        without-absent range (if test a then entries else delete i entries) k e.1
        ∙ kept-lookup i k a entries e.0

    pub without-lookup :
        (range : Assoc A) (entries : Assoc A) (k : String)
        → IsMap range
        → lookup k range ≡ lookup k entries
        → lookup k (without range entries) ≡ passing (lookup k entries)
    unfolding without lookup passing IsMap
    without-lookup [] entries k h e = sym e ∙ ap passing e
    without-lookup ((i, a) ∷ range) entries k (h, g) e =
        elim (str_eq i k)
            as (λ t.
              str_eq i k ≡ t
              → (if t then some a else lookup k range) ≡ lookup k entries
              → lookup k (without range (if test a then entries else delete i entries))
                ≡ passing (lookup k entries)) [
                  | true ↦ (λ y f.
                      without-absent range (if test a then entries else delete i entries) k
                        (ap (λ j. lookup j range) (sym ((eq_iff i k).0 y)) ∙ h)
                      ∙ head y f)
                  | false ↦ (λ y f.
                      without-lookup range (if test a then entries else delete i entries) k g
                        (f ∙ sym (kept-lookup i k a entries y))
                      ∙ ap passing (kept-lookup i k a entries y))
                ]
          refl e
      where
        head :
            str_eq i k ≡ true
            → some a ≡ lookup k entries
            → lookup k (if test a then entries else delete i entries) ≡ passing (lookup k entries)
        head y f =
            elim (test a)
                as (λ t.
                  test a ≡ t
                  → lookup k (if t then entries else delete i entries)
                    ≡ passing (lookup k entries)) [
                      | true ↦ (λ z. rw (sym f, z))
                      | false ↦ (λ z. lookup-delete i k entries ∙ rw (y, sym f, z))
                    ]
              refl

  module _ (change : A → A) where
    -- the map `entries` with each entry of `range` put back changed
    unfoldable pub overwrite : Assoc A → Assoc A → Assoc A
    overwrite [] entries = entries
    overwrite ((k, a) ∷ range) entries = overwrite range (insert k (change a) entries)

    unfoldable pub changed : Option A → Option A
    changed none = none
    changed (some a) = some (change a)

    pub overwrite-IsMap :
        (range entries : Assoc A) → IsMap entries → IsMap (overwrite range entries)
    unfolding overwrite
    overwrite-IsMap [] entries h = h
    overwrite-IsMap ((k, a) ∷ range) entries h =
        overwrite-IsMap range (insert k (change a) entries) (insert-IsMap k (change a) entries h)

    overwrite-absent :
        (range : Assoc A) (entries : Assoc A) (k : String)
        → lookup k range ≡ none
        → lookup k (overwrite range entries) ≡ lookup k entries
    unfolding overwrite lookup
    overwrite-absent [] entries k h = refl
    overwrite-absent ((i, a) ∷ range) entries k h =
        let e : (str_eq i k ≡ false) × (lookup k range ≡ none) = ground arith in
        overwrite-absent range (insert i (change a) entries) k e.1
        ∙ lookup-insert i k (change a) entries
        ∙ rw e.0

    pub overwrite-lookup :
        (range : Assoc A) (entries : Assoc A) (k : String)
        → IsMap range
        → lookup k range ≡ lookup k entries
        → lookup k (overwrite range entries) ≡ changed (lookup k entries)
    unfolding overwrite lookup changed IsMap
    overwrite-lookup [] entries k h e = sym e ∙ ap changed e
    overwrite-lookup ((i, a) ∷ range) entries k (h, g) e =
        elim (str_eq i k)
            as (λ t.
              str_eq i k ≡ t
              → (if t then some a else lookup k range) ≡ lookup k entries
              → lookup k (overwrite range (insert i (change a) entries))
                ≡ changed (lookup k entries)) [
                  | true ↦ (λ y f.
                      overwrite-absent range (insert i (change a) entries) k
                        (ap (λ j. lookup j range) (sym ((eq_iff i k).0 y)) ∙ h)
                      ∙ lookup-insert i k (change a) entries
                      ∙ rw (y, sym f))
                  | false ↦ (λ y f.
                      overwrite-lookup range (insert i (change a) entries) k g
                        (f ∙ sym (lookup-insert i k (change a) entries ∙ rw y))
                      ∙ ap changed (lookup-insert i k (change a) entries ∙ rw y))
                ]
          refl e
