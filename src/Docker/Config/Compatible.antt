-- ===== src/Docker/Config/Compatible.antt =====
-- What `Equals` requires of a running configuration.
use close.Prelude.{
  Bool, Bool-cases, List, String, [], ap, arith, eq_iff, false, false≢true, if◌then◌else◌, inl, inr,
  length, not, refl, str_eq, sym, true, ◌&&◌, ◌==◌, ◌↔◌, ◌∙◌, ◌∷◌, ◌≡◌, ◌≢◌,
}
use close.Util.StringSet.{equals, subset}
use close.Docker.Config.{
  Config, Mount, bool_eq, command_equals, config_equals, mount_eq, same_args, same_mounts,
}
use close.Util.StringSet.Equality.{equals_iff}
use close.Util.StringSet.Covering.{IsCovered, subset_iff}
use close.Util.StringSet.Sorting.{IsSorted}
use close.Util.StringSet.Subset.{subset_refl}

-- The running configuration has the wanted image, privilege, mounts and constraints; the wanted
-- command, with exactly its arguments, if one is given; the wanted network mode, if one is given; and
-- an environment that covers the wanted one: it holds its texts, but for those that are not below any
-- text of it.
pub record IsCompatible (self other : Config) : Type 0 where
  pub image : other.image ≡ self.image
  pub command : self.command ≢ "" → (other.command ≡ self.command) × (other.args ≡ self.args)
  pub env : IsCovered self.env other.env
  pub privileged : other.privileged ≡ self.privileged
  pub mounts : self.mounts ≡ other.mounts
  pub network_mode : self.network_mode ≢ "" → other.network_mode ≡ self.network_mode
  pub constraints : self.constraints ≡ other.constraints

bool_eq_iff : (a b : Bool) → (bool_eq a b ≡ true) ↔ (a ≡ b)
unfolding bool_eq
bool_eq_iff a b = ground arith

mount_eq_iff : (a b : Mount) → (mount_eq a b ≡ true) ↔ (a ≡ b)
unfolding mount_eq
mount_eq_iff a b = ground (
  arith,
  eq_iff a.name b.name,
  eq_iff a.source b.source,
  eq_iff a.destination b.destination,
  eq_iff a.driver b.driver,
  eq_iff a.mode b.mode,
)

same_args_iff :
    (as' bs : List String) → length as' ≡ length bs → (same_args as' bs ≡ true) ↔ (as' ≡ bs)
unfolding same_args
same_args_iff [] [] h = (λ _. refl, λ _. refl)
same_args_iff [] (b ∷ bs) h = absurd (omega arith)
same_args_iff (a ∷ as') [] h = absurd (omega arith)
same_args_iff (a ∷ as') (b ∷ bs) h = ground (arith, eq_iff a b, same_args_iff as' bs)

same_mounts_iff :
    (as' bs : List Mount) → length as' ≡ length bs → (same_mounts as' bs ≡ true) ↔ (as' ≡ bs)
unfolding same_mounts
same_mounts_iff [] [] h = (λ _. refl, λ _. refl)
same_mounts_iff [] (b ∷ bs) h = absurd (omega arith)
same_mounts_iff (a ∷ as') [] h = absurd (omega arith)
same_mounts_iff (a ∷ as') (b ∷ bs) h = ground (arith, mount_eq_iff a b, same_mounts_iff as' bs)

lists_iff {ℓ} :
    {A : Type ℓ} (same : List A → List A → Bool)
    → ((xs ys : List A) → length xs ≡ length ys → (same xs ys ≡ true) ↔ (xs ≡ ys))
    → (xs ys : List A)
    → ((if not (length xs == length ys) then false else same xs ys) ≡ true) ↔ (xs ≡ ys)
lists_iff same iff xs ys = elim (Bool-cases (length xs == length ys)) [
  | inl e ↦ rw e (iff xs ys (ground arith))
  | inr e ↦ rw e (λ h. cc, λ h. absurd (ground (arith, ap length h)))
]

-- a test that is made only of a text that is given
given_iff {ℓ} :
    {P : Type ℓ} (a : String) (b : Bool)
    → (b ≡ true) ↔ P
    → ((if str_eq a "" then true else b) ≡ true) ↔ (a ≢ "" → P)
given_iff a b h = elim (Bool-cases (str_eq a "")) [
  | inl e ↦ rw e (λ _ g. absurd (g ((eq_iff a "").0 e)), λ _. refl)
  | inr e ↦ rw e (λ t _. h.0 t, λ g. h.1 (g (λ q. false≢true (sym e ∙ (eq_iff a "").1 q))))
]

command_equals_iff :
    (self other : Config)
    → (command_equals self other ≡ true)
      ↔ (self.command ≢ "" → (other.command ≡ self.command) × (other.args ≡ self.args))
unfolding command_equals
command_equals_iff self other = given_iff self.command _ (elim (Bool-cases same) [
  | inl f ↦
      rw f (λ h. ((eq_iff other.command self.command).0 f, sym (args.0 h)), λ h. args.1 (sym h.1))
  | inr f ↦
      rw f (λ h. cc, λ h. absurd (false≢true (sym f ∙ (eq_iff other.command self.command).1 h.0)))
])
  where
    same : Bool
    same = str_eq other.command self.command

    args :
        ((if not (length self.args == length other.args)
            then false
            else same_args self.args other.args)
          ≡ true)
        ↔ (self.args ≡ other.args)
    args = lists_iff same_args same_args_iff self.args other.args

network_iff :
    (self other : Config)
    → (not (str_eq self.network_mode "") && not (str_eq other.network_mode self.network_mode)
        ≡ false)
      ↔ (self.network_mode ≢ "" → other.network_mode ≡ self.network_mode)
network_iff self other =
    let (to, from) =
      given_iff self.network_mode (str_eq other.network_mode self.network_mode)
        (eq_iff other.network_mode self.network_mode) in
    (λ h. to (ground arith), λ g. let r = from g in ground arith)

-- the tests of `Equals`, one by one
config_equals-tests :
    (self other : Config)
    → (config_equals self other ≡ true) ↔ (
        (str_eq other.image self.image ≡ true)
        × (command_equals self other ≡ true)
        × (subset self.env other.env ≡ true)
        × (bool_eq self.privileged other.privileged ≡ true)
        × ((if not (length self.mounts == length other.mounts)
              then false
              else same_mounts self.mounts other.mounts)
            ≡ true)
        × (not (str_eq self.network_mode "") && not (str_eq other.network_mode self.network_mode)
            ≡ false)
        × (equals self.constraints other.constraints ≡ true))
unfolding config_equals
config_equals-tests self other = ground arith

mounts_iff :
    (self other : Config)
    → ((if not (length self.mounts == length other.mounts)
          then false
          else same_mounts self.mounts other.mounts)
        ≡ true)
      ↔ (self.mounts ≡ other.mounts)
mounts_iff self other = lists_iff same_mounts same_mounts_iff self.mounts other.mounts

-- Between configurations whose environments are sorted, as those of `MakeStringSet` and `Add` are,
-- `Equals` is true just of the compatible ones: those with the wanted image, privilege, mounts and
-- constraints, with the wanted command and its arguments and the wanted network mode, if they are
-- given, and with an environment that covers the wanted one.
pub config_equals_iff :
    (self other : Config)
    → IsSorted self.env
    → IsSorted other.env
    → (config_equals self other ≡ true) ↔ IsCompatible self other
config_equals_iff self other s t = (
  λ h.
      let (i, c, e, p, m, n, k) = (config_equals-tests self other).0 h in
      record {
        image = (eq_iff other.image self.image).0 i;
        command = (command_equals_iff self other).0 c;
        env = (subset_iff self.env other.env s t).0 e;
        privileged = sym ((bool_eq_iff self.privileged other.privileged).0 p);
        mounts = (mounts_iff self other).0 m;
        network_mode = (network_iff self other).0 n;
        constraints = (equals_iff self.constraints other.constraints).0 k;
      },
  λ c. (config_equals-tests self other).1 (
    (eq_iff other.image self.image).1 c.image,
    (command_equals_iff self other).1 c.command,
    (subset_iff self.env other.env s t).1 c.env,
    (bool_eq_iff self.privileged other.privileged).1 (sym c.privileged),
    (mounts_iff self other).1 c.mounts,
    (network_iff self other).1 c.network_mode,
    (equals_iff self.constraints other.constraints).1 c.constraints,
  ),
)

-- Every configuration equals itself.
pub config_equals_refl : (c : Config) → config_equals c c ≡ true
config_equals_refl c = (config_equals-tests c c).1 (
  (eq_iff c.image c.image).1 refl,
  (command_equals_iff c c).1 (λ _. (refl, refl)),
  subset_refl c.env,
  (bool_eq_iff c.privileged c.privileged).1 refl,
  (mounts_iff c c).1 refl,
  (network_iff c c).1 (λ _. refl),
  (equals_iff c.constraints c.constraints).1 refl,
)
