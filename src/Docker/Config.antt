-- ===== src/Docker/Config.antt =====
-- docker/config.go: the configuration of a container. Types of the Docker client that the program
-- reads or fills have the fields that it uses; decoding of JSON is a parameter.
pub mod Compatible
pub mod Creation
pub mod Examples
use close.Prelude.{
  Assoc, Bool, List, Option, String, [], false, if◌then◌else◌, length, lookup, map, none, not, some,
  str_eq, true, ℕ, ◌&&◌, ◌++◌, ◌-◌, ◌==◌, ◌∷◌, ◌⧺◌,
}
use close.Util.StringSet.{StringSet, add, equals, make_string_set, subset}
use close.Docker.Id.{ContainerId, id_string, label, labels as id_labels}

-- `docker.Mount`, whose fields are all compared by `Equals`
pub record Mount : Type 0 where
  pub name : String
  pub source : String
  pub destination : String
  pub driver : String
  pub mode : String
  pub rw : Bool

pub record Config : Type 0 where
  pub image : String
  pub command : String
  pub args : List String
  pub env : StringSet
  pub privileged : Bool
  pub mounts : List Mount
  pub network_mode : String
  pub constraints : StringSet

-- the zero value
abbrev pub empty_config : Config
empty_config = record {
  image = "";
  command = "";
  args = [];
  env = [];
  privileged = false;
  mounts = [];
  network_mode = "";
  constraints = [];
}

unfoldable pub argv : Config → List String
argv c = if str_eq c.command "" then [] else c.command ∷ c.args

-- `AddFlag`, with the value as `%v` prints it
unfoldable pub add_flag : String → String → Config → Config
add_flag name value c = record c { args = c.args ++ ("-" ⧺ (name ⧺ ("=" ⧺ value))) ∷ [] }

unfoldable pub add_arg : List String → Config → Config
add_arg args c = record c { args = c.args ++ args }

unfoldable pub add_mount : String → String → Bool → Config → Config
add_mount name bind readonly c =
    let mode : String = if readonly then "ro" else "" in
    record c {
      mounts =
          c.mounts
          ++ (record {
            name = "";
            source = bind;
            destination = name;
            driver = "";
            mode = mode;
            rw = false;
          })
            ∷ [];
    }

unfoldable pub set_network_container : ContainerId → Config → Config
set_network_container id c = record c { network_mode = "container:" ⧺ id_string id }

-- `docker.Container` as the daemon's inspection gives it
pub record DockerContainer : Type 0 where
  pub container_id : String  -- ID
  pub name : String
  pub node : Option String  -- Node.Name
  pub image : String
  pub cmd : List String
  pub env : List String
  pub labels : Assoc String
  pub privileged : Bool
  pub mounts : List Mount
  pub network_mode : String
  pub running : Bool  -- State.Running
  pub paused : Bool
  pub restarting : Bool
  pub started : Bool  -- not State.StartedAt.IsZero()
  pub exit_code : ℕ  -- int
  pub state_text : String  -- State.String()

-- the label's JSON list, or none
unfoldable pub read_constraints : (String → Option (List String)) → Option String → List String
read_constraints unmarshal none = []
read_constraints unmarshal (some label) = elim (unmarshal label) [
  | none ↦ []
  | some constraints ↦ constraints
]

-- `configFromDocker`: `Cmd[0]` and `Cmd[1:]` panic on a container without a command
unfoldable pub config_from_docker :
    (String → Option (List String)) → DockerContainer → Option Config
unfolding read_constraints
config_from_docker unmarshal c =
    let constraints = read_constraints unmarshal (lookup "com.docker.swarm.constraints" c.labels) in
    elim c.cmd [
      | [] ↦ none
      | command ∷ args ↦ some (record {
        image = c.image;
        command = command;
        args = args;
        env = make_string_set c.env;
        privileged = c.privileged;
        mounts = c.mounts;
        network_mode = c.network_mode;
        constraints = make_string_set constraints;
      })
    ]

unfoldable pub bool_eq : Bool → Bool → Bool
bool_eq true b = b
bool_eq false b = not b

-- `!=` of two mounts, on all fields
unfoldable pub mount_eq : Mount → Mount → Bool
unfolding bool_eq
mount_eq a b =
    str_eq a.name b.name
    && str_eq a.source b.source
    && str_eq a.driver b.driver
    && str_eq a.destination b.destination
    && str_eq a.mode b.mode
    && bool_eq a.rw b.rw

-- the loops over the arguments and the mounts, on lists of one length
unfoldable pub same_args : List String → List String → Bool
same_args [] bs = true
same_args (a ∷ as') [] = true
same_args (a ∷ as') (b ∷ bs) =
    let rest = same_args as' bs in if not (str_eq a b) then false else rest

unfoldable pub same_mounts : List Mount → List Mount → Bool
same_mounts [] bs = true
same_mounts (a ∷ as') [] = true
same_mounts (a ∷ as') (b ∷ bs) =
    let rest = same_mounts as' bs in if not (mount_eq a b) then false else rest

-- the block of `Equals` under `self.Command != ""`
unfoldable pub command_equals : Config → Config → Bool
command_equals self other =
    if str_eq self.command ""
    then true
    else if not (str_eq other.command self.command)
    then false
    else if not (length self.args == length other.args)
    then false
    else same_args self.args other.args

-- `Equals`: compare config against running config for compatibility
unfoldable pub config_equals : Config → Config → Bool
config_equals self other =
    if not (str_eq other.image self.image)
    then false
    else if not (command_equals self other)
    then false
    else if not (subset self.env other.env)
    then false
    else if not (bool_eq self.privileged other.privileged)
    then false
    else if not (length self.mounts == length other.mounts)
    then false
    else if not (same_mounts self.mounts other.mounts)
    then false
    else if not (str_eq self.network_mode "") && not (str_eq other.network_mode self.network_mode)
    then false
    else if not (equals self.constraints other.constraints)
    then false
    else true

-- `docker.CreateContainerOptions`, the fields that the program sets
pub record CreateOptions : Type 0 where
  pub name : String
  pub hostname : String
  pub env : List String
  pub cmd : List String
  pub image : String
  pub labels : Assoc String
  pub volumes : List String  -- the keys of the map
  pub privileged : Bool
  pub network_mode : String
  pub binds : List String

-- the loop over the constraints in `createOptions`
unfoldable pub constraint_env : StringSet → StringSet → StringSet
constraint_env env [] = env
constraint_env env (c ∷ cs) = constraint_env (add ("constraint:" ⧺ c) env) cs

-- the binds of the mounts that have a source
unfoldable pub mount_binds : List Mount → List String
mount_binds [] = []
mount_binds (m ∷ ms) =
    let rest = mount_binds ms in
    if str_eq m.source ""
    then rest
    else (m.source ⧺ (":" ⧺ (m.destination ⧺ (":" ⧺ m.mode)))) ∷ rest

unfoldable pub create_options : Config → ContainerId → CreateOptions
unfolding constraint_env mount_binds
create_options c id = record {
  name = id_string id;
  hostname = if str_eq c.network_mode "" then id_string id else "";
  env = constraint_env c.env c.constraints;
  cmd = argv c;
  image = c.image;
  labels = id_labels id;
  volumes = map (λ (m : Mount). m.destination) c.mounts;
  privileged = c.privileged;
  network_mode = c.network_mode;
  binds = mount_binds c.mounts;
}
