-- ===== src/Docker/Container.antt =====
-- docker/container.go: the status of a container. The state is the source's machine-readable text, as
-- a data type; `unknown_state` is the empty text. The regular expression that takes a status text of
-- the daemon apart (`FindStringSubmatch`) is a parameter: its seven groups, or no match.
use Prim.Native.Char.{code}
use close.Prelude.{
  Bool, List, Option, String, [], false, if◌then◌else◌, leb, none, not, some, str_eq, true, ℕ, ◌&&◌,
  ◌*◌, ◌+◌, ◌-◌, ◌==◌, ◌∷◌,
}
use close.Docker.Id.{ContainerId}
use close.Docker.Config.{Config, DockerContainer}

pub data State : Type 0 where
  paused restarting running created exited dead removal unknown_state : State

-- the groups 1 to 6 of a match, "" where a group took no part
pub record Groups : Type 0 where
  pub whole : String
  pub up : String
  pub paused_suffix : String
  pub exited_or_restarting : String
  pub exit_text : String
  pub ago : String

-- `fmt.Sscanf(text, "%d", &exit)` on the digits of a group: it stops at the first other character
scan_digits : ℕ → String → ℕ
scan_digits acc String.[] = acc
scan_digits acc (String.◌∷◌ c s) =
    let rest = scan_digits (acc * 10 + (code c - b'0')) s in
    if leb b'0' (code c) && leb (code c) b'9' then rest else acc

unfoldable pub state_of_groups : Groups → State
state_of_groups g =
    if str_eq g.whole "Created"
    then created
    else if str_eq g.whole "Dead"
    then dead
    else if str_eq g.whole "Removal In Progress"
    then removal
    else if str_eq g.exited_or_restarting "Restarting"
    then restarting
    else if str_eq g.exited_or_restarting "Exited"
    then exited
    else if not (str_eq g.paused_suffix "")
    then paused
    else if not (str_eq g.up "")
    then running
    else unknown_state

-- `parseStatus`: the state and the exit code
unfoldable pub parse_status : Option Groups → State × ℕ
unfolding scan_digits state_of_groups
parse_status none = (unknown_state, 0)
parse_status (some g) = (state_of_groups g, scan_digits 0 g.exit_text)

-- `stateStatus`
unfoldable pub state_status : DockerContainer → State
state_status c =
    if c.running && c.paused
    then paused
    else if c.running && c.restarting
    then restarting
    else if c.running
    then running
    else if not c.started
    then created
    else exited

pub record ContainerStatus : Type 0 where
  pub id : ContainerId
  pub container_id : String
  pub node : String
  pub name : String
  pub status : String
  pub state : State
  pub exit_code : ℕ

abbrev pub empty_status : ContainerStatus
empty_status = record {
  id = record { class = ""; type = ""; instance_name = "" };
  container_id = "";
  node = "";
  name = "";
  status = "";
  state = unknown_state;
  exit_code = 0;
}

-- `strings.Split(path, "/")`, the part in front first
unfoldable pub split_path : String → String × List String
split_path String.[] = ("", [])
split_path (String.◌∷◌ c s) =
    let (part, rest) = split_path s in
    if code c == b'/' then ("", part ∷ rest) else (String.◌∷◌ c part, rest)

-- the parts behind the first one
name_of : List String → Option (Option String × String)
name_of [] = none
name_of (name ∷ []) = some (none, name)
name_of (node ∷ name ∷ []) = some (some node, name)
name_of (a ∷ b ∷ c ∷ rest) = none

-- `fromDockerName`: /name on docker, /node/name on a swarm; the result is the node, if there is one,
-- and the name
unfoldable pub from_docker_name : String → Option (Option String × String)
unfolding split_path name_of
from_docker_name path = name_of (split_path path).1

unfoldable pub is_up_state : State → Bool
is_up_state paused = true
is_up_state restarting = true
is_up_state running = true
is_up_state created = false
is_up_state exited = false
is_up_state dead = false
is_up_state removal = false
is_up_state unknown_state = false

-- `IsUp`
unfoldable pub is_up : ContainerStatus → Bool
unfolding is_up_state
is_up s = is_up_state s.state

-- `IsError`
unfoldable pub is_error : ContainerStatus → Bool
is_error s = not (s.exit_code == 0)

pub record Container : Type 0 where
  pub status : ContainerStatus
  pub config : Config
  pub running : Bool  -- ContainerState.Running
