-- ===== src/Docker/Daemon.antt =====
-- The Docker client that the manager calls, which is not part of the repository: a state of the daemon
-- and one function for each call. An answer may come with any change of
-- the state. The two functions of text that the standard library provides are here as well.
use close.Prelude.{Assoc, Bool, List, Option, Result, String, ℕ}
use close.Docker.Config.{CreateOptions, DockerContainer}
use close.Docker.Container.{Groups}

pub data ClientError : Type 0 where
  no_such_container container_not_running : ClientError
  other_error : String → ClientError

-- `docker.APIContainers`
pub record ApiContainer : Type 0 where
  pub container_id : String
  pub names : List String
  pub labels : Assoc String
  pub status : String

pub record Daemon : Type 1 where
  pub State : Type 0
  pub inspect : String → State → Result {0, 0} ClientError DockerContainer × State
  -- with the label filters, and whether containers that do not run are listed
  pub list : Bool → List String → State → Result {0, 0} ClientError (List ApiContainer) × State
  -- the new container's identifier
  pub create : CreateOptions → State → Result {0, 0} ClientError String × State
  pub start : String → State → Result {0, 0} ClientError (Unit {0}) × State
  -- with the timeout in seconds
  pub stop : String → ℕ → State → Result {0, 0} ClientError (Unit {0}) × State
  -- with force
  pub remove : String → State → Result {0, 0} ClientError (Unit {0}) × State
  -- with the signal
  pub kill : String → ℕ → State → Result {0, 0} ClientError (Unit {0}) × State
  -- the regular expression on status texts, and the decoding of a JSON list of texts
  pub match_status : String → Option Groups
  pub unmarshal : String → Option (List String)
