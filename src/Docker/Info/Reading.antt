-- ===== src/Docker/Info/Reading.antt =====
-- docker/info.go and docker/logs.go: what the manager asks the Docker client about the daemon and about
-- the output of a container. The client is a parameter.
use close.Prelude.{
  Exec, List, Option, Outcome, String, [], done, failed, map, none, panicked, refl, some, ◌⧺◌, ◌∷◌,
  ◌≡◌,
}
use close.Docker.Info.{InfoError, Scans, Swarm, SwarmInfo, NodeInfo, decode_swarm_status, line_of}
use close.Docker.Info.Nodes.{Gives, Orderly, decode_swarm_status_lem, node_lines}

-- the fields of `docker.DockerInfo` that are read; none for a nil SystemStatus
pub record DockerInfo : Type 0 where
  pub name : String
  pub server_version : String
  pub operating_system : String
  pub system_status : Option (List (String × String))

-- the streams that a container writes
pub data Stream : Type 0 where
  output error_output : Stream

-- The two calls of the client. Logs hands over what the container wrote, in the order of the client,
-- and then ends, with an error or without.
pub record Client : Type 1 where
  pub State : Type 0
  pub info : State → Option DockerInfo × State
  pub logs : String → State → List (Stream × String) × (Option (Unit {0}) × State)

pub data ReadError : Type 0 where
  info_refused logs_refused : ReadError

-- both streams are the same buffer
unfoldable pub buffer : List (Stream × String) → String
buffer [] = ""
buffer ((_, text) ∷ chunks) = text ⧺ buffer chunks

module _ (t : Scans) where
  pub record Info : Type 0 where
    pub info_name : String
    pub server_version : String
    pub operating_system : String
    pub swarm_info : Option (SwarmInfo t)
    pub info_nodes : List (NodeInfo t)

  -- of the zero value; an error of the text of the swarm is logged, and what was read before it stays
  unfoldable pub with_swarm : DockerInfo → Outcome InfoError (Unit {0}) → Swarm t → Option Info
  with_swarm x panicked s = none
  with_swarm x (done u) s = some (record {
    info_name = x.name;
    server_version = x.server_version;
    operating_system = x.operating_system;
    swarm_info = some s.swarm;
    info_nodes = s.nodes;
  })
  with_swarm x (failed e) s = some (record {
    info_name = x.name;
    server_version = x.server_version;
    operating_system = x.operating_system;
    swarm_info = some s.swarm;
    info_nodes = s.nodes;
  })

  -- `decode`; none for a panic
  unfoldable pub decode : DockerInfo → Option Info
  unfolding with_swarm
  decode x = elim x.system_status [
    | none ↦ some (record {
      info_name = x.name;
      server_version = x.server_version;
      operating_system = x.operating_system;
      swarm_info = none;
      info_nodes = [];
    })
    | some lines ↦ (let (o, s) = decode_swarm_status t lines in with_swarm x o s)
  ]

  -- The information of a daemon is read without an error whenever its text of a swarm has no attribute
  -- in front of the first node, also when the rest of the text cannot be read.
  decode_total :
      (x : DockerInfo) (lines : List (String × String))
      → x.system_status ≡ some lines
      → Orderly (map (line_of t.trim_space) lines)
      → (i : Info) × ((decode x ≡ some i) × (i.info_name ≡ x.name))
  unfolding decode with_swarm
  decode_total x lines e h =
      rw e (let (o, s) = decode_swarm_status t lines in go o s (decode_swarm_status_lem t lines h))
    where
      go :
          (o : Outcome InfoError (Unit {0})) (s : Swarm t)
          → Gives t (node_lines (map (line_of t.trim_space) lines)) (o, s)
          → (i : Info) × ((with_swarm x o s ≡ some i) × (i.info_name ≡ x.name))
      go (done u) s g = (_, (refl, refl))
      go (failed e) s g = (_, (refl, refl))
      go panicked s g = absurd g

  module _ (c : Client) where
    unfoldable pub decoded : Option Info → Outcome ReadError Info
    decoded none = panicked
    decoded (some info) = done info

    -- `Manager.Info`, whose result is read after the call of `decode`: Go leaves the order open
    unfoldable pub manager_info : Exec c.State ReadError Info
    unfolding decode decoded
    manager_info s =
        let (answer, s') = c.info s in
        elim answer as (λ _. Outcome ReadError Info × c.State) [
          | none ↦ (failed info_refused, s')
          | some x ↦ (decoded (decode x), s')
        ]

    -- `Manager.Logs`
    unfoldable pub manager_logs : String → Exec c.State ReadError String
    unfolding buffer
    manager_logs id s =
        let (chunks, rest) = c.logs id s in
        let (answer, s') = rest in
        elim answer as (λ _. Outcome ReadError String × c.State) [
          | none ↦ (failed logs_refused, s')
          | some u ↦ (done (buffer chunks), s')
        ]
