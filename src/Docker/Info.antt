-- ===== src/Docker/Info.antt =====
-- docker/info.go: the text that a swarm gives of its nodes. Scanning of numbers, of labels and of times
-- is a parameter.
pub mod Nodes
pub mod Reading
pub mod Examples
use Prim.Native.Char.{code}
use close.Prelude.{
  Assoc, Exec, List, Option, Outcome, String, [], done, failed, if◌then◌else◌, insert, none,
  panicked, pure, some, str_eq, ℕ, ◌++◌, ◌==◌, ◌>>◌, ◌∷◌,
}

-- The functions of the standard library on texts. A format that matches in part sets the numbers in
-- front, so the answers stand apart; none leaves the field as it is.
pub record Scans : Type 1 where
  pub Int : Type 0
  pub zero_int : Int
  pub Float : Type 0
  pub zero_float : Float
  pub trim_space : String → String
  pub scan_int : String → Option Int
  pub scan_cpus : String → Option Int × Option Int
  pub scan_memory : String → (Option Float × Option String) × (Option Float × Option String)
  pub find_labels : String → List (String × String)  -- the submatches
  pub parse_time : String → Option ℕ

-- `strings.HasPrefix` and `strings.TrimPrefix`: what follows the prefix
unfoldable pub strip_prefix : String → String → Option String
strip_prefix String.[] s = some s
strip_prefix (String.◌∷◌ p prefix) String.[] = none
strip_prefix (String.◌∷◌ p prefix) (String.◌∷◌ c s) =
    let rest = strip_prefix prefix s in if code p == code c then rest else none

-- `node.Labels[match[1]] = match[2]`
unfoldable pub labels_of : List (String × String) → Assoc String → Assoc String
labels_of [] m = m
labels_of ((k, v) ∷ found) m = labels_of found (insert k v m)

unfoldable pub or_old : {A : Type 0} → Option A → A → A
or_old none old = old
or_old (some new) old = new

-- the kinds of lines
pub data Line : Type 0 where
  top_line attr_line node_line : String → String → Line

unfoldable pub line_of : (String → String) → String × String → Line
unfolding strip_prefix
line_of trim (name, value) = elim (strip_prefix " " name) [
  | none ↦ top_line name value
  | some _ ↦ elim (strip_prefix "  └ " name) [
    | some attr ↦ attr_line attr value
    | none ↦ node_line (trim name) value
  ]
]

-- the error of a number of nodes that is no number
pub data InfoError : Type 0 where
  invalid_count : String → InfoError

module _ (t : Scans) where
  pub record SwarmInfo : Type 0 where
    pub role : String
    pub strategy : String
    pub node_count : t.Int

  pub record MemoryInfo : Type 0 where
    pub size : t.Float
    pub memory_unit : String  -- Unit

  pub record NodeInfo : Type 0 where
    pub name : String
    pub addr : String
    pub swarm_status : String
    pub swarm_error : Option String
    pub swarm_updated : Option ℕ
    pub containers : t.Int
    pub cpu : t.Int
    pub cpu_reserved : t.Int
    pub memory : MemoryInfo
    pub memory_reserved : MemoryInfo
    pub labels : Assoc String

  -- the two fields of `Info` that the lines change; the variable `node` is the last of the nodes
  pub record Swarm : Type 0 where
    pub swarm : SwarmInfo
    pub nodes : List NodeInfo

  unfoldable pub new_node : String → String → NodeInfo
  new_node name addr = record {
    name = name;
    addr = addr;
    swarm_status = "";
    swarm_error = none;
    swarm_updated = none;
    containers = t.zero_int;
    cpu = t.zero_int;
    cpu_reserved = t.zero_int;
    memory = record { size = t.zero_float; memory_unit = "" };
    memory_reserved = record { size = t.zero_float; memory_unit = "" };
    labels = [];
  }

  unfoldable pub with_memory : Option t.Float × Option String → MemoryInfo → MemoryInfo
  unfolding or_old
  with_memory (size, u) m = record {
    size = or_old size m.size;
    memory_unit = or_old u m.memory_unit;
  }

  -- what a known attribute does to its node; none for one that changes none
  unfoldable pub node_attr : String → String → Option (NodeInfo → NodeInfo)
  unfolding or_old with_memory labels_of
  node_attr attr value =
      if str_eq attr "Status"
      then some (λ node. record node { swarm_status = value })
      else if str_eq attr "Containers"
      then some (λ node. record node { containers = or_old (t.scan_int value) node.containers })
      else if str_eq attr "Reserved CPUs"
      then some (λ node. record node {
        cpu_reserved = or_old ((t.scan_cpus value).0) node.cpu_reserved;
        cpu = or_old ((t.scan_cpus value).1) node.cpu;
      })
      else if str_eq attr "Reserved Memory"
      then some (λ node. record node {
        memory_reserved = with_memory ((t.scan_memory value).0) node.memory_reserved;
        memory = with_memory ((t.scan_memory value).1) node.memory;
      })
      else if str_eq attr "Labels"
      then some (λ node. record node { labels = labels_of (t.find_labels value) [] })
      else if str_eq attr "Error"
      then some
          (λ node. record node { swarm_error = if str_eq value "(none)" then none else some value })
      else if str_eq attr "UpdatedAt"
      then elim (t.parse_time value) [
        | none ↦ none
        | some time ↦ some (λ node. record node { swarm_updated = some time })
      ]
      else none

  -- the last of the nodes, none without one
  unfoldable pub change_last : (NodeInfo → NodeInfo) → List NodeInfo → Option (List NodeInfo)
  change_last f [] = none
  change_last f (n ∷ []) = some (f n ∷ [])
  change_last f (n ∷ m ∷ ns) = elim (change_last f (m ∷ ns)) [
    | none ↦ none
    | some rest ↦ some (n ∷ rest)
  ]

  -- an attribute of a node that is not there panics
  unfoldable pub change_node : Option (NodeInfo → NodeInfo) → Exec Swarm InfoError (Unit {0})
  unfolding change_last
  change_node none s = (done tt, s)
  change_node (some f) s = elim (change_last f s.nodes) [
    | none ↦ (panicked, s)
    | some nodes ↦ (done tt, record s { nodes = nodes })
  ]

  unfoldable pub top_attr : String → String → Exec Swarm InfoError (Unit {0})
  top_attr attr value s =
      if str_eq attr "Role"
      then (done tt, record s { swarm = record (s.swarm) { role = value } })
      else if str_eq attr "Strategy"
      then (done tt, record s { swarm = record (s.swarm) { strategy = value } })
      else if str_eq attr "Nodes"
      then elim (t.scan_int value) [
        | none ↦ (failed (invalid_count value), s)
        | some n ↦ (done tt, record s { swarm = record (s.swarm) { node_count = n } })
      ]
      else (done tt, s)

  unfoldable pub decode_line : Line → Exec Swarm InfoError (Unit {0})
  unfolding top_attr change_node node_attr new_node
  decode_line (top_line attr value) = top_attr attr value
  decode_line (attr_line attr value) = change_node (node_attr attr value)
  decode_line (node_line name addr) =
      λ s. (done tt, record s { nodes = s.nodes ++ new_node name addr ∷ [] })

  unfoldable pub decode_lines : List (String × String) → Exec Swarm InfoError (Unit {0})
  unfolding decode_line line_of
  decode_lines [] = pure tt
  decode_lines (l ∷ ls) = do decode_line (line_of t.trim_space l); decode_lines ls

  -- `decodeSwarmStatus`, of an information without nodes
  unfoldable pub decode_swarm_status : List (String × String) → Outcome InfoError (Unit {0}) × Swarm
  unfolding decode_lines
  decode_swarm_status ls =
      decode_lines ls (record {
        swarm = record { role = ""; strategy = ""; node_count = t.zero_int };
        nodes = [];
      })
