-- ===== src/Config.antt =====
-- config/config.go: the configuration that a process starts with. `read` gives the bytes of a file,
-- if there is one, `unmarshal` sets what the XML names, and `getenv` is the environment.
use nbagent.Base.{
  ℕ, Option, none, some, List, [], ◌∷◌, ◌++◌, Text, codes, text_beq, ltb, if◌then◌else◌, map, ◌%◌,
  ◌^◌,
}
use nbagent.TaskWorker.{WorkerConfig}
use nbagent.Node.Manager.State as State
use nbagent.Server.{ServerConf}

pub record Neighbour : Type 0 where
  pub name : Text
  pub ip : Text
  pub port : ℕ
  pub agent_port : ℕ

pub record NodeConfig : Type 0 where
  pub name : Text
  pub port : ℕ
  pub neighbours : List Neighbour
  pub neighbour_max_connection : ℕ

pub record AgentConfig : Type 0 where
  pub name : Text
  pub port : ℕ
  pub client_max_connection : ℕ

pub record Config : Type 0 where
  pub log_level : Text
  pub log_mode : Text
  pub log_path : Text
  pub secret_key : Text
  pub workers : List WorkerConfig
  pub host : Text
  pub host_env : Text
  pub node_conf : NodeConfig
  pub agent_conf : AgentConfig
  pub timeout_check_interval : ℕ
  pub connect_timeout : ℕ
  pub sign_timeout : ℕ
  pub client_timeout : ℕ
  pub stop_timeout : ℕ

abbrev pub dirs : List Text
dirs = codes "./" ∷ codes "./conf/" ∷ codes "../conf/" ∷ codes "../../conf/" ∷ []

-- The loop of `init`: every file that is there is read, over what the ones before have set. The
-- result is none where one cannot be parsed, which panics.
unfoldable pub load :
    (Text → Option Text) → (Text → Config → Option Config) → List Text → Config → Option Config
load read unmarshal [] conf = some conf
load read unmarshal (dir ∷ more) conf = elim (read (dir ++ codes "server.xml")) [
  | none ↦ load read unmarshal more conf
  | some bytes ↦ elim (unmarshal bytes conf) [
    | none ↦ none
    | some conf' ↦ load read unmarshal more conf'
  ]
]

abbrev pub with_host : (Text → Text) → Config → Config
with_host getenv conf =
    if text_beq conf.host [] then record conf { host = getenv conf.host_env } else conf

unfoldable pub init :
    (Text → Option Text) → (Text → Config → Option Config) → (Text → Text) → Config → Option Config
unfolding load
init read unmarshal getenv zero_conf = elim (load read unmarshal dirs zero_conf) [
  | none ↦ none
  | some conf ↦ some (with_host getenv conf)
]

-- node/common.go and cli_agent/common.go, the limits on the connections of a node and of a client.
unfoldable pub neighbour_max_connection : Config → ℕ
neighbour_max_connection conf =
    if ltb 0 conf.node_conf.neighbour_max_connection
    then conf.node_conf.neighbour_max_connection
    else 10

unfoldable pub agent_client_max_connection : Config → ℕ
agent_client_max_connection conf =
    if ltb 0 conf.agent_conf.client_max_connection
    then conf.agent_conf.client_max_connection
    else 10

-- node/manager.go, `GetNeighbour`
abbrev pub get_neighbour : Text → Text → ℕ → ℕ → State.Neighbour
get_neighbour name ip port agent_port = record {
  name = name;
  ip = ip;
  port = port;
  agent_port = agent_port;
}

-- What nbserver/server.go takes from the configuration that it is given, and, for the host and the
-- ports, from the global one; ports are cut to sixteen bits.
unfoldable pub server_conf : Config → Config → ServerConf
server_conf conf global = record {
  node_name = conf.node_conf.name;
  agent_name = conf.agent_conf.name;
  host = global.host;
  node_port = global.node_conf.port % 2 ^ 16;
  agent_port = global.agent_conf.port % 2 ^ 16;
  neighbours =
      map (λ (b : Neighbour). get_neighbour b.name b.ip (b.port % 2 ^ 16) (b.agent_port % 2 ^ 16))
        conf.node_conf.neighbours;
}
