-- ===== src/Client/Pool.antt =====
-- client/connect_pool.go and the types of client/common.go: the connections to one agent. A
-- connection is a number; the order of the map is the order in which `range` visits it.
use nbagent.Base.{
  ℕ, Bool, Option, none, some, [], ◌∷◌, ◌++◌, Text, codes, Dict, put, remove, nat_eq, length, leb,
}

pub record AgentInfo : Type 0 where
  pub ip : Text
  pub port : ℕ

pub record ConnectionInfo : Type 0 where
  pub last_keepalive_time : ℕ
  pub connection : ℕ
  pub host : Text

-- `format` is `strconv.FormatInt` to the base 10.
unfoldable pub make_host_key_by_ip_port : (ℕ → Text) → Text → ℕ → Text
make_host_key_by_ip_port format ip port = ip ++ (codes ":" ++ format port)

pub record ConnectionPool : Type 0 where
  pub init_connect_num : ℕ
  pub max_connect_num : ℕ
  pub connections : Dict ℕ ConnectionInfo

-- `Init`
abbrev pub new_pool : ℕ → ℕ → ConnectionPool
new_pool init max = record { init_connect_num = init; max_connect_num = max; connections = [] }

abbrev pub get_connect_num : ConnectionPool → ℕ
get_connect_num pool = length pool.connections

-- The first that `range` visits; `none` is nil.
abbrev pub get_connect : ConnectionPool → Option ConnectionInfo
get_connect pool = elim pool.connections [ [] ↦ none | e ∷ more ↦ some e.1 ]

unfoldable pub add_connect : ConnectionInfo → ConnectionPool → ConnectionPool
add_connect info pool = record pool { connections = put info.connection info pool.connections }

-- `NewConnect`, after dialling: the error if that failed.
unfoldable pub new_connect : (ℕ → Text) → AgentInfo → ℕ → Option ℕ → Option ConnectionInfo
new_connect format agent now none = none
new_connect format agent now (some conn) = some (record {
  last_keepalive_time = now;
  connection = conn;
  host = make_host_key_by_ip_port format agent.ip agent.port;
})

-- The caller closes the connection.
unfoldable pub clear_connect : ℕ → ConnectionPool → ConnectionPool
clear_connect conn pool = record pool { connections = remove conn pool.connections }

abbrev pub is_full_connect : ConnectionPool → Bool
is_full_connect pool = leb pool.max_connect_num (length pool.connections)
