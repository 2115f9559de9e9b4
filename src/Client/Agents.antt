-- ===== src/Client/Agents.antt =====
-- client/agent_manager.go: the agents that a client knows, and the one that it uses. A pool is a
-- pointer into a store; a key without a pool would hold nil, which is `none`.
pub mod Serving
pub mod Plans
pub mod Updates
pub mod Goodbyes
use nbagent.Base.{
  ℕ, suc, ◌+◌, Bool, true, false, not, ◌&&◌, Option, none, some, List, [], ◌∷◌, Text, text_beq,
  text_eq, Dict, find, put, remove, has, keys, values, length, map, for_each, update, ltb, leb,
  if◌then◌else◌,
}
use nbagent.Client.Pool.{AgentInfo, ConnectionPool, new_pool, make_host_key_by_ip_port}

pub record AgentConnectPoolInfo : Type 0 where
  pub agent_info : AgentInfo
  pub pool : ConnectionPool

-- `pools` is the store, and `next` the next pointer into it.
pub record AgentManager : Type 0 where
  pub active_agent : Text
  pub agent_connect_pool : Dict Text (Option ℕ)
  pub agent_goodbye_info : Dict Text ℕ
  pub agent_goodbye_timeout : ℕ
  pub pools : ℕ → AgentConnectPoolInfo
  pub next : ℕ

-- `&AgentConnectPoolInfo{}` and `Init`, which does not fail.
unfoldable pub init_pool : AgentInfo → ℕ → ℕ → AgentManager → ℕ × AgentManager
init_pool agent init max m = (
  m.next,
  record m {
    pools = update m.pools m.next (record { agent_info = agent; pool = new_pool init max });
    next = suc m.next;
  },
)

-- `none` is the error; the pool may be nil.
unfoldable pub get_active_agent_connect_pool : AgentManager → Option (Option ℕ)
get_active_agent_connect_pool m = find m.active_agent m.agent_connect_pool

abbrev pub host_key : (ℕ → Text) → AgentInfo → Text
host_key format agent = make_host_key_by_ip_port format agent.ip agent.port

unfoldable pub add_agent : (ℕ → Text) → ℕ → AgentManager → Bool × AgentManager
add_agent format p m =
    let key = host_key format (m.pools p).agent_info in
    let m' : AgentManager =
      if text_beq m.active_agent [] then record m { active_agent = key } else m in
    if has key m.agent_connect_pool
    then (true, m')
    else (false, record m' { agent_connect_pool = put key (some p) m'.agent_connect_pool })

-- `NewClient` in client/client.go, for one agent and for all; without an agent it is an error.
unfoldable pub add_new : (ℕ → Text) → ℕ → ℕ → AgentInfo → AgentManager → AgentManager
unfolding init_pool add_agent
add_new format init max agent m =
    let (p, m') = init_pool agent init max m in (add_agent format p m').1

abbrev pub no_agents : ℕ → AgentManager
no_agents timeout = record {
  active_agent = [];
  agent_connect_pool = [];
  agent_goodbye_info = [];
  agent_goodbye_timeout = timeout;
  pools = λ p. record { agent_info = record { ip = []; port = 0 }; pool = new_pool 0 0 };
  next = 0;
}

unfoldable pub start_agents : (ℕ → Text) → List AgentInfo → ℕ → ℕ → ℕ → Option AgentManager
unfolding add_new
start_agents format agents init max timeout =
    let m = for_each (add_new format init max) agents (no_agents timeout) in
    if leb (length m.agent_connect_pool) 0 then none else some m

unfoldable pub delete_agent : Text → AgentManager → Bool × AgentManager
delete_agent key m =
    if text_beq m.active_agent key
    then (false, m)
    else if has key m.agent_connect_pool
    then (true, record m { agent_connect_pool = remove key m.agent_connect_pool })
    else (false, m)

abbrev pub get_agent : Text → AgentManager → Option (Option ℕ)
get_agent key m = find key m.agent_connect_pool

abbrev pub get_agent_size : AgentManager → ℕ
get_agent_size m = length m.agent_connect_pool

-- The map of the agents told of: of two with one key the later one.
unfoldable pub update_map : (ℕ → Text) → List AgentInfo → Dict Text AgentInfo
update_map format agents = for_each (λ a. put (host_key format a) a) agents []

-- A loop of `UpdateAgent`: the agents with a pool take it along.
unfoldable pub keep_same : Dict Text (Option ℕ) → Dict Text AgentInfo → Dict Text (Option ℕ)
keep_same current [] = []
keep_same current ((key, agent) ∷ told) =
    let rest = keep_same current told in
    elim (find key current) [ none ↦ rest | some q ↦ put key q rest ]

unfoldable pub new_agents : Dict Text (Option ℕ) → Dict Text AgentInfo → Dict Text AgentInfo
new_agents current [] = []
new_agents current ((key, agent) ∷ told) =
    let rest = new_agents current told in if has key current then rest else put key agent rest

-- The other loop: each new agent gets a pool of its own.
unfoldable pub init_one :
    ℕ
    → ℕ
    → Text × AgentInfo
    → Dict Text (Option ℕ) × AgentManager
    → Dict Text (Option ℕ) × AgentManager
unfolding init_pool
init_one init max (key, agent) (all_pools, m) =
    let (p, m') = init_pool agent init max m in (put key (some p) all_pools, m')

-- `UpdateAgent` up to the lock: the next map, made from the present one.
unfoldable pub plan_update :
    (ℕ → Text) → List AgentInfo → ℕ → ℕ → AgentManager → Dict Text (Option ℕ) × AgentManager
unfolding init_one
plan_update format agents init max m =
    let told = update_map format agents in
    for_each (init_one init max) (new_agents m.agent_connect_pool told)
      (keep_same m.agent_connect_pool told, m)

-- A key that the map does not hold reads as nil.
abbrev pub pool_of : Text → Dict Text (Option ℕ) → Option ℕ
pool_of key pools = elim (find key pools) [ none ↦ none | some q ↦ q ]

-- `UpdateAgent` under the lock: the next map, with the active agent, becomes the present one.
unfoldable pub swap_pools : Dict Text (Option ℕ) → AgentManager → AgentManager
swap_pools all_pools m =
    if has m.active_agent all_pools then record m { agent_connect_pool = all_pools } else record m {
      agent_connect_pool =
          put m.active_agent (pool_of m.active_agent m.agent_connect_pool) all_pools;
    }

-- `UpdateAgent` if nothing happens before it takes the lock.
unfoldable pub update_agent : (ℕ → Text) → List AgentInfo → ℕ → ℕ → AgentManager → AgentManager
unfolding plan_update swap_pools
update_agent format agents init max m =
    let (all_pools, m') = plan_update format agents init max m in swap_pools all_pools m'

-- The loop of `SwitchActiveAgent` over the keys.
unfoldable pub choose_agent : List Text → AgentManager → Option Text
choose_agent [] m = none
choose_agent (key ∷ more) m =
    let later = choose_agent more m in
    if has key m.agent_goodbye_info
    then later
    else if not (text_beq key m.active_agent)
    then some key
    else later

unfoldable pub set_active : Option Text → AgentManager → AgentManager
set_active none m = m
set_active (some key) m = record m { active_agent = key }

-- `SwitchActiveAgent` if nothing happens between its locks.
unfoldable pub switch_active_agent : AgentManager → AgentManager
unfolding choose_agent set_active
switch_active_agent m = set_active (choose_agent (keys m.agent_connect_pool) m) m

unfoldable pub switch_to_other_agent : Text → AgentManager → AgentManager
unfolding switch_active_agent
switch_to_other_agent host m = if text_beq host m.active_agent then switch_active_agent m else m

unfoldable pub add_goodbye_agent : ℕ → Text → AgentManager → Bool × AgentManager
add_goodbye_agent now host m = (
  has host m.agent_goodbye_info,
  record m { agent_goodbye_info = put host now m.agent_goodbye_info },
)

-- `LastUpdateTimestamp - nCurTimestamp > nAgentGoodByeTimeoutS`
abbrev pub is_timeout : ℕ → AgentManager → Text × ℕ → Bool
is_timeout now m (host, last) = ltb (now + m.agent_goodbye_timeout) last

unfoldable pub clear_one : ℕ → AgentManager → Text × ℕ → Dict Text ℕ → Dict Text ℕ
clear_one now m e left = if is_timeout now m e then remove e.0 left else left

unfoldable pub clear_goodbye_timeout : ℕ → AgentManager → AgentManager
unfolding clear_one
clear_goodbye_timeout now m = record m {
  agent_goodbye_info = for_each (clear_one now m) m.agent_goodbye_info m.agent_goodbye_info;
}
