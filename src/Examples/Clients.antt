-- ===== src/Examples/Clients.antt =====
-- The client library at concrete inputs.
use nbagent.Base.{
  nat_eq, find, put, ℕ, ◌≡◌, ◌≢◌, ◌≤◌, ◌⊎◌, ◌||◌, ◌<◌, refl, Option, none, some, true, false, List,
  [], ◌∷◌, Text, codes, has, elem, map, text_eq, text_beq,
}
use nbagent.Client.Pool.{AgentInfo, new_pool, make_host_key_by_ip_port}
use nbagent.Client.Agents.{
  AgentManager, host_key, start_agents, add_new, no_agents, update_agent, plan_update, swap_pools,
  get_active_agent_connect_pool, switch_to_other_agent, add_goodbye_agent,
}
use nbagent.Client.Agents.Updates.{update_agent_lem}
use nbagent.Client.Agents.Goodbyes.{goodbye-leaves}
use nbagent.Client.Agents.Serving.Steps.{
  Running, here, later, planned, swapped, active_agent_has_pool,
}
use nbagent.Client.Library.{Client, handle_rpc, Dial, new_client}
use nbagent.Client.Library.Pooled.{Goes}
use nbagent.Client.Library.Run.{Event, run, started, ticked, was_closed, client_never_panics}
use nbagent.Node.Entry.{EntryType}
use nbagent.CliAgent.State.{ClientManager}
use nbagent.CliAgent.Manager.{RegisterReq, handle_agent_register}
use nbagent.Client.Library.Registers.{register_request}
use nbagent.Examples.Agents.{listing, idle, sign}

-- Any format at all.
abbrev format : ℕ → Text
format n = n ∷ []

abbrev near : AgentInfo
near = record { ip = codes "10.0.0.1"; port = 1 }

abbrev far : AgentInfo
far = record { ip = codes "10.0.0.2"; port = 1 }

abbrev both : AgentManager
both = add_new format 2 4 far (add_new format 2 4 near (no_agents 60))

abbrev updated : Running
updated = record {
  manager =
      swap_pools (plan_update format (far ∷ []) 2 4 both).0
        (plan_update format (far ∷ []) 2 4 both).1;
  plans = (plan_update format (far ∷ []) 2 4 both).0 ∷ [];
}

active_agent_has_pool_example :
    (p : ℕ) × (get_active_agent_connect_pool updated.manager ≡ some (some p))
    × (host_key format (updated.manager.pools p).agent_info ≡ updated.manager.active_agent)
unfolding start_agents find put text_beq make_host_key_by_ip_port
active_agent_has_pool_example =
    active_agent_has_pool format (near ∷ far ∷ []) 2 4 60 both updated refl (
      later (later here (planned (far ∷ []) 2 4 (record { manager = both; plans = [] }))) (
        swapped 0 (plan_update format (far ∷ []) 2 4 both).0
          (record {
            manager = (plan_update format (far ∷ []) 2 4 both).1;
            plans = (plan_update format (far ∷ []) 2 4 both).0 ∷ [];
          })
          refl))

update_agent_lem_example :
    ((update_agent format (far ∷ []) 2 4 both).active_agent ≡ both.active_agent)
    × (has (host_key format far) (update_agent format (far ∷ []) 2 4 both).agent_connect_pool ≡ (
        elem (host_key format far) (map (host_key format) (far ∷ []))
        || text_beq both.active_agent (host_key format far)))
    × ((q : Option ℕ)
        → find (host_key format far) both.agent_connect_pool ≡ some q
        → has (host_key format far) (update_agent format (far ∷ []) 2 4 both).agent_connect_pool
          ≡ true
        → find (host_key format far) (update_agent format (far ∷ []) 2 4 both).agent_connect_pool
          ≡ some q)
    × (find (host_key format far) both.agent_connect_pool ≡ none
        → elem (host_key format far) (map (host_key format) (far ∷ [])) ≡ true
        → (p : ℕ) × (a : AgentInfo) × (find
              (host_key format far)
              (update_agent format (far ∷ []) 2 4 both).agent_connect_pool
            ≡ some (some p))
          × (both.next ≤ p)
          × (host_key format a ≡ host_key format far)
          × ((update_agent format (far ∷ []) 2 4 both).pools p
              ≡ record { agent_info = a; pool = new_pool 2 4 }))
    × ((p : ℕ) → p < both.next → (update_agent format (far ∷ []) 2 4 both).pools p ≡ both.pools p)
update_agent_lem_example = update_agent_lem format (far ∷ []) 2 4 both (host_key format far)

goodbye-leaves_example :
    let host = host_key format near in
    let m' = switch_to_other_agent host (add_goodbye_agent 100 host both).1 in
    ((m'.active_agent ≡ both.active_agent) × (both.active_agent ≢ host))
    ⊎ ((both.active_agent ≡ host)
        × (m'.active_agent ≢ host)
        × (has m'.active_agent both.agent_connect_pool ≡ true)
        × (has m'.active_agent both.agent_goodbye_info ≡ false))
    ⊎ (m'.active_agent ≡ host)
      × (both.active_agent ≡ host)
      × ((k : Text)
          → has k both.agent_connect_pool ≡ true
          → k ≢ host
          → has k both.agent_goodbye_info ≡ true)
goodbye-leaves_example = goodbye-leaves 100 (host_key format near) both

abbrev fresh : Client ℕ
fresh = record {
  instance_id = codes "c0";
  entries = [];
  router = [];
  agents = both;
  host_of = λ conn. none;
  pending = [];
  closed = [];
  unregistered = [];
}

abbrev good : Dial
good = record { now = 100; dialled = some 7; registered = true }

abbrev events : List (Event ℕ)
events =
    started (λ n. record { now = 100; dialled = some n; registered = true }) good true
    ∷ ticked good (some (far ∷ [])) 103
    ∷ was_closed 0
    ∷ []

client_never_panics_example : Goes format (run format events fresh)
unfolding new_client find put text_beq make_host_key_by_ip_port
client_never_panics_example =
    client_never_panics format (codes "c0") (near ∷ far ∷ []) 2 4 60 fresh events refl

abbrev joining : RegisterReq
unfolding register_request handle_rpc
joining = register_request sign 100 (handle_rpc (codes "sum") 5 fresh)

abbrev agent : ClientManager (List Text)
agent = (handle_agent_register listing sign 5 10 6 (codes "1") 101 (some joining) idle).0

abbrev server : Client ℕ
server = record fresh { entries = record { uri = codes "sum"; entry_type = EntryType.rpc } ∷ [] }

abbrev back : ClientManager (List Text)
back =
    (handle_agent_register listing sign 5 10 6 (codes "1") 101
      (some (register_request sign 100 server)) idle).0
