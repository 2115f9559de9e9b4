-- ===== src/Client/Library.antt =====
-- client/client.go: connecting to the active agent, registering there, and calls both ways. What the
-- network answers is an argument: `Dial` for a new connection and its registration, an option for
-- the response of a call. `none` is a panic, on a pool that is nil.
pub mod Callbacks
pub mod Reads
pub mod Pooled
pub mod Run
pub mod Registers
pub mod Leaving
use nbagent.Base.{
  ℕ, zero, suc, ◌-◌, Bool, true, false, Option, none, some, List, [], ◌∷◌, ◌++◌, Text, Dict, find,
  put, leb, keys, text_eq, nat_beq, update, map, length, if◌then◌else◌,
}
use nbagent.Node.Entry.{EntryType}
use nbagent.CliAgent.Client.{AgentEntry}
use nbagent.Node.Manager.State.{RpcCallReq, RpcCallResp, local_better}
use nbagent.Node.Manager.Tasks.{is_success}
use nbagent.Client.Pool.{
  AgentInfo, ConnectionInfo, ConnectionPool, add_connect, new_connect, clear_connect, get_connect,
  get_connect_num, is_full_connect,
}
use nbagent.Client.Agents.{
  AgentManager, AgentConnectPoolInfo, get_active_agent_connect_pool, get_agent, host_key,
  switch_active_agent, update_agent, add_goodbye_agent, switch_to_other_agent,
  clear_goodbye_timeout, start_agents,
}

-- `host_of` is the value of each connection's context under CONTEXT_KEY_NODE. `pending` are the pools
-- that a started goroutine adds a connection to, `closed` the connections that were closed, and
-- `unregistered` those that were sent an `AGENT_UN_REGISTER`.
pub record Client {ℓ} (H : Type ℓ) : Type ℓ where
  pub instance_id : Text
  pub entries : List AgentEntry
  pub router : Dict Text H
  pub agents : AgentManager
  pub host_of : ℕ → Option Text
  pub pending : List ℕ
  pub closed : List ℕ
  pub unregistered : List (ℕ × List AgentEntry)

-- What becomes of one connection: the socket, if dialling succeeds, and whether the registration is
-- answered with success.
pub record Dial : Type 0 where
  pub now : ℕ
  pub dialled : Option ℕ
  pub registered : Bool

module _ {ℓ} {H : Type ℓ} where
  abbrev pub set_pool : ℕ → ConnectionPool → Client H → Client H
  set_pool p pool c = record c {
    agents = record c.agents {
      pools = update c.agents.pools p (record (c.agents.pools p) { pool = pool });
    };
  }

  abbrev pub close : ℕ → Client H → Client H
  close conn c = record c { closed = c.closed ++ (conn ∷ []) }

  -- `NewClient`; the other parts of it wire the router and the workers.
  unfoldable pub new_client : (ℕ → Text) → Text → List AgentInfo → ℕ → ℕ → ℕ → Option (Client H)
  unfolding start_agents
  new_client format uuid agents init max timeout =
      elim (start_agents format agents init max timeout) [
        | none ↦ none
        | some m ↦ some (record {
          instance_id = uuid;
          entries = [];
          router = [];
          agents = m;
          host_of = λ conn. none;
          pending = [];
          closed = [];
          unregistered = [];
        })
      ]

  unfoldable pub handle_rpc : Text → H → Client H → Client H
  handle_rpc uri handler c = record c {
    entries = c.entries ++ (record { uri = uri; entry_type = EntryType.rpc } ∷ []);
    router = put uri handler c.router;
  }

  -- The connection is in the pool once it is registered; `none` is the error.
  unfoldable pub create_connect_and_register :
      (ℕ → Text) → ℕ → Dial → Client H → Option ConnectionInfo × Client H
  unfolding new_connect add_connect
  create_connect_and_register format p dial c =
      let agent = (c.agents.pools p).agent_info in
      elim (new_connect format agent dial.now dial.dialled) [
        | none ↦ (none, c)
        | some info ↦
            if dial.registered
            then (
              some info,
              record (set_pool p (add_connect info (c.agents.pools p).pool) c) {
                host_of = update c.host_of info.connection (some (host_key format agent));
              },
            )
            else (none, close info.connection c)
      ]

  -- The end of `getConnect`: a goroutine adds a connection unless the pool is full.
  abbrev pub grow : ℕ → Client H → Client H
  grow p c =
      if is_full_connect (c.agents.pools p).pool
      then c
      else record c { pending = c.pending ++ (p ∷ []) }

  -- A connection that was there, or the one that has been created now; without one the agent is left
  -- if it has no connections.
  unfoldable pub connect_to : (ℕ → Text) → ℕ → Dial → Client H → Option ℕ × Client H
  unfolding create_connect_and_register switch_active_agent
  connect_to format p dial c = elim (get_connect (c.agents.pools p).pool) [
    | some info ↦ (some info.connection, grow p c)
    | none ↦
        let (created, c') = create_connect_and_register format p dial c in
        elim created [
          | some info ↦ (some info.connection, grow p c')
          | none ↦
              if leb (get_connect_num (c'.agents.pools p).pool) 0
              then (none, record c' { agents = switch_active_agent c'.agents })
              else (none, c')
        ]
  ]

  -- The connection is `none` on an error.
  unfoldable pub get_connect_of : (ℕ → Text) → Dial → Client H → Option (Option ℕ × Client H)
  unfolding connect_to get_active_agent_connect_pool
  get_connect_of format dial c = elim (get_active_agent_connect_pool c.agents) [
    | none ↦ some (none, c)
    | some none ↦ none
    | some (some p) ↦ some (connect_to format p dial c)
  ]

  -- The goroutine that `getConnect` starts.
  unfoldable pub grow_later : (ℕ → Text) → ℕ → Dial → Client H → Client H
  unfolding create_connect_and_register
  grow_later format p dial c = (create_connect_and_register format p dial c).1

  -- A connection without a host, or of an agent that is not known any more, stays open.
  unfoldable pub clear_connect_of : ℕ → Client H → Option (Client H)
  unfolding clear_connect
  clear_connect_of conn c = elim (c.host_of conn) [
    | none ↦ some c
    | some key ↦ elim (get_agent key c.agents) [
      | none ↦ some c
      | some none ↦ none
      | some (some p) ↦
          some (close conn (set_pool p (clear_connect conn (c.agents.pools p).pool) c))
    ]
  ]

  abbrev pub on_close_connection : ℕ → Client H → Option (Client H)
  on_close_connection = clear_connect_of

  -- `unregister`, on the connection that `getConnect` gives. The test is whether the cast is written.
  unfoldable pub unregister_self : (ℕ → Text) → Dial → Bool → Client H → Option (Client H)
  unfolding get_connect_of
  unregister_self format dial written c = elim (get_connect_of format dial c) [
    | none ↦ none
    | some (none, c') ↦ some c'
    | some (some conn, c') ↦
        if written
        then some (record c' { unregistered = c'.unregistered ++ ((conn, c'.entries) ∷ []) })
        else some c'
  ]
