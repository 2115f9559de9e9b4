-- ===== src/Client/Library/Callbacks.antt =====
-- client/client.go: the start, the timer, the goodbye of an agent and the calls.
use nbagent.Base.{
  ℕ, zero, suc, ◌-◌, Bool, true, false, Option, none, some, List, [], Text, text_eq, if◌then◌else◌,
}
use nbagent.Node.Entry.{EntryType}
use nbagent.Node.Manager.State.{RpcCallReq, RpcCallResp, local_better}
use nbagent.Node.Manager.Tasks.{is_success}
use nbagent.Client.Pool.{AgentInfo, get_connect_num}
use nbagent.Client.Agents.{
  get_active_agent_connect_pool, update_agent, add_goodbye_agent, switch_to_other_agent,
  clear_goodbye_timeout,
}
use nbagent.Client.Library.{
  Client, Dial, create_connect_and_register, get_connect_of, clear_connect_of, unregister_self,
}

-- The request of `SyncCall`.
abbrev pub call_request : Text → List ℕ → RpcCallReq
call_request uri msg = record {
  payload = msg;
  uri = uri;
  caller = [];
  request_mode = local_better;
  key = [];
  entry_type = EntryType.rpc;
}

module _ {ℓ} {H : Type ℓ} where
  -- The loop of `createAgentIdleConnect`, which stops at the first failure. The result is the error.
  unfoldable pub create_loop :
      (ℕ → Text) → ℕ → (ℕ → Dial) → Dial → Bool → ℕ → Client H → Option (Bool × Client H)
  unfolding create_connect_and_register unregister_self
  create_loop format p dials last written zero c = some (true, c)
  create_loop format p dials last written (suc n) c =
      let (created, c') = create_connect_and_register format p (dials n) c in
      let rest = create_loop format p dials last written n c' in
      elim created [
        | some info ↦ rest
        | none ↦ elim (unregister_self format last written c') [
          | none ↦ none
          | some c'' ↦ some (false, c'')
        ]
      ]

  unfoldable pub create_agent_idle_connect :
      (ℕ → Text) → (ℕ → Dial) → Dial → Bool → Client H → Option (Bool × Client H)
  unfolding create_loop get_active_agent_connect_pool
  create_agent_idle_connect format dials last written c =
      elim (get_active_agent_connect_pool c.agents) [
        | none ↦ some (false, c)
        | some none ↦ none
        | some (some p) ↦
            let pool = (c.agents.pools p).pool in
            create_loop format p dials last written (pool.init_connect_num - get_connect_num pool) c
      ]

  -- The response of `keepalive` tells of the agents; without one, or on an error, nothing is updated.
  unfoldable pub agent_keepalive :
      (ℕ → Text) → Dial → Option (List AgentInfo) → Client H → Option (Client H)
  unfolding get_connect_of get_active_agent_connect_pool update_agent
  agent_keepalive format dial rsp c = elim (get_active_agent_connect_pool c.agents) [
    | none ↦ some c
    | some pool ↦ elim (get_connect_of format dial c) [
      | none ↦ none
      | some (none, c') ↦ some c'
      | some (some conn, c') ↦ elim rsp [
        | none ↦ some c'
        | some agents ↦ elim pool [
          | none ↦ none
          | some p ↦
              let old = (c'.agents.pools p).pool in
              some (record c' {
                agents =
                    update_agent format agents old.init_connect_num old.max_connect_num c'.agents;
              })
        ]
      ]
    ]
  ]

  unfoldable pub timer :
      (ℕ → Text) → Dial → Option (List AgentInfo) → ℕ → Client H → Option (Client H)
  unfolding agent_keepalive clear_goodbye_timeout
  timer format dial rsp now c = elim (agent_keepalive format dial rsp c) [
    | none ↦ none
    | some c' ↦ some (record c' { agents = clear_goodbye_timeout now c'.agents })
  ]

  -- `host` is the remote address of the connection.
  unfoldable pub handle_say_goodbye_notify :
      (ℕ → Text) → ℕ → Text → (ℕ → Dial) → Dial → Bool → Client H → Option (Client H)
  unfolding add_goodbye_agent switch_to_other_agent create_agent_idle_connect
  handle_say_goodbye_notify format now host dials last written c =
      let left = switch_to_other_agent host (add_goodbye_agent now host c.agents).1 in
      elim (create_agent_idle_connect format dials last written (record c { agents = left })) [
        | none ↦ none
        | some (ok, c') ↦ some c'
      ]

  -- `answers` is the response that the call of a request on a connection brings, if it brings one. The
  -- result is `none` on an error.
  unfoldable pub sync_call {κ} :
      {R : Type κ}
      → (List ℕ → Option R)
      → (ℕ → Text)
      → Dial
      → (ℕ → RpcCallReq → Option RpcCallResp)
      → Text
      → List ℕ
      → Client H
      → Option (Option R × Client H)
  unfolding get_connect_of clear_connect_of
  sync_call unmarshal format dial answers uri msg c = elim (get_connect_of format dial c) [
    | none ↦ none
    | some (none, c') ↦ some (none, c')
    | some (some conn, c') ↦ elim (answers conn (call_request uri msg)) [
      | some rsp ↦
          if is_success rsp.result then some (unmarshal rsp.payload, c') else some (none, c')
      | none ↦ elim (clear_connect_of conn c') [ none ↦ none | some c'' ↦ some (none, c'') ]
    ]
  ]
