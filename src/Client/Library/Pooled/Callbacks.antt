-- ===== src/Client/Library/Pooled/Callbacks.antt =====
-- The same of the callbacks, the timer and the calls.
use nbagent.Base.{
  ℕ, zero, suc, refl, ap, ◌∙◌, inl, inr, Bool, true, false, Option, none, some, List, [], ◌∷◌, ◌++◌,
  Text, text_eq, Bool-cases, Option-cases,
}
use nbagent.Node.Manager.State.{RpcCallReq, RpcCallResp}
use nbagent.Node.Manager.Tasks.{is_success}
use nbagent.Client.Pool.{clear_connect, AgentInfo}
use nbagent.Client.Agents.{
  update_agent, switch_to_other_agent, add_goodbye_agent, clear_goodbye_timeout, get_agent,
}
use nbagent.Client.Agents.Serving.{set_pool-IsServing}
use nbagent.Client.Library.{
  Client, Dial, create_connect_and_register, clear_connect_of, unregister_self, close, set_pool,
}
use nbagent.Client.Library.Callbacks.{
  create_loop, create_agent_idle_connect, agent_keepalive, timer, handle_say_goodbye_notify,
  sync_call, call_request,
}
use nbagent.Client.Library.Pooled.{
  IsPooled, Goes, GoesWith, active_pool, get_connect_of-Goes, create-IsPooled, update-IsServing,
  switch_to-IsServing,
}

module _ {ℓ} {H : Type ℓ} (format : ℕ → Text) where
  pub clear_connect_of-Goes :
      (conn : ℕ) (c : Client H) → IsPooled format c → Goes format (clear_connect_of conn c)
  unfolding clear_connect_of
  clear_connect_of-Goes conn c h = elim (Option-cases (c.host_of conn)) [
    | inl e ↦ (c, rw (e, clear_connect_of) refl, h)
    | inr (key, e) ↦ elim (Option-cases (get_agent key c.agents)) [
      | inl f ↦ (c, rw (e, clear_connect_of) (rw (f, clear_connect_of) refl), h)
      | inr (q, f) ↦
          let (p, same, low, at) = h.known key q f in
          let found = f ∙ ap some same in
          let c' = close conn (set_pool p (clear_connect conn (c.agents.pools p).pool) c) in
          (
            c',
            rw (e, clear_connect_of) (rw (found, clear_connect_of) refl),
            (set_pool-IsServing format p _ c.agents h).0,
          )
    ]
  ]

  pub unregister_self-Goes :
      (dial : Dial) (written : Bool) (c : Client H)
      → IsPooled format c
      → Goes format (unregister_self format dial written c)
  unfolding unregister_self
  unregister_self-Goes dial written c h =
      let (got, c', e, h') = get_connect_of-Goes format dial c h in
      elim (Option-cases got) [
        | inl g ↦ (c', rw (e, unregister_self) (rw (g, unregister_self) refl), h')
        | inr (conn, g) ↦
            let sent = record c' { unregistered = c'.unregistered ++ ((conn, c'.entries) ∷ []) } in
            rw (e, unregister_self)
              (rw (g, unregister_self)
                (elim (Bool-cases written) [
                  | inl f ↦ (sent, rw f refl, h')
                  | inr f ↦ (c', rw f refl, h')
                ]))
      ]

  create_loop-Goes :
      (p : ℕ) (dials : ℕ → Dial) (last : Dial) (written : Bool) (n : ℕ) (c : Client H)
      → IsPooled format c
      → GoesWith format (create_loop format p dials last written n c)
  unfolding create_loop
  create_loop-Goes p dials last written zero c h = (true, c, refl, h)
  create_loop-Goes p dials last written (suc n) c h =
      let c' = (create_connect_and_register format p (dials n) c).1 in
      let h' = create-IsPooled format p (dials n) c h in
      let rest = create_loop-Goes p dials last written n c' h' in
      elim (Option-cases (create_connect_and_register format p (dials n) c).0) [
        | inr (info, e) ↦ rw (e, create_loop) rest
        | inl e ↦
            let (c'', f, h'') = unregister_self-Goes last written c' h' in
            (false, c'', rw (e, create_loop) (rw (f, create_loop) refl), h'')
      ]

  pub create_idle-Goes :
      (dials : ℕ → Dial) (last : Dial) (written : Bool) (c : Client H)
      → IsPooled format c
      → GoesWith format (create_agent_idle_connect format dials last written c)
  unfolding create_agent_idle_connect
  create_idle-Goes dials last written c h =
      let (p, found) = active_pool format c h in
      rw (found, create_agent_idle_connect) (create_loop-Goes p dials last written _ c h)

  keepalive-Goes :
      (dial : Dial) (rsp : Option (List AgentInfo)) (c : Client H)
      → IsPooled format c
      → Goes format (agent_keepalive format dial rsp c)
  unfolding agent_keepalive
  keepalive-Goes dial rsp c h =
      let (p, found) = active_pool format c h in
      let (got, c', e, h') = get_connect_of-Goes format dial c h in
      rw (found, agent_keepalive)
        (rw (e, agent_keepalive)
          (elim (Option-cases got) [
            | inl g ↦ (c', rw (g, agent_keepalive) refl, h')
            | inr (conn, g) ↦
                rw (g, agent_keepalive)
                  (elim (Option-cases rsp) [
                    | inl f ↦ (c', rw (f, agent_keepalive) refl, h')
                    | inr (agents, f) ↦
                        let old = (c'.agents.pools p).pool in
                        let next =
                          update_agent format agents old.init_connect_num old.max_connect_num
                            c'.agents in
                        (
                          record c' { agents = next },
                          rw (f, agent_keepalive) refl,
                          update-IsServing format agents _ _ c'.agents h',
                        )
                  ])
          ]))

  pub timer-Goes :
      (dial : Dial) (rsp : Option (List AgentInfo)) (now : ℕ) (c : Client H)
      → IsPooled format c
      → Goes format (timer format dial rsp now c)
  unfolding timer clear_goodbye_timeout
  timer-Goes dial rsp now c h =
      let (c', e, h') = keepalive-Goes dial rsp c h in
      (
        record c' { agents = clear_goodbye_timeout now c'.agents },
        rw (e, timer) refl,
        record { known = h'.known; active = h'.active },
      )

  pub goodbye-Goes :
      (now : ℕ) (host : Text) (dials : ℕ → Dial) (last : Dial) (written : Bool) (c : Client H)
      → IsPooled format c
      → Goes format (handle_say_goodbye_notify format now host dials last written c)
  unfolding handle_say_goodbye_notify add_goodbye_agent
  goodbye-Goes now host dials last written c h =
      let told = (add_goodbye_agent now host c.agents).1 in
      let left = switch_to_other_agent host told in
      let (ok, c', e, h') =
        create_idle-Goes dials last written (record c { agents = left })
          (switch_to-IsServing format host told (record { known = h.known; active = h.active })) in
      (c', rw (e, handle_say_goodbye_notify) refl, h')

  pub sync_call-Goes {κ} :
      {R : Type κ} (unmarshal : List ℕ → Option R) (dial : Dial)
      (answers : ℕ → RpcCallReq → Option RpcCallResp) (uri : Text) (msg : List ℕ) (c : Client H)
      → IsPooled format c
      → GoesWith format (sync_call unmarshal format dial answers uri msg c)
  unfolding sync_call
  sync_call-Goes unmarshal dial answers uri msg c h =
      let (got, c', e, h') = get_connect_of-Goes format dial c h in
      rw (e, sync_call)
        (elim (Option-cases got) [
          | inl g ↦ (none, c', rw (g, sync_call) refl, h')
          | inr (conn, g) ↦
              rw (g, sync_call)
                (elim (Option-cases (answers conn (call_request uri msg))) [
                  | inl f ↦
                      let (c'', k, h'') = clear_connect_of-Goes conn c' h' in
                      (none, c'', rw (f, sync_call) (rw (k, sync_call) refl), h'')
                  | inr (rsp, f) ↦
                      rw (f, sync_call)
                        (elim (Bool-cases (is_success rsp.result)) [
                          | inl k ↦ (unmarshal rsp.payload, c', rw k refl, h')
                          | inr k ↦ (none, c', rw k refl, h')
                        ])
                ])
        ])
