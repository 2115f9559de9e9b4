-- ===== src/Client/Library/Run.antt =====
-- The client as a whole: what happens to it, one thing at a time.
use nbagent.Base.{
  ℕ, ◌≡◌, refl, ap, Bool, Option, none, some, List, [], ◌∷◌, Text, Option-cases, inl, inr, arith,
}
use nbagent.Node.Manager.State.{RpcCallReq, RpcCallResp}
use nbagent.Client.Pool.{AgentInfo}
use nbagent.Client.Agents.{start_agents}
use nbagent.Client.Agents.Serving.Adds.{start_agents-IsServing}
use nbagent.Client.Library.{
  Client, Dial, new_client, handle_rpc, grow_later, clear_connect_of, unregister_self,
}
use nbagent.Client.Library.Callbacks.{
  create_agent_idle_connect, timer, handle_say_goodbye_notify, sync_call,
}
use nbagent.Client.Library.Pooled.{IsPooled, Goes, create-IsPooled}
use nbagent.Client.Library.Pooled.Callbacks.{
  clear_connect_of-Goes, unregister_self-Goes, create_idle-Goes, timer-Goes, goodbye-Goes,
  sync_call-Goes,
}

-- `started` and `stopped` are the parts of `Start` before and behind its loop, `ticked` its timer.
pub data Event {ℓ} (H : Type ℓ) : Type ℓ where
  handled : Text → H → Event H
  started : (ℕ → Dial) → Dial → Bool → Event H
  stopped : Dial → Bool → Event H
  ticked : Dial → Option (List AgentInfo) → ℕ → Event H
  grew : ℕ → Dial → Event H
  was_closed : ℕ → Event H
  said_goodbye : ℕ → Text → (ℕ → Dial) → Dial → Bool → Event H
  called : Dial → (ℕ → RpcCallReq → Option RpcCallResp) → Text → List ℕ → Event H

abbrev second {ℓ κ} : {A : Type ℓ} {C : Type κ} → Option (A × C) → Option C
second none = none
second (some (a, c)) = some c

module _ {ℓ} {H : Type ℓ} (format : ℕ → Text) where
  unfoldable pub step : Event H → Client H → Option (Client H)
  unfolding handle_rpc grow_later
  step (handled uri handler) c = some (handle_rpc uri handler c)
  step (started dials last written) c =
      second (create_agent_idle_connect format dials last written c)
  step (stopped dial written) c = unregister_self format dial written c
  step (ticked dial rsp now) c = timer format dial rsp now c
  step (grew p dial) c = some (grow_later format p dial c)
  step (was_closed conn) c = clear_connect_of conn c
  step (said_goodbye now host dials last written) c =
      handle_say_goodbye_notify format now host dials last written c
  step (called dial answers uri msg) c =
      second (sync_call (λ bytes. some bytes) format dial answers uri msg c)

  unfoldable pub run : List (Event H) → Client H → Option (Client H)
  unfolding step
  run [] c = some c
  run (e ∷ es) c = elim (step e c) [ none ↦ none | some c' ↦ run es c' ]

  step-Goes : (e : Event H) (c : Client H) → IsPooled format c → Goes format (step e c)
  unfolding step handle_rpc grow_later
  step-Goes (handled uri handler) c h = (handle_rpc uri handler c, refl, h)
  step-Goes (started dials last written) c h =
      let (ok, c', e, h') = create_idle-Goes format dials last written c h in (c', ap second e, h')
  step-Goes (stopped dial written) c h = unregister_self-Goes format dial written c h
  step-Goes (ticked dial rsp now) c h = timer-Goes format dial rsp now c h
  step-Goes (grew p dial) c h =
      (grow_later format p dial c, refl, create-IsPooled format p dial c h)
  step-Goes (was_closed conn) c h = clear_connect_of-Goes format conn c h
  step-Goes (said_goodbye now host dials last written) c h =
      goodbye-Goes format now host dials last written c h
  step-Goes (called dial answers uri msg) c h =
      let (r, c', e, h') = sync_call-Goes format (λ bytes. some bytes) dial answers uri msg c h in
      (c', ap second e, h')

  run-Goes : (es : List (Event H)) (c : Client H) → IsPooled format c → Goes format (run es c)
  unfolding run
  run-Goes [] c h = (c, refl, h)
  run-Goes (e ∷ es) c h = let (c', f, h') = step-Goes e c h in rw (f, run) (run-Goes es c' h')

  -- A client made from a list of agents never comes upon a pool that is nil, whatever happens to it,
  -- one thing after the other, and however the network answers: after any events it still runs,
  -- every agent that it knows has a pool of its address, and the active agent is one of them.
  pub client_never_panics :
      (uuid : Text) (agents : List AgentInfo) (init max timeout : ℕ) (c : Client H)
      (events : List (Event H))
      → new_client format uuid agents init max timeout ≡ some c
      → Goes format (run events c)
  unfolding new_client
  client_never_panics uuid agents init max timeout c events e =
      elim (Option-cases (start_agents format agents init max timeout)) [
        | inl f ↦ absurd (ground (arith, e, f))
        | inr (m, f) ↦
            let same : c.agents ≡ m = ground (arith, e, f) in
            run-Goes events c (rw same (start_agents-IsServing format agents init max timeout m f))
      ]
