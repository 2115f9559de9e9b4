-- ===== src/Client/Library/Pooled.antt =====
-- No operation of the client comes upon a pool that is nil.
pub mod Callbacks
use nbagent.Base.{
  ℕ, zero, suc, ◌≡◌, refl, ap, ◌∙◌, inl, inr, Bool, true, false, Option, none, some, List, [], ◌∷◌,
  ◌++◌, Text, text_eq, text_beq, leb, if_cases, Bool-cases, Option-cases,
}
use nbagent.Node.Manager.State.{RpcCallReq, RpcCallResp}
use nbagent.Node.Manager.Tasks.{is_success}
use nbagent.Client.Pool.{
  clear_connect, AgentInfo, new_connect, get_connect, is_full_connect, get_connect_num,
}
use nbagent.Client.Agents.{
  AgentManager, get_active_agent_connect_pool, switch_active_agent, update_agent, plan_update,
  switch_to_other_agent, add_goodbye_agent, clear_goodbye_timeout, get_agent,
}
use nbagent.Client.Agents.Goodbyes.{switch-cases}
use nbagent.Client.Agents.Serving.{
  IsServing, set_pool-IsServing, plan_update-IsPlan, swap_pools-IsServing, has-find,
  plan_update-IsServing,
}
use nbagent.Client.Library.{
  Client, Dial, create_connect_and_register, connect_to, get_connect_of, clear_connect_of,
  unregister_self, grow, close, set_pool,
}

switch-IsServing :
    (format : ℕ → Text) (m : AgentManager)
    → IsServing format m
    → IsServing format (switch_active_agent m)
switch-IsServing format m h = elim (switch-cases m) [
  | inl (stays, all) ↦ rw stays h
  | inr (k, goes, inside, good) ↦
      rw goes (record { known = h.known; active = has-find k m.agent_connect_pool inside })
]

pub update-IsServing :
    (format : ℕ → Text) (agents : List AgentInfo) (init max : ℕ) (m : AgentManager)
    → IsServing format m
    → IsServing format (update_agent format agents init max m)
unfolding update_agent
update-IsServing format agents init max m h =
    let plan = plan_update format agents init max m in
    let (is_later, planned) = plan_update-IsPlan format agents init max m h.known in
    (swap_pools-IsServing format plan.0 plan.1 (plan_update-IsServing format agents init max m h)
      planned).0

pub switch_to-IsServing :
    (format : ℕ → Text) (host : Text) (m : AgentManager)
    → IsServing format m
    → IsServing format (switch_to_other_agent host m)
unfolding switch_to_other_agent
switch_to-IsServing format host m h =
    if_cases (IsServing format) (text_beq host m.active_agent) (switch_active_agent m) m
      (λ e. switch-IsServing format m h) (λ e. h)

module _ {ℓ} {H : Type ℓ} (format : ℕ → Text) where
  -- Every agent of the client has its pool.
  abbrev pub IsPooled : Client H → Type 0
  IsPooled c = IsServing format c.agents

  -- The operation does not panic, and keeps the pools.
  abbrev pub Goes : Option (Client H) → Type ℓ
  Goes r = (c : Client H) × (r ≡ some c) × IsPooled c

  abbrev pub GoesWith {κ} : {R : Type κ} → Option (R × Client H) → Type (ℓ ⊔ κ)
  GoesWith {R} r = (x : R) × (c : Client H) × (r ≡ some (x, c)) × IsPooled c

  grow-IsPooled : (p : ℕ) (c : Client H) → IsPooled c → IsPooled (grow p c)
  grow-IsPooled p c h =
      if_cases IsPooled (is_full_connect (c.agents.pools p).pool) _ _ (λ e. h) (λ e. h)

  pub create-IsPooled :
      (p : ℕ) (dial : Dial) (c : Client H)
      → IsPooled c
      → IsPooled (create_connect_and_register format p dial c).1
  unfolding create_connect_and_register
  create-IsPooled p dial c h =
      elim (Option-cases (new_connect format (c.agents.pools p).agent_info dial.now dial.dialled)) [
        | inl e ↦ rw (e, create_connect_and_register) h
        | inr (info, e) ↦ elim (Bool-cases dial.registered) [
          | inl f ↦
              rw (e, create_connect_and_register)
                (rw f (set_pool-IsServing format p _ c.agents h).0)
          | inr f ↦ rw (e, create_connect_and_register) (rw f h)
        ]
      ]

  connect_to-IsPooled :
      (p : ℕ) (dial : Dial) (c : Client H) → IsPooled c → IsPooled (connect_to format p dial c).1
  unfolding connect_to
  connect_to-IsPooled p dial c h =
      let c' = (create_connect_and_register format p dial c).1 in
      let h' = create-IsPooled p dial c h in
      elim (Option-cases (get_connect (c.agents.pools p).pool)) [
        | inr (info, e) ↦ rw (e, connect_to) (grow-IsPooled p c h)
        | inl e ↦ elim (Option-cases (create_connect_and_register format p dial c).0) [
          | inr (info, f) ↦ rw (e, connect_to) (rw (f, connect_to) (grow-IsPooled p c' h'))
          | inl f ↦
              rw (e, connect_to)
                (rw (f, connect_to)
                  (elim (Bool-cases (leb (get_connect_num (c'.agents.pools p).pool) 0)) [
                    | inl g ↦ rw g (switch-IsServing format c'.agents h')
                    | inr g ↦ rw g h'
                  ]))
        ]
      ]

  -- The active agent has a pool.
  pub active_pool :
      (c : Client H)
      → IsPooled c
      → (p : ℕ) × (get_active_agent_connect_pool c.agents ≡ some (some p))
  unfolding get_active_agent_connect_pool
  active_pool c h =
      let (q, found) = h.active in
      let (p, same, low, key) = h.known c.agents.active_agent q found in (p, found ∙ ap some same)

  pub get_connect_of-Goes :
      (dial : Dial) (c : Client H) → IsPooled c → GoesWith (get_connect_of format dial c)
  unfolding get_connect_of
  get_connect_of-Goes dial c h =
      let (p, found) = active_pool c h in
      let r = connect_to format p dial c in
      (r.0, r.1, rw (found, get_connect_of) refl, connect_to-IsPooled p dial c h)
