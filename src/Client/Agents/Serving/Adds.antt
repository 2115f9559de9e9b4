-- ===== src/Client/Agents/Serving/Adds.antt =====
-- Adding an agent, and the start of a client.
use nbagent.Base.{
  ℕ, ◌<◌, ◌≡◌, refl, sym, ap, ◌∙◌, ◌⊎◌, inl, inr, true, Option, some, List, [], ◌∷◌, arith, Text,
  text_eq, text_beq, text_beq_iff, if_cases, Dict, find, put, has, find-put, for_each, for_each_inv,
  if◌then◌else◌, Bool-cases, subst,
}
use nbagent.Client.Pool.{AgentInfo}
use nbagent.Client.Agents.{
  AgentManager, host_key, init_pool, add_agent, add_new, no_agents, start_agents,
}
use nbagent.Client.Agents.Serving.{IsPlan, IsServing, IsLater, later-IsPlan, has-find}

-- `add_agent` field by field.
add_agent_fields :
    (format : ℕ → Text) (p : ℕ) (m : AgentManager)
    → let key = host_key format (m.pools p).agent_info in
      let m' = (add_agent format p m).1 in
      (m'.active_agent ≡ (if text_beq m.active_agent [] then key else m.active_agent))
      × (m'.agent_connect_pool ≡ (
          if has key m.agent_connect_pool
          then m.agent_connect_pool
          else put key (some p) m.agent_connect_pool))
      × (m'.pools ≡ m.pools)
      × (m'.next ≡ m.next)
unfolding add_agent
add_agent_fields format p m =
    let key = host_key format (m.pools p).agent_info in
    elim (Bool-cases (text_beq m.active_agent [])) [
      | inl e ↦ elim (Bool-cases (has key m.agent_connect_pool)) [
        | inl f ↦ rw (e, f) (refl, refl, refl, refl)
        | inr f ↦ rw (e, f) (refl, refl, refl, refl)
      ]
      | inr e ↦ elim (Bool-cases (has key m.agent_connect_pool)) [
        | inl f ↦ rw (e, f) (refl, refl, refl, refl)
        | inr f ↦ rw (e, f) (refl, refl, refl, refl)
      ]
    ]

-- Adding a pool that exists: what was known stays known, and if no agent was active, this one is.
add_agent-IsServing :
    (format : ℕ → Text) (p : ℕ) (m : AgentManager)
    → p < m.next
    → IsPlan format m m.agent_connect_pool
    → ((q : Option ℕ) × (find m.active_agent m.agent_connect_pool ≡ some q)) ⊎ (m.active_agent ≡ [])
    → IsLater m (add_agent format p m).1 × IsServing format (add_agent format p m).1
add_agent-IsServing format p m low h a =
    let key = host_key format (m.pools p).agent_info in
    let m' = (add_agent format p m).1 in
    let (active, all_pools, pools, next) = add_agent_fields format p m in
    let is_later : IsLater m m' = (omega (arith, next), λ i l. ap (λ s. (s i).agent_info) pools) in
    let old = later-IsPlan format m m' m.agent_connect_pool is_later h in
    let grown : IsPlan format m' (put key (some p) m.agent_connect_pool) = λ k q e.
      elim (Bool-cases (text_beq key k)) [
        | inl same ↦
            let q-eq : q ≡ some p =
              ground (arith, e, find-put k key (some p) m.agent_connect_pool) in
            (
              p,
              q-eq,
              omega (arith, low, next),
              ap (λ s. host_key format (s p).agent_info) pools ∙ (text_beq_iff key k).0 same,
            )
        | inr apart ↦
            let before : find k m.agent_connect_pool ≡ some q =
              ground (arith, e, find-put k key (some p) m.agent_connect_pool) in
            old k q before
      ] in
    let inside : has (if text_beq m.active_agent [] then key else m.active_agent) (
          if has key m.agent_connect_pool
          then m.agent_connect_pool
          else put key (some p) m.agent_connect_pool)
        ≡ true =
      elim a [
        | inl (q, e) ↦ ground (
          arith,
          e,
          find-put m.active_agent key (some p) m.agent_connect_pool,
          find-put key key (some p) m.agent_connect_pool,
          text_beq_iff key key,
        )
        | inr e ↦ ground (
          arith,
          find-put key key (some p) m.agent_connect_pool,
          text_beq_iff key key,
          text_beq_iff m.active_agent [],
        )
      ] in
    (
      is_later,
      record {
        known = subst (IsPlan format m') (sym all_pools) (
            if_cases (IsPlan format m') (has key m.agent_connect_pool) _ _ (λ e. old) (λ e. grown));
        active = has-find m'.active_agent m'.agent_connect_pool (rw (active, all_pools) inside);
      },
    )

pub add_new-IsServing :
    (format : ℕ → Text) (init max : ℕ) (agent : AgentInfo) (m : AgentManager)
    → IsPlan format m m.agent_connect_pool
    → ((q : Option ℕ) × (find m.active_agent m.agent_connect_pool ≡ some q)) ⊎ (m.active_agent ≡ [])
    → IsServing format (add_new format init max agent m)
      × ((plan : Dict Text (Option ℕ))
          → IsPlan format m plan
          → IsPlan format (add_new format init max agent m) plan)
unfolding add_new init_pool
add_new-IsServing format init max agent m h a =
    let m1 = (init_pool agent init max m).1 in
    let m2 = (add_agent format m.next m1).1 in
    let is_later : IsLater m m1 = (omega arith, λ p low. ground arith) in
    let (later', serving) =
      add_agent-IsServing format m.next m1 (omega arith)
        (later-IsPlan format m m1 m.agent_connect_pool is_later h) a in
    (
      serving,
      λ plan v. later-IsPlan format m1 m2 plan later' (later-IsPlan format m m1 plan is_later v),
    )

pub start_agents-IsServing :
    (format : ℕ → Text) (agents : List AgentInfo) (init max timeout : ℕ) (m : AgentManager)
    → start_agents format agents init max timeout ≡ some m
    → IsServing format m
unfolding start_agents find
start_agents-IsServing format [] init max timeout m e = absurd (ground (arith, e))
start_agents-IsServing format (a ∷ agents) init max timeout m e =
    let first =
      (add_new-IsServing format init max a (no_agents timeout) (λ k q f. absurd (ground arith))
        (inr refl)).0 in
    let all =
      for_each_inv (IsServing format) (add_new format init max)
        (λ b s h. (add_new-IsServing format init max b s h.known (inl h.active)).0) agents
        (add_new format init max a (no_agents timeout)) first in
    let same : for_each (add_new format init max) (a ∷ agents) (no_agents timeout) ≡ m =
      ground (arith, e) in
    subst (IsServing format) same all
