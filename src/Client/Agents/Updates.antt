-- ===== src/Client/Agents/Updates.antt =====
-- Which agents `UpdateAgent` keeps, and with which pools.
use nbagent.Base.{
  ℕ, ◌<◌, ◌≤◌, ◌≡◌, refl, ap, ◌∙◌, inl, inr, true, ◌||◌, not, ◌&&◌, elem, map, Option, none, some,
  List, [], ◌∷◌, arith, Text, text_eq, text_beq, text_beq_iff, Dict, find, put, has, find-put,
  for_each, if◌then◌else◌, Bool-cases, Option-cases,
}
use nbagent.Client.Pool.{AgentInfo, new_pool}
use nbagent.Client.Agents.{
  AgentManager, host_key, update_map, plan_update, swap_pools, update_agent, pool_of,
}
use nbagent.Client.Agents.Plans.{
  find-keep_same, find-new_agents, update_map-keyed, plan_update-IsGrown,
}

has-update_loop :
    (format : ℕ → Text) (agents : List AgentInfo) (k : Text) (told : Dict Text AgentInfo)
    → has k (for_each (λ a. put (host_key format a) a) agents told)
      ≡ (has k told || elem k (map (host_key format) agents))
has-update_loop format [] k told = ground arith
has-update_loop format (a ∷ agents) k told = ground (
  arith,
  has-update_loop format agents k (put (host_key format a) a told),
  find-put k (host_key format a) a told,
)

has-update_map :
    (format : ℕ → Text) (agents : List AgentInfo) (k : Text)
    → has k (update_map format agents) ≡ elem k (map (host_key format) agents)
unfolding update_map find
has-update_map format agents k = has-update_loop format agents k []

-- The plan holds the agents told of, those with a pool under their pool.
plan-has :
    (format : ℕ → Text) (agents : List AgentInfo) (init max : ℕ) (m : AgentManager) (k : Text)
    → (has k (plan_update format agents init max m).0 ≡ has k (update_map format agents))
      × ((q : Option ℕ)
          → find k m.agent_connect_pool ≡ some q
          → has k (update_map format agents) ≡ true
          → find k (plan_update format agents init max m).0 ≡ some q)
plan-has format agents init max m k =
    let told = update_map format agents in
    let g = plan_update-IsGrown format agents init max m in
    let same = find-keep_same k m.agent_connect_pool told in
    let news = find-new_agents k m.agent_connect_pool told in
    elim (Option-cases (find k m.agent_connect_pool)) [
      | inr (q, e) ↦ ground (arith, e, g.others k, same, news)
      | inl e ↦ elim (Option-cases (find k told)) [
        | inl f ↦ ground (arith, e, f, g.others k, same, news)
        | inr (a, f) ↦
            let (p, found, low, high, at_p) = g.fresh k a (news ∙ rw e f) in
            ground (arith, e, f, found)
      ]
    ]

pub find-swap_pools :
    (k : Text) (all_pools : Dict Text (Option ℕ)) (m : AgentManager)
    → find k (swap_pools all_pools m).agent_connect_pool ≡ (
        if not (has m.active_agent all_pools) && text_beq m.active_agent k
        then some (pool_of m.active_agent m.agent_connect_pool)
        else find k all_pools)
unfolding swap_pools
find-swap_pools k all_pools m =
    ground
      (arith, find-put k m.active_agent (pool_of m.active_agent m.agent_connect_pool) all_pools)

pub swap_pools-same :
    (all_pools : Dict Text (Option ℕ)) (m : AgentManager)
    → ((swap_pools all_pools m).active_agent ≡ m.active_agent)
      × ((swap_pools all_pools m).pools ≡ m.pools)
      × ((swap_pools all_pools m).next ≡ m.next)
unfolding swap_pools
swap_pools-same all_pools m = elim (Bool-cases (has m.active_agent all_pools)) [
  | inl e ↦ rw e (refl, refl, refl)
  | inr e ↦ rw e (refl, refl, refl)
]

find_update :
    (format : ℕ → Text) (agents : List AgentInfo) (init max : ℕ) (m : AgentManager) (k : Text)
    → let plan = (plan_update format agents init max m).0 in
      find k (update_agent format agents init max m).agent_connect_pool ≡ (
        if not (has m.active_agent plan) && text_beq m.active_agent k
        then some (pool_of m.active_agent m.agent_connect_pool)
        else find k plan)
unfolding update_agent
find_update format agents init max m k =
    let plan = plan_update format agents init max m in
    let g = plan_update-IsGrown format agents init max m in
    find-swap_pools k plan.0 plan.1 ∙ rw (g.same_active, g.same_map) refl

-- An update that nothing interrupts keeps the agents that it is told of and the active agent, and no
-- others. An agent that was known keeps its pool, a new one gets a new empty pool with the limits
-- given, and the other pools stay as they are.
pub update_agent_lem :
    (format : ℕ → Text) (agents : List AgentInfo) (init max : ℕ) (m : AgentManager) (k : Text)
    → let m' = update_agent format agents init max m in
      (m'.active_agent ≡ m.active_agent)
      × (has k m'.agent_connect_pool
          ≡ (elem k (map (host_key format) agents) || text_beq m.active_agent k))
      × ((q : Option ℕ)
          → find k m.agent_connect_pool ≡ some q
          → has k m'.agent_connect_pool ≡ true
          → find k m'.agent_connect_pool ≡ some q)
      × (find k m.agent_connect_pool ≡ none
          → elem k (map (host_key format) agents) ≡ true
          → (p : ℕ) × (a : AgentInfo) × (find k m'.agent_connect_pool ≡ some (some p))
            × (m.next ≤ p)
            × (host_key format a ≡ k)
            × (m'.pools p ≡ record { agent_info = a; pool = new_pool init max }))
      × ((p : ℕ) → p < m.next → m'.pools p ≡ m.pools p)
unfolding update_agent
update_agent_lem format agents init max m k =
    let told = update_map format agents in
    let plan = plan_update format agents init max m in
    let g = plan_update-IsGrown format agents init max m in
    let (stays, same_pools, same_next) = swap_pools-same plan.0 plan.1 in
    let at_k = find_update format agents init max m k in
    let (listed, old) = plan-has format agents init max m k in
    let (active_listed, active_old) = plan-has format agents init max m m.active_agent in
    (
      stays ∙ g.same_active,
      ground (
        arith,
        at_k,
        listed,
        active_listed,
        has-update_map format agents k,
        text_beq_iff m.active_agent k,
      ),
      λ q e inside. ground (arith, at_k, listed, old q e, e, inside, text_beq_iff m.active_agent k),
      λ e inside. elim (Option-cases (find k told)) [
        | inl f ↦ ground (arith, has-update_map format agents k)
        | inr (a, f) ↦
            let (p, found, low, high, at_p) =
              g.fresh k a (find-new_agents k m.agent_connect_pool told ∙ rw e f) in
            let kept : find k (update_agent format agents init max m).agent_connect_pool
                ≡ some (some p) =
              ground (arith, at_k, found, text_beq_iff m.active_agent k) in
            (p, a, kept, low, update_map-keyed format agents k a f, ap (λ s. s p) same_pools ∙ at_p)
      ],
      λ p h. ap (λ s. s p) same_pools ∙ g.stored p h,
    )
