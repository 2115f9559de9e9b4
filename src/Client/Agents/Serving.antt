-- ===== src/Client/Agents/Serving.antt =====
-- Every operation of the agents keeps the active agent among those with a pool.
pub mod Adds
pub mod Steps
use nbagent.Base.{
  ℕ, zero, remove, suc, ◌<◌, ◌≤◌, ◌≡◌, ◌≢◌, refl, sym, ap, ◌∙◌, ◌⊎◌, inl, inr, Bool, true, false,
  ◌||◌, not, ◌&&◌, Option, none, some, List, [], ◌∷◌, arith, Text, text_eq, text_beq, text_beq_iff,
  nat_beq, if_cases, Dict, find, put, has, find-put, find-remove, get_elem?, for_each, for_each_inv,
  update, is_some, if◌then◌else◌, Bool-cases, Option-cases, find-nil, subst, length,
}
use nbagent.Client.Pool.{AgentInfo, ConnectionPool, new_pool, make_host_key_by_ip_port}
use nbagent.Client.Agents.{
  AgentManager, AgentConnectPoolInfo, host_key, init_pool, add_agent, add_new, no_agents,
  start_agents, delete_agent, keep_same, new_agents, update_map, plan_update, swap_pools,
  choose_agent, set_active, add_goodbye_agent, clear_goodbye_timeout, get_active_agent_connect_pool,
  pool_of,
}
use nbagent.Client.Agents.Plans.{
  find-keep_same, find-new_agents, update_map-keyed, IsGrown, plan_update-IsGrown,
}
use nbagent.Client.Agents.Updates.{find-swap_pools, swap_pools-same}

-- A pointer to a pool that exists, of the agent of that key.
abbrev pub IsPool : (ℕ → Text) → AgentManager → Text → Option ℕ → Type 0
IsPool format m k q =
    (p : ℕ) × (q ≡ some p) × (p < m.next) × (host_key format (m.pools p).agent_info ≡ k)

abbrev pub IsPlan : (ℕ → Text) → AgentManager → Dict Text (Option ℕ) → Type 0
IsPlan format m plan = (k : Text) (q : Option ℕ) → find k plan ≡ some q → IsPool format m k q

-- Every agent has a pool of its own address, and the active agent is one of them.
pub record IsServing (format : ℕ → Text) (m : AgentManager) : Type 0 where
  pub known : IsPlan format m m.agent_connect_pool
  pub active : (q : Option ℕ) × (find m.active_agent m.agent_connect_pool ≡ some q)

-- The connections of a pool change.
abbrev pub set_pool : ℕ → ConnectionPool → AgentManager → AgentManager
set_pool p pool m = record m { pools = update m.pools p (record (m.pools p) { pool = pool }) }

-- The store grows, and a pool keeps its agent.
abbrev pub IsLater : AgentManager → AgentManager → Type 0
IsLater m m' =
    (m.next ≤ m'.next) × ((p : ℕ) → p < m.next → (m'.pools p).agent_info ≡ (m.pools p).agent_info)

pub later-IsPlan :
    (format : ℕ → Text) (m m' : AgentManager) (plan : Dict Text (Option ℕ))
    → IsLater m m'
    → IsPlan format m plan
    → IsPlan format m' plan
later-IsPlan format m m' plan (grown, kept) h k q e =
    let (p, same, low, key) = h k q e in
    (p, same, omega (arith, grown, low), ap (host_key format) (kept p low) ∙ key)

pub plan_update-IsPlan :
    (format : ℕ → Text) (agents : List AgentInfo) (init max : ℕ) (m : AgentManager)
    → IsPlan format m m.agent_connect_pool
    → IsLater m (plan_update format agents init max m).1
      × IsPlan format
          (plan_update format agents init max m).1
          (plan_update format agents init max m).0
plan_update-IsPlan format agents init max m h =
    let told = update_map format agents in
    let g = plan_update-IsGrown format agents init max m in
    let news = λ (k : Text). find-new_agents k m.agent_connect_pool told in
    let is_later : IsLater m (plan_update format agents init max m).1 =
      (g.grown, λ p low. ap (λ i. i.agent_info) (g.stored p low)) in
    (
      is_later,
      λ k q e. elim (Option-cases (find k (new_agents m.agent_connect_pool told))) [
        | inl absent ↦
            let old : find k m.agent_connect_pool ≡ some q =
              ground (arith, g.others k absent, find-keep_same k m.agent_connect_pool told, e) in
            later-IsPlan format m (plan_update format agents init max m).1 m.agent_connect_pool
              is_later h k q old
        | inr (a, new) ↦
            let (p, found, low, high, at_p) = g.fresh k a new in
            let is_told : find k told ≡ some a = ground (arith, news k, new) in
            let q-eq : q ≡ some p = ground (arith, e, found) in
            (
              p,
              q-eq,
              high,
              ap (λ i. host_key format i.agent_info) at_p
                  ∙ update_map-keyed format agents k a is_told,
            )
      ],
    )

pub has-find :
    (k : Text) (d : Dict Text (Option ℕ)) → has k d ≡ true → (q : Option ℕ) × (find k d ≡ some q)
has-find k d e = elim (Option-cases (find k d)) [
  | inl f ↦ absurd (ground arith)
  | inr found ↦ found
]

pub delete_agent-IsServing :
    (format : ℕ → Text) (key : Text) (m : AgentManager)
    → IsServing format m
    → IsServing format (delete_agent key m).1
      × ((plan : Dict Text (Option ℕ))
          → IsPlan format m plan
          → IsPlan format (delete_agent key m).1 plan)
unfolding delete_agent
delete_agent-IsServing format key m h = elim (Bool-cases (text_beq m.active_agent key)) [
  | inl e ↦ rw e (h, λ plan v. v)
  | inr e ↦ elim (Bool-cases (has key m.agent_connect_pool)) [
    | inr f ↦ rw (e, f) (h, λ plan v. v)
    | inl f ↦
        rw (e, f)
          (
            record {
              known =
                  λ k q g. h.known k q (ground (arith, g, find-remove k key m.agent_connect_pool));
              active = (
                h.active.0,
                ground (
                  arith,
                  h.active.1,
                  find-remove m.active_agent key m.agent_connect_pool,
                  text_beq_iff m.active_agent key,
                  text_beq_iff key m.active_agent,
                ),
              );
            },
            λ plan v. v,
          )
  ]
]

pub swap_pools-IsServing :
    (format : ℕ → Text) (plan : Dict Text (Option ℕ)) (m : AgentManager)
    → IsServing format m
    → IsPlan format m plan
    → IsServing format (swap_pools plan m)
      × ((other : Dict Text (Option ℕ))
          → IsPlan format m other
          → IsPlan format (swap_pools plan m) other)
swap_pools-IsServing format plan m h v =
    let (stays, pools, next) = swap_pools-same plan m in
    let is_later : IsLater m (swap_pools plan m) =
      (omega (arith, next), λ p low. ap (λ s. (s p).agent_info) pools) in
    let keeps = λ (other : Dict Text (Option ℕ)) (w : IsPlan format m other).
      later-IsPlan format m (swap_pools plan m) other is_later w in
    let (q0, found) = h.active in
    let at_active = find-swap_pools m.active_agent plan m in
    let inside : has m.active_agent (swap_pools plan m).agent_connect_pool ≡ true =
      ground (arith, at_active, found, text_beq_iff m.active_agent m.active_agent) in
    (
      record {
        known = λ k q e. elim (Option-cases (find k plan)) [
          | inr (w, f) ↦
              let same : find k plan ≡ some q =
                ground (arith, e, f, find-swap_pools k plan m, text_beq_iff m.active_agent k) in
              keeps plan v k q same
          | inl f ↦
              let same : find k m.agent_connect_pool ≡ some q =
                ground
                  (arith, e, f, find-swap_pools k plan m, text_beq_iff m.active_agent k, found) in
              keeps m.agent_connect_pool h.known k q same
        ];
        active = has-find (swap_pools plan m).active_agent _ (rw stays inside);
      },
      keeps,
    )

pub set_pool-IsServing :
    (format : ℕ → Text) (p : ℕ) (pool : ConnectionPool) (m : AgentManager)
    → IsServing format m
    → IsServing format (set_pool p pool m)
      × ((plan : Dict Text (Option ℕ))
          → IsPlan format m plan
          → IsPlan format (set_pool p pool m) plan)
set_pool-IsServing format p pool m h =
    let is_later : IsLater m (set_pool p pool m) = (omega arith, λ i low. ground arith) in
    let keeps = λ (plan : Dict Text (Option ℕ)) (v : IsPlan format m plan).
      later-IsPlan format m (set_pool p pool m) plan is_later v in
    (record { known = keeps m.agent_connect_pool h.known; active = h.active }, keeps)

pub plan_update-IsServing :
    (format : ℕ → Text) (agents : List AgentInfo) (init max : ℕ) (m : AgentManager)
    → IsServing format m
    → IsServing format (plan_update format agents init max m).1
plan_update-IsServing format agents init max m h =
    let m' = (plan_update format agents init max m).1 in
    let g = plan_update-IsGrown format agents init max m in
    let (is_later, planned) = plan_update-IsPlan format agents init max m h.known in
    record {
      known = rw g.same_map (later-IsPlan format m m' m.agent_connect_pool is_later h.known);
      active = rw (g.same_map, g.same_active) h.active;
    }
