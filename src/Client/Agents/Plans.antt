-- ===== src/Client/Agents/Plans.antt =====
-- The plan of an update: what its loops leave.
use nbagent.Base.{
  ℕ, ◌<◌, ◌≤◌, ◌≡◌, refl, ◌∙◌, inl, inr, Option, none, some, List, [], ◌∷◌, arith, Text, text_eq,
  text_beq, text_beq_iff, Dict, find, put, has, Unique, put-Unique, find-put, for_each,
  for_each_inv, if◌then◌else◌, Bool-cases, Option-cases, find-nil,
}
use nbagent.Client.Pool.{AgentInfo, new_pool}
use nbagent.Client.Agents.{
  AgentManager, host_key, init_one, init_pool, keep_same, new_agents, update_map, plan_update,
}

pub find-keep_same :
    (k : Text) (current : Dict Text (Option ℕ)) (told : Dict Text AgentInfo)
    → find k (keep_same current told) ≡ (if has k told then find k current else none)
unfolding keep_same find
find-keep_same k current [] = refl
find-keep_same k current ((j, a) ∷ told) = elim (Option-cases (find j current)) [
  | inl e ↦ rw (e, keep_same) (ground (arith, e, find-keep_same k current told, text_beq_iff j k))
  | inr (q, e) ↦
      rw (e, keep_same)
        (ground (
          arith,
          e,
          find-put k j q (keep_same current told),
          find-keep_same k current told,
          text_beq_iff j k,
        ))
]

pub find-new_agents :
    (k : Text) (current : Dict Text (Option ℕ)) (told : Dict Text AgentInfo)
    → find k (new_agents current told) ≡ (if has k current then none else find k told)
unfolding new_agents find
find-new_agents k current [] = ground arith
find-new_agents k current ((j, a) ∷ told) = ground (
  arith,
  find-put k j a (new_agents current told),
  find-new_agents k current told,
  text_beq_iff j k,
)

new_agents-Unique :
    (current : Dict Text (Option ℕ)) (told : Dict Text AgentInfo) → Unique (new_agents current told)
unfolding new_agents
new_agents-Unique current [] = tt
new_agents-Unique current ((j, a) ∷ told) = ground (
  arith,
  put-Unique j a (new_agents current told) (new_agents-Unique current told),
  new_agents-Unique current told,
)

-- The agents stand under their host keys.
pub update_map-keyed :
    (format : ℕ → Text) (agents : List AgentInfo) (k : Text) (a : AgentInfo)
    → find k (update_map format agents) ≡ some a
    → host_key format a ≡ k
unfolding update_map
update_map-keyed format agents =
    for_each_inv (λ told. (k : Text) (a : AgentInfo) → find k told ≡ some a → host_key format a ≡ k)
      (λ b. put (host_key format b) b)
      (λ b told h k a e.
        ground
          (arith, find-put k (host_key format b) b told, text_beq_iff (host_key format b) k, h k a))
      agents [] (λ k a e. absurd (ground (arith, e, find-nil {V = AgentInfo} k)))

-- What the loop over the new agents leaves.
pub record IsGrown (init max : ℕ) (news : Dict Text AgentInfo) (all_pools : Dict Text (Option ℕ))
    (m : AgentManager) (after : Dict Text (Option ℕ)) (m' : AgentManager) : Type 0 where
  pub others : (k : Text) → find k news ≡ none → find k after ≡ find k all_pools
  pub fresh :
      (k : Text) (a : AgentInfo)
      → find k news ≡ some a
      → (p : ℕ) × (find k after ≡ some (some p))
        × (m.next ≤ p)
        × (p < m'.next)
        × (m'.pools p ≡ record { agent_info = a; pool = new_pool init max })
  pub grown : m.next ≤ m'.next
  pub stored : (p : ℕ) → p < m.next → m'.pools p ≡ m.pools p
  pub same_map : m'.agent_connect_pool ≡ m.agent_connect_pool
  pub same_active : m'.active_agent ≡ m.active_agent

init_loop-IsGrown :
    (init max : ℕ) (news : Dict Text AgentInfo) (all_pools : Dict Text (Option ℕ))
    (m : AgentManager)
    → Unique news
    → let r = for_each (init_one init max) news (all_pools, m) in
      IsGrown init max news all_pools m r.0 r.1
unfolding init_one init_pool find
init_loop-IsGrown init max [] all_pools m u = record {
  others = λ k e. refl;
  fresh = λ k a e. absurd (ground arith);
  grown = omega arith;
  stored = λ p h. refl;
  same_map = refl;
  same_active = refl;
}
init_loop-IsGrown init max ((j, a) ∷ news) all_pools m (absent, u) =
    let one = init_one init max (j, a) (all_pools, m) in
    let rest = init_loop-IsGrown init max news one.0 one.1 u in
    record {
      others = λ k e.
          ground (arith, rest.others k, find-put k j (some m.next) all_pools, text_beq_iff j k);
      fresh = λ k b e. elim (Bool-cases (text_beq j k)) [
        | inl same ↦
            let b-eq-a : b ≡ a = ground (arith, e) in
            let here : find k one.0 ≡ some (some m.next) =
              ground (arith, find-put k j (some m.next) all_pools) in
            let gone : find k news ≡ none = ground (arith, (text_beq_iff j k).0 same, absent) in
            let in_store : m.next < one.1.next = omega arith in
            let at_next : one.1.pools m.next ≡ record { agent_info = a; pool = new_pool init max } =
              ground arith in
            (
              m.next,
              rest.others k gone ∙ here,
              omega arith,
              omega (arith, rest.grown),
              rw b-eq-a (rest.stored m.next in_store ∙ at_next),
            )
        | inr apart ↦
            let later : find k news ≡ some b = ground (arith, e) in
            let (p, found, low, high, at_p) = rest.fresh k b later in
            (p, found, omega (arith, low), high, at_p)
      ];
      grown = omega (arith, rest.grown);
      stored = λ p h. rest.stored p (omega arith) ∙ ground arith;
      same_map = rest.same_map;
      same_active = rest.same_active;
    }

pub plan_update-IsGrown :
    (format : ℕ → Text) (agents : List AgentInfo) (init max : ℕ) (m : AgentManager)
    → let told = update_map format agents in
      let plan = plan_update format agents init max m in
      IsGrown init max
        (new_agents m.agent_connect_pool told)
        (keep_same m.agent_connect_pool told)
        m
        plan.0
        plan.1
unfolding plan_update
plan_update-IsGrown format agents init max m =
    let told = update_map format agents in
    init_loop-IsGrown init max (new_agents m.agent_connect_pool told)
      (keep_same m.agent_connect_pool told) m (new_agents-Unique m.agent_connect_pool told)
