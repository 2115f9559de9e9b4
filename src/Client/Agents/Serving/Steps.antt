-- ===== src/Client/Agents/Serving/Steps.antt =====
-- The operations of the agents in any order, those of two locks interleaved.
use nbagent.Base.{
  ℕ, zero, suc, ◌≡◌, ap, ◌∙◌, inl, Option, some, List, [], ◌∷◌, arith, Text, text_eq, Dict, find,
  get_elem?, subst,
}
use nbagent.Client.Pool.{AgentInfo, ConnectionPool}
use nbagent.Client.Agents.{
  AgentManager, host_key, add_new, start_agents, delete_agent, plan_update, swap_pools, set_active,
  add_goodbye_agent, clear_goodbye_timeout, get_active_agent_connect_pool,
}
use nbagent.Client.Agents.Serving.{
  IsPlan, IsServing, set_pool, later-IsPlan, plan_update-IsPlan, delete_agent-IsServing,
  swap_pools-IsServing, set_pool-IsServing, plan_update-IsServing,
}
use nbagent.Client.Agents.Serving.Adds.{add_new-IsServing, start_agents-IsServing}

-- The manager, and the plans of the updates that have not taken the lock yet.
pub record Running : Type 0 where
  pub manager : AgentManager
  pub plans : List (Dict Text (Option ℕ))

-- One step under the lock. A switch takes the lock twice: the step is the second time, and the agent
-- that it chose is still there.
pub data Step (format : ℕ → Text) : Running → Running → Type 0 where
  added :
      (agent : AgentInfo) (init max : ℕ) (r : Running)
      → Step format r (record r { manager = add_new format init max agent r.manager })
  deleted :
      (key : Text) (r : Running)
      → Step format r (record r { manager = (delete_agent key r.manager).1 })
  planned :
      (agents : List AgentInfo) (init max : ℕ) (r : Running)
      → Step format r (record {
        manager = (plan_update format agents init max r.manager).1;
        plans = (plan_update format agents init max r.manager).0 ∷ r.plans;
      })
  swapped :
      (i : ℕ) (plan : Dict Text (Option ℕ)) (r : Running)
      → get_elem? r.plans i ≡ some plan
      → Step format r (record r { manager = swap_pools plan r.manager })
  switched :
      (key : Text) (q : Option ℕ) (r : Running)
      → find key r.manager.agent_connect_pool ≡ some q
      → Step format r (record r { manager = set_active (some key) r.manager })
  said_goodbye :
      (now : ℕ) (host : Text) (r : Running)
      → Step format r (record r { manager = (add_goodbye_agent now host r.manager).1 })
  cleared :
      (now : ℕ) (r : Running)
      → Step format r (record r { manager = clear_goodbye_timeout now r.manager })
  changed :
      (p : ℕ) (pool : ConnectionPool) (r : Running)
      → Step format r (record r { manager = set_pool p pool r.manager })

pub data Reach (format : ℕ → Text) (r : Running) : Running → Type 0 where
  here : Reach format r r
  later : {r' r'' : Running} → Reach format r r' → Step format r' r'' → Reach format r r''

pub record IsRunning (format : ℕ → Text) (r : Running) : Type 0 where
  pub serving : IsServing format r.manager
  pub valid :
      (i : ℕ) (plan : Dict Text (Option ℕ))
      → get_elem? r.plans i ≡ some plan
      → IsPlan format r.manager plan

cons-valid :
    (format : ℕ → Text) (m : AgentManager) (first : Dict Text (Option ℕ))
    (plans : List (Dict Text (Option ℕ)))
    → IsPlan format m first
    → ((i : ℕ) (plan : Dict Text (Option ℕ)) → get_elem? plans i ≡ some plan → IsPlan format m plan)
    → (i : ℕ) (plan : Dict Text (Option ℕ)) → get_elem? (first ∷ plans) i ≡ some plan
    → IsPlan format m plan
cons-valid format m first plans h rest zero plan e =
    let same : first ≡ plan = cc e in subst (IsPlan format m) same h
cons-valid format m first plans h rest (suc i) plan e = rest i plan e

Step-IsRunning :
    {format : ℕ → Text} {r r' : Running}
    → Step format r r'
    → IsRunning format r
    → IsRunning format r'
unfolding set_active add_goodbye_agent clear_goodbye_timeout
Step-IsRunning {format} (added agent init max r) h =
    let (serving, valid) =
      add_new-IsServing format init max agent r.manager h.serving.known (inl h.serving.active) in
    record { serving = serving; valid = λ i plan e. valid plan (h.valid i plan e) }
Step-IsRunning {format} (deleted key r) h =
    let (serving, valid) = delete_agent-IsServing format key r.manager h.serving in
    record { serving = serving; valid = λ i plan e. valid plan (h.valid i plan e) }
Step-IsRunning {format} (planned agents init max r) h =
    let m = r.manager in
    let m' = (plan_update format agents init max m).1 in
    let (is_later, plan-IsPlan) = plan_update-IsPlan format agents init max m h.serving.known in
    record {
      serving = plan_update-IsServing format agents init max m h.serving;
      valid =
          cons-valid format m' _ r.plans plan-IsPlan
            (λ i plan e. later-IsPlan format m m' plan is_later (h.valid i plan e));
    }
Step-IsRunning {format} (swapped i plan r e) h =
    let (serving, valid) =
      swap_pools-IsServing format plan r.manager h.serving (h.valid i plan e) in
    record { serving = serving; valid = λ j other f. valid other (h.valid j other f) }
Step-IsRunning {format} (switched key q r e) h = record {
  serving = record { known = h.serving.known; active = (q, e) };
  valid = h.valid;
}
Step-IsRunning {format} (said_goodbye now host r) h = record {
  serving = record { known = h.serving.known; active = h.serving.active };
  valid = h.valid;
}
Step-IsRunning {format} (cleared now r) h = record {
  serving = record { known = h.serving.known; active = h.serving.active };
  valid = h.valid;
}
Step-IsRunning {format} (changed p pool r) h =
    let (serving, valid) = set_pool-IsServing format p pool r.manager h.serving in
    record { serving = serving; valid = λ i plan e. valid plan (h.valid i plan e) }

Reach-IsRunning :
    {format : ℕ → Text} {r r' : Running}
    → Reach format r r'
    → IsRunning format r
    → IsRunning format r'
Reach-IsRunning here h = h
Reach-IsRunning (later reach s) h = Step-IsRunning s (Reach-IsRunning reach h)

-- However a client that started with its agents goes on, adding, deleting and updating agents,
-- switching to one that is still there, taking goodbyes, and changing the connections of its pools,
-- with an update finished whenever it takes the lock: the active agent has a pool, not nil, which is
-- the pool of an agent of that very address.
pub active_agent_has_pool :
    (format : ℕ → Text) (agents : List AgentInfo) (init max timeout : ℕ) (m : AgentManager)
    (r : Running)
    → start_agents format agents init max timeout ≡ some m
    → Reach format (record { manager = m; plans = [] }) r
    → (p : ℕ) × (get_active_agent_connect_pool r.manager ≡ some (some p))
      × (host_key format (r.manager.pools p).agent_info ≡ r.manager.active_agent)
unfolding get_active_agent_connect_pool
active_agent_has_pool format agents init max timeout m r e reach =
    let s =
      (Reach-IsRunning reach (record {
        serving = start_agents-IsServing format agents init max timeout m e;
        valid = λ i plan f. absurd (ground arith);
      })).serving in
    let (q, found) = s.active in
    let (p, same, low, key) = s.known r.manager.active_agent q found in
    (p, found ∙ ap some same, key)
