-- ===== src/Client/Agents/Goodbyes.antt =====
-- Which agent a client switches to, and what a goodbye leads to.
use nbagent.Base.{
  ℕ, ◌≡◌, ◌≢◌, ◌⊎◌, refl, sym, ap, ◌∙◌, inl, inr, true, false, ◌||◌, none, some, List, [], ◌∷◌,
  arith, Text, text_eq, text_beq, text_beq_iff, Dict, find, has, keys, elem, find-put, Bool-cases,
}
use nbagent.Client.Agents.{
  AgentManager, choose_agent, set_active, switch_active_agent, switch_to_other_agent,
  add_goodbye_agent,
}

elem-keys {ℓ} : {V : Type ℓ} (k : Text) (d : Dict Text V) → elem k (keys d) ≡ has k d
unfolding find
elem-keys k [] = refl
elem-keys k ((j, v) ∷ d) = ground (arith, elem-keys k d)

-- The agent is not the active one, and has not said goodbye.
abbrev pub IsOther : AgentManager → Text → Type 0
IsOther m k = (has k m.agent_goodbye_info ≡ false) × (text_beq k m.active_agent ≡ false)

pub choose_agent-cases :
    (ks : List Text) (m : AgentManager)
    → ((choose_agent ks m ≡ none)
        × ((k : Text)
            → elem k ks ≡ true
            → (has k m.agent_goodbye_info || text_beq k m.active_agent) ≡ true))
      ⊎ (k : Text) × (choose_agent ks m ≡ some k) × (elem k ks ≡ true) × IsOther m k
unfolding choose_agent
choose_agent-cases [] m = inl (refl, λ k e. absurd (ground arith))
choose_agent-cases (j ∷ ks) m =
    elim (Bool-cases (has j m.agent_goodbye_info || text_beq j m.active_agent)) [
      | inr e ↦ inr (
        j,
        ground (arith, e),
        ground (arith, text_beq_iff j j),
        (ground (arith, e), ground (arith, e)),
      )
      | inl e ↦ elim (choose_agent-cases ks m) [
        | inl (nobody, all) ↦ inl (
          ground (arith, e, nobody),
          λ k inside. elim (Bool-cases (text_beq j k)) [
            | inl same ↦ ground (arith, e, (text_beq_iff j k).0 same)
            | inr apart ↦ all k (ground (arith, inside, apart))
          ],
        )
        | inr (k, chosen, inside, good) ↦
            inr (k, ground (arith, e, chosen), ground (arith, inside), good)
      ]
    ]

-- A switch goes to an agent of the map that is not active and has not said goodbye; it changes
-- nothing if there is none.
pub switch-cases :
    (m : AgentManager)
    → ((switch_active_agent m ≡ m)
        × ((k : Text)
            → has k m.agent_connect_pool ≡ true
            → (has k m.agent_goodbye_info || text_beq k m.active_agent) ≡ true))
      ⊎ (k : Text) × (switch_active_agent m ≡ record m { active_agent = k })
        × (has k m.agent_connect_pool ≡ true)
        × IsOther m k
unfolding switch_active_agent set_active
switch-cases m = elim (choose_agent-cases (keys m.agent_connect_pool) m) [
  | inl (nobody, all) ↦
      inl (rw nobody refl, λ k inside. all k (elem-keys k m.agent_connect_pool ∙ inside))
  | inr (k, chosen, inside, good) ↦
      inr (k, rw chosen refl, sym (elem-keys k m.agent_connect_pool) ∙ inside, good)
]

-- After the goodbye of an agent, the client does not use it any more: either the active agent was
-- another one and stays, or it is now an agent of the map that has not said goodbye; or every other
-- agent of the map has said goodbye, and the client stays where it was.
pub goodbye-leaves :
    (now : ℕ) (host : Text) (m : AgentManager)
    → let m' = switch_to_other_agent host (add_goodbye_agent now host m).1 in
      ((m'.active_agent ≡ m.active_agent) × (m.active_agent ≢ host))
      ⊎ ((m.active_agent ≡ host)
          × (m'.active_agent ≢ host)
          × (has m'.active_agent m.agent_connect_pool ≡ true)
          × (has m'.active_agent m.agent_goodbye_info ≡ false))
      ⊎ (m'.active_agent ≡ host)
        × (m.active_agent ≡ host)
        × ((k : Text)
            → has k m.agent_connect_pool ≡ true
            → k ≢ host
            → has k m.agent_goodbye_info ≡ true)
unfolding switch_to_other_agent add_goodbye_agent
goodbye-leaves now host m =
    let told = (add_goodbye_agent now host m).1 in
    elim (Bool-cases (text_beq host m.active_agent)) [
      | inr e ↦ rw e (inl (refl, λ same. ground (arith, e, text_beq_iff host m.active_agent)))
      | inl e ↦
          let was : m.active_agent ≡ host = sym ((text_beq_iff host m.active_agent).0 e) in
          rw e (elim (switch-cases told) [
            | inl (stays, all) ↦ inr (
                inr (
                  ap (λ s. s.active_agent) stays ∙ was,
                  was,
                  λ k inside other. ground (
                    arith,
                    all k inside,
                    find-put k host now m.agent_goodbye_info,
                    text_beq_iff host k,
                    text_beq_iff k m.active_agent,
                  ),
                ))
            | inr (k, goes, inside, (good, apart)) ↦
                let now_k : (switch_active_agent told).active_agent ≡ k =
                  ap (λ s. s.active_agent) goes in
                let quiet : has k m.agent_goodbye_info ≡ false =
                  ground (arith, good, find-put k host now m.agent_goodbye_info) in
                let elsewhere : k ≢ host =
                  λ same. ground (arith, apart, text_beq_iff k m.active_agent, was) in
                inr (inl (was, rw now_k elsewhere, rw now_k inside, rw now_k quiet))
          ])
    ]
