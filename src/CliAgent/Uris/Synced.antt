-- ===== src/CliAgent/Uris/Synced.antt =====
-- The keys of the entries that a client has after `syncEntry`.
use nbagent.Base.{
  ◌≡◌, refl, ◌∙◌, inl, inr, ◌||◌, List, [], ◌∷◌, arith, All, Bool-cases, Text, Dict, put, values,
  text_eq, text_beq, text_beq_iff, for_each,
}
use nbagent.CliAgent.Client.{AgentEntry, get_uri, sync_one}
use nbagent.CliAgent.Uris.Listed.{has_key}

abbrev IsKeyed : Dict Text AgentEntry → Type 0
IsKeyed d = All (λ (r : Text × AgentEntry). get_uri r.1 ≡ r.0) d

has_key-put :
    (key : Text) (entry : AgentEntry) (d : Dict Text AgentEntry)
    → IsKeyed d
    → has_key key (values (put (get_uri entry) entry d))
      ≡ (has_key key (values d) || text_beq (get_uri entry) key)
unfolding put
has_key-put key entry [] h = ground arith
has_key-put key entry ((k, e) ∷ d) (h, hs) = elim (Bool-cases (text_beq k (get_uri entry))) [
  | inl same ↦
      let is : get_uri e ≡ get_uri entry = h ∙ (text_beq_iff k (get_uri entry)).0 same in
      rw (same, is) (ground arith)
  | inr other ↦ rw other (ground (arith, has_key-put key entry d hs))
]

put-IsKeyed :
    (entry : AgentEntry) (d : Dict Text AgentEntry)
    → IsKeyed d
    → IsKeyed (put (get_uri entry) entry d)
unfolding put
put-IsKeyed entry [] h = (refl, tt)
put-IsKeyed entry ((k, e) ∷ d) (h, hs) = elim (Bool-cases (text_beq k (get_uri entry))) [
  | inl same ↦ rw same (refl, hs)
  | inr other ↦ rw other (h, put-IsKeyed entry d hs)
]

-- The entries of a client are those that it has registered.
pub has_key-synced :
    (key : Text) (entries : List AgentEntry) (d : Dict Text AgentEntry)
    → IsKeyed d
    → has_key key (values (for_each sync_one entries d))
      ≡ (has_key key (values d) || has_key key entries)
unfolding sync_one
has_key-synced key [] d h = ground arith
has_key-synced key (e ∷ es) d h =
    has_key-synced key es (put (get_uri e) e d) (put-IsKeyed e d h)
    ∙ ground (arith, has_key-put key e d h)
