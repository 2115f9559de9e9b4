-- ===== src/CliAgent/Uris/Listed.antt =====
-- Which clients serve a key, and what the node is told of it.
use nbagent.Base.{
  ℕ, suc, ◌≡◌, refl, inl, inr, Bool, false, not, ◌&&◌, ◌||◌, Option, none, some, List, [], ◌∷◌,
  ◌++◌, arith, Text, find, text_eq, text_beq, text_beq_iff, nat_eq, nat_beq, keep, elem, elem-keep,
  elem-append, if◌then◌else◌, find-put, find-remove, get_or_empty, Option-cases,
}
use nbagent.CliAgent.Client.{AgentEntry, get_uri}
use nbagent.CliAgent.Handler.{NodeHandler}
use nbagent.CliAgent.State.{ClientManager, clients}
use nbagent.CliAgent.Uris.{add_one, add_entry, put_left, remove_one, remove_entry}

-- How often a client stands in a list.
abbrev pub count : ℕ → List ℕ → ℕ
count p [] = 0
count p (q ∷ qs) = if nat_beq q p then suc (count p qs) else count p qs

abbrev pub has_key : Text → List AgentEntry → Bool
has_key key [] = false
has_key key (entry ∷ entries) = text_beq (get_uri entry) key || has_key key entries

abbrev pub add_to : ℕ → Option (List ℕ) → List ℕ
add_to p none = p ∷ []
add_to p (some ps) = if elem p ps then ps else ps ++ (p ∷ [])

abbrev pub listed : List ℕ → Option (List ℕ)
listed [] = none
listed (p ∷ ps) = some (p ∷ ps)

module _ {N : Type 0} (h : NodeHandler N) where
  pub find-add_one :
      (p : ℕ) (key : Text) (entry : AgentEntry) (m : ClientManager N)
      → find key (add_one h p entry m).uri2client ≡ (
          if text_beq (get_uri entry) key
          then some (add_to p (find key m.uri2client))
          else find key m.uri2client)
  unfolding add_one
  find-add_one p key entry m = elim (Option-cases (find (get_uri entry) m.uri2client)) [
    | inl e ↦ ground (
      arith,
      find-put key (get_uri entry) (p ∷ []) m.uri2client,
      text_beq_iff (get_uri entry) key,
    )
    | inr (ps, e) ↦ ground (
      arith,
      find-put key (get_uri entry) (if elem p ps then ps else ps ++ (p ∷ [])) m.uri2client,
      text_beq_iff (get_uri entry) key,
    )
  ]

  pub find-put_left :
      (key : Text) (entry : AgentEntry) (ps : List ℕ) (m : ClientManager N)
      → find key (put_left h entry ps m).uri2client
        ≡ (if text_beq (get_uri entry) key then listed ps else find key m.uri2client)
  unfolding put_left
  find-put_left key entry [] m = find-remove key (get_uri entry) m.uri2client
  find-put_left key entry (q ∷ qs) m = find-put key (get_uri entry) (q ∷ qs) m.uri2client

  pub find-remove_one :
      (p : ℕ) (key : Text) (entry : AgentEntry) (m : ClientManager N)
      → find key (remove_one h p entry m).uri2client ≡ (
          if text_beq (get_uri entry) key
          then listed (keep (λ q. not (nat_beq q p)) (clients key m))
          else find key m.uri2client)
  unfolding remove_one
  find-remove_one p key entry m = ground (
    arith,
    find-put_left key entry (keep (λ q. not (nat_beq q p)) (clients (get_uri entry) m)) m,
    text_beq_iff (get_uri entry) key,
  )

  elem-add_to :
      (p q : ℕ) (o : Option (List ℕ))
      → elem q (add_to p o) ≡ (elem q (get_or_empty o) || nat_beq p q)
  elem-add_to p q none = ground arith
  elem-add_to p q (some ps) = ground (arith, elem-append q ps (p ∷ []))

  -- `AddEntry` puts the client, and nobody else, on the keys of the entries, and on no others.
  pub elem-add_entry :
      (p q : ℕ) (key : Text) (entries : List AgentEntry) (m : ClientManager N)
      → elem q (clients key (add_entry h entries p m))
        ≡ (elem q (clients key m) || (has_key key entries && nat_beq p q))
  unfolding add_entry
  elem-add_entry p q key [] m = ground arith
  elem-add_entry p q key (entry ∷ entries) m = ground (
    arith,
    elem-add_entry p q key entries (add_one h p entry m),
    find-add_one p key entry m,
    elem-add_to p q (find key m.uri2client),
  )

  elem-listed : (q : ℕ) (ps : List ℕ) → elem q (get_or_empty (listed ps)) ≡ elem q ps
  elem-listed q [] = refl
  elem-listed q (p ∷ ps) = refl

  -- `RemoveEntry` takes the client, and nobody else, off the keys of the entries, and off no others.
  pub elem-remove_entry :
      (p q : ℕ) (key : Text) (entries : List AgentEntry) (m : ClientManager N)
      → elem q (clients key (remove_entry h entries p m))
        ≡ (if has_key key entries && nat_beq p q then false else elem q (clients key m))
  unfolding remove_entry
  elem-remove_entry p q key [] m = ground arith
  elem-remove_entry p q key (entry ∷ entries) m = ground (
    arith,
    elem-remove_entry p q key entries (remove_one h p entry m),
    find-remove_one p key entry m,
    elem-listed q (keep (λ r. not (nat_beq r p)) (clients key m)),
    elem-keep q (λ r. not (nat_beq r p)) (clients key m),
  )
