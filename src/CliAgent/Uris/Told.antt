-- ===== src/CliAgent/Uris/Told.antt =====
-- The table of clients is well formed, and the node has exactly the keys of the table.
use nbagent.Base.{
  ℕ, ◌+◌, ◌≤◌, ◌≡◌, refl, ◌∙◌, inl, inr, Bool, true, false, not, ◌||◌, ◌&&◌, Option, none, some,
  List, [], ◌∷◌, ◌++◌, arith, Text, find, has, text_eq, text_beq_iff, nat_eq, nat_beq, nat_beq_iff,
  keep, elem, elem-keep, for_each_inv, if◌then◌else◌, find-put, find-remove, get_or_empty,
  Option-cases,
}
use nbagent.CliAgent.Client.{AgentEntry, get_uri}
use nbagent.CliAgent.Handler.{NodeHandler, Laws}
use nbagent.CliAgent.State.{ClientManager, clients}
use nbagent.CliAgent.Uris.{add_one, add_entry, put_left, remove_one, remove_entry}
use nbagent.CliAgent.Uris.Listed.{
  count, add_to, listed, find-add_one, find-remove_one, has_key, elem-add_entry, elem-remove_entry,
}

-- A list that is in the table has a client, and each only once.
abbrev pub is_full : Option (List ℕ) → Bool
is_full (some []) = false
is_full _ = true

-- The table is well formed, and the node, which is ready, has exactly the keys of the table.
pub record IsServed {N : Type 0} {h : NodeHandler N} (laws : Laws h) (m : ClientManager N)
    : Type 0 where
  pub full : (key : Text) → is_full (find key m.uri2client) ≡ true
  pub once : (key : Text) (p : ℕ) → count p (clients key m) ≤ 1
  pub told : (key : Text) → laws.has_entry key m.node ≡ has key m.uri2client
  pub ready : laws.IsReady m.node

count-append : (p : ℕ) (ps qs : List ℕ) → count p (ps ++ qs) ≡ count p ps + count p qs
count-append p [] qs = omega arith
count-append p (q ∷ ps) qs = ground (arith, count-append p ps qs)

count-absent : (p : ℕ) (ps : List ℕ) → elem p ps ≡ false → count p ps ≡ 0
count-absent p [] e = refl
count-absent p (q ∷ ps) e = ground (arith, count-absent p ps)

count-keep : (p : ℕ) (f : ℕ → Bool) (ps : List ℕ) → count p (keep f ps) ≤ count p ps
count-keep p f [] = omega arith
count-keep p f (q ∷ ps) = ground (arith, count-keep p f ps)

count-add_to :
    (p q : ℕ) (o : Option (List ℕ)) → count q (get_or_empty o) ≤ 1 → count q (add_to p o) ≤ 1
count-add_to p q none e = ground arith
count-add_to p q (some ps) e =
    ground (arith, count-append q ps (p ∷ []), count-absent q ps, nat_beq_iff p q)

full-add_to : (p : ℕ) (o : Option (List ℕ)) → is_full (some (add_to p o)) ≡ true
full-add_to p none = refl
full-add_to p (some []) = ground arith
full-add_to p (some (q ∷ ps)) = ground arith

full-listed : (ps : List ℕ) → is_full (listed ps) ≡ true
full-listed [] = refl
full-listed (p ∷ ps) = refl

once-listed : (q : ℕ) (ps : List ℕ) → count q (get_or_empty (listed ps)) ≡ count q ps
once-listed q [] = refl
once-listed q (p ∷ ps) = refl

module _ {N : Type 0} (h : NodeHandler N) (laws : Laws h) where
  add_one-told :
      (p : ℕ) (key : Text) (entry : AgentEntry) (m : ClientManager N)
      → IsServed laws m
      → laws.has_entry key (add_one h p entry m).node ≡ has key (add_one h p entry m).uri2client
  unfolding add_one get_uri
  add_one-told p key entry m s = elim (Option-cases (find (get_uri entry) m.uri2client)) [
    | inl e ↦
        rw (e, add_one)
          (laws.has_add entry.uri key entry.entry_type m.node s.ready
            ∙ ground (arith, s.told key, find-put key (get_uri entry) (p ∷ []) m.uri2client))
    | inr (ps, e) ↦
        rw (e, add_one)
          (s.told key
            ∙ ground (
              arith,
              find-put key (get_uri entry) (if elem p ps then ps else ps ++ (p ∷ [])) m.uri2client,
              text_beq_iff (get_uri entry) key,
            ))
  ]

  add_one-ready :
      (p : ℕ) (entry : AgentEntry) (m : ClientManager N)
      → IsServed laws m
      → laws.IsReady (add_one h p entry m).node
  unfolding add_one
  add_one-ready p entry m s = elim (Option-cases (find (get_uri entry) m.uri2client)) [
    | inl e ↦ rw (e, add_one) (laws.add_ready entry.uri entry.entry_type m.node s.ready)
    | inr (ps, e) ↦ rw (e, add_one) s.ready
  ]

  put_left-ready :
      (entry : AgentEntry) (ps : List ℕ) (m : ClientManager N)
      → IsServed laws m
      → laws.IsReady (put_left h entry ps m).node
  unfolding put_left
  put_left-ready entry [] m s = laws.remove_ready entry.uri entry.entry_type m.node s.ready
  put_left-ready entry (p ∷ ps) m s = s.ready

  put_left-told :
      (key : Text) (entry : AgentEntry) (ps : List ℕ) (m : ClientManager N)
      → IsServed laws m
      → ((q : ℕ) → elem q ps ≡ true → has (get_uri entry) m.uri2client ≡ true)
      → laws.has_entry key (put_left h entry ps m).node ≡ has key (put_left h entry ps m).uri2client
  unfolding put_left get_uri
  put_left-told key entry [] m s known =
      laws.has_remove entry.uri key entry.entry_type m.node s.ready
      ∙ ground (arith, s.told key, find-remove key (get_uri entry) m.uri2client)
  put_left-told key entry (q ∷ qs) m s known =
      s.told key
      ∙ ground (
        arith,
        find-put key (get_uri entry) (q ∷ qs) m.uri2client,
        text_beq_iff (get_uri entry) key,
        known q (ground arith),
      )

  -- A client that is left stood in the table before.
  kept-known :
      (p q : ℕ) (key : Text) (m : ClientManager N)
      → elem q (keep (λ r. not (nat_beq r p)) (clients key m)) ≡ true
      → has key m.uri2client ≡ true
  kept-known p q key m e = ground (arith, elem-keep q (λ r. not (nat_beq r p)) (clients key m))

  add_one-IsServed :
      (p : ℕ) (entry : AgentEntry) (m : ClientManager N)
      → IsServed laws m
      → IsServed laws (add_one h p entry m)
  unfolding add_one
  add_one-IsServed p entry m s = record {
    full = λ key.
        ground
          (arith, find-add_one h p key entry m, full-add_to p (find key m.uri2client), s.full key);
    once = λ key q. ground (
      arith,
      find-add_one h p key entry m,
      count-add_to p q (find key m.uri2client),
      s.once key q,
    );
    told = λ key. add_one-told p key entry m s;
    ready = add_one-ready p entry m s;
  }

  remove_one-IsServed :
      (p : ℕ) (entry : AgentEntry) (m : ClientManager N)
      → IsServed laws m
      → IsServed laws (remove_one h p entry m)
  unfolding remove_one
  remove_one-IsServed p entry m s = record {
    full = λ key. ground (
      arith,
      find-remove_one h p key entry m,
      full-listed (keep (λ q. not (nat_beq q p)) (clients key m)),
      s.full key,
    );
    once = λ key q. ground (
      arith,
      find-remove_one h p key entry m,
      once-listed q (keep (λ r. not (nat_beq r p)) (clients key m)),
      count-keep q (λ r. not (nat_beq r p)) (clients key m),
      s.once key q,
    );
    told = λ key.
        put_left-told key entry (keep (λ q. not (nat_beq q p)) (clients (get_uri entry) m)) m s
          (λ q. kept-known p q (get_uri entry) m);
    ready = put_left-ready entry (keep (λ q. not (nat_beq q p)) (clients (get_uri entry) m)) m s;
  }

  pub update_entries-IsServed :
      (entries : List AgentEntry) (p q : ℕ) (key : Text) (m : ClientManager N)
      → IsServed laws m
      → IsServed laws (add_entry h entries p m)
        × IsServed laws (remove_entry h entries p m)
        × (elem q (clients key (add_entry h entries p m))
            ≡ (elem q (clients key m) || (has_key key entries && nat_beq p q)))
        × (elem q (clients key (remove_entry h entries p m))
            ≡ (if has_key key entries && nat_beq p q then false else elem q (clients key m)))
  unfolding add_entry remove_entry
  update_entries-IsServed entries p q key m s = (
    for_each_inv (IsServed laws) (add_one h p) (add_one-IsServed p) entries m s,
    for_each_inv (IsServed laws) (remove_one h p) (remove_one-IsServed p) entries m s,
    elem-add_entry h p q key entries m,
    elem-remove_entry h p q key entries m,
  )
