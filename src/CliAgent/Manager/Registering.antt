-- ===== src/CliAgent/Manager/Registering.antt =====
-- A client that registers stands in the table under the keys of its entries.
use nbagent.Base.{
  ℕ, suc, ◌<◌, ◌≡◌, refl, ◌⊎◌, sym, ap, subst, ◌∙◌, inl, inr, true, false, some, List, [], arith,
  Text, find, put, values, text_eq, text_beq, text_beq_iff, nat_eq, nat_beq, nat_beq_iff, elem,
  for_each, Option-cases, Bool-cases, find-put, get_or_empty,
}
use nbagent.CliAgent.Client.{AgentEntry, new_client, sync_one, sync_entry, add_connection}
use nbagent.CliAgent.Handler.{NodeHandler}
use nbagent.CliAgent.State.{ClientManager, clients}
use nbagent.CliAgent.Uris.{add_entry}
use nbagent.CliAgent.Uris.Listed.{has_key, elem-add_entry}
use nbagent.CliAgent.Uris.Synced.{has_key-synced}
use nbagent.CliAgent.Manager.{RegisterReq, join, register, register_accept, alloc}
use nbagent.CliAgent.Manager.Listing.{IsListed, Same, add_entry-Frame}

module _ {N : Type 0} (h : NodeHandler N) where
  -- The map of `m1` is that of `m` but for the client `p`, which has just registered the entries.
  added-IsListed :
      (entries : List AgentEntry) (p : ℕ) (m m1 : ClientManager N)
      → IsListed m
      → m1.uri2client ≡ m.uri2client
      → ((id : Text) (q : ℕ)
          → find id m1.client_info ≡ some q
          → ((p ≡ q) × ((m1.infos p).instance_id ≡ id))
            ⊎ (nat_beq p q ≡ false) × (find id m.client_info ≡ some q))
      → p < m1.next
      → ((q : ℕ) → q < m.next → q < m1.next)
      → ((q : ℕ) → nat_beq p q ≡ false → Same (m1.infos q) (m.infos q))
      → (m1.infos p).entry_info ≡ for_each sync_one entries []
      → IsListed (add_entry h entries p m1)
  added-IsListed entries p m m1 l uris whose small grows same synced =
      let (info, next, infos) = add_entry-Frame h entries p m1 in
      let m2 = add_entry h entries p m1 in
      let keeps : (q : ℕ) → Same (m2.infos q) (m1.infos q) = λ q. rw infos (refl, refl) in
      let before : (id : Text) (q : ℕ)
          → find id m2.client_info ≡ some q
          → ((p ≡ q) × ((m1.infos p).instance_id ≡ id))
            ⊎ (nat_beq p q ≡ false) × (find id m.client_info ≡ some q) =
        λ id q e. whose id q (ap (find id) (sym info) ∙ e) in
      record {
        named = λ id q e. (keeps q).0 ∙ elim (before id q e) [
          | inl (is, under) ↦ ap (λ r. (m1.infos r).instance_id) (sym is) ∙ under
          | inr (other, known) ↦ (same q other).0 ∙ l.named id q known
        ];
        small = λ id q e. rw next (elim (before id q e) [
          | inl (is, under) ↦ subst (λ r. r < m1.next) is small
          | inr (other, known) ↦ grows q (l.small id q known)
        ]);
        listed = λ id q key e has.
            let had : has_key key (values (m1.infos q).entry_info) ≡ true =
              ap (λ d. has_key key (values d)) (sym (keeps q).1) ∙ has in
            elem-add_entry h p q key entries m1 ∙ elim (before id q e) [
              | inl (is, under) ↦
                  let keys : has_key key entries ≡ true =
                    sym (has_key-synced key entries [] tt)
                    ∙ ap (λ d. has_key key (values d))
                        (sym synced ∙ ap (λ r. (m1.infos r).entry_info) is)
                    ∙ had in
                  let self : nat_beq p q ≡ true = (nat_beq_iff p q).1 is in
                  ground (arith, keys, self)
              | inr (other, known) ↦
                  let stood : elem q (clients key m1) ≡ true =
                    ap (λ u. elem q (get_or_empty (find key u))) uris
                    ∙ l.listed id q key known
                        (ap (λ d. has_key key (values d)) (sym (same q other).1) ∙ had) in
                  ground (arith, stood)
            ];
      }

  join-client :
      (max conn p : ℕ) (req : RegisterReq) (m : ClientManager N)
      → let m1 = join h max conn p req m in
        (m1.uri2client ≡ m.uri2client)
        × (m1.client_info ≡ m.client_info)
        × (m1.next ≡ m.next)
        × ((m1.infos p).entry_info ≡ for_each sync_one req.entries [])
        × ((m1.infos p).instance_id ≡ (m.infos p).instance_id)
  unfolding join sync_entry add_connection
  join-client max conn p req m =
      (ground arith, ground arith, ground arith, ground arith, ground arith)

  join-others :
      (max conn p q : ℕ) (req : RegisterReq) (m : ClientManager N)
      → nat_beq p q ≡ false
      → Same ((join h max conn p req m).infos q) (m.infos q)
  unfolding join
  join-others max conn p q req m other = (ground (arith, other), ground (arith, other))

  registered_known-IsListed :
      (max conn p : ℕ) (req : RegisterReq) (m m1 : ClientManager N)
      → m1 ≡ record (join h max conn p req m) { temp_connection = m1.temp_connection }
      → find req.instance_id m.client_info ≡ some p
      → IsListed m
      → IsListed (add_entry h req.entries p m1)
  registered_known-IsListed max conn p req m m1 is e l =
      let (uris, info, next, synced, id_of) = join-client max conn p req m in
      added-IsListed req.entries p m m1 l (ap (λ (s : ClientManager N). s.uri2client) is ∙ uris)
        (λ id q f.
          let known : find id m.client_info ≡ some q =
            ap (find id) (sym (ap (λ (s : ClientManager N). s.client_info) is ∙ info)) ∙ f in
          elim (Bool-cases (nat_beq p q)) [
            | inl g ↦
                let same : p ≡ q = (nat_beq_iff p q).0 g in
                inl (
                  same,
                  ap (λ (s : ClientManager N). (s.infos p).instance_id) is
                      ∙ id_of
                      ∙ ap (λ r. (m.infos r).instance_id) same
                      ∙ l.named id q known,
                )
            | inr g ↦ inr (g, known)
          ])
        (rw (ap (λ (s : ClientManager N). s.next) is ∙ next) (l.small req.instance_id p e))
        (λ q b. rw (ap (λ (s : ClientManager N). s.next) is ∙ next) b)
        (λ q other.
          subst (λ (s : ClientManager N). Same (s.infos q) (m.infos q)) (sym is)
            (join-others max conn p q req m other))
        (ap (λ (s : ClientManager N). (s.infos p).entry_info) is ∙ synced)

  registered_new-IsListed :
      (max conn now : ℕ) (req : RegisterReq) (m m1 : ClientManager N)
      → let m0 = alloc h (new_client req.instance_id now) m in
        let joined = join h max conn m.next req m0 in
        m1 ≡ record joined {
          temp_connection = m1.temp_connection;
          client_info = put req.instance_id m.next joined.client_info;
        }
        → IsListed m
        → IsListed (add_entry h req.entries m.next m1)
  unfolding new_client
  registered_new-IsListed max conn now req m m1 is l =
      let p = m.next in
      let m0 = alloc h (new_client req.instance_id now) m in
      let itself : nat_beq p p ≡ true = ground arith in
      let (uris, info, next, synced, id_of) = join-client max conn p req m0 in
      let fresh : (m0.infos p).instance_id ≡ req.instance_id = rw itself refl in
      let clients_of : m1.client_info ≡ put req.instance_id p m.client_info =
        ap (λ (s : ClientManager N). s.client_info) is ∙ ap (put req.instance_id p) info in
      let after : m1.next ≡ suc p = ap (λ (s : ClientManager N). s.next) is ∙ next in
      added-IsListed req.entries p m m1 l (ap (λ (s : ClientManager N). s.uri2client) is ∙ uris)
        (λ id q f.
          let f' : find id (put req.instance_id p m.client_info) ≡ some q =
            ap (find id) (sym clients_of) ∙ f in
          elim (Bool-cases (text_beq req.instance_id id)) [
            | inl g ↦
                let same : p ≡ q =
                  ground (arith, f', g, find-put id req.instance_id p m.client_info) in
                inl (
                  same,
                  ap (λ (s : ClientManager N). (s.infos p).instance_id) is
                      ∙ id_of
                      ∙ fresh
                      ∙ (text_beq_iff req.instance_id id).0 g,
                )
            | inr g ↦
                let known : find id m.client_info ≡ some q =
                  ground (arith, f', g, find-put id req.instance_id p m.client_info) in
                inr (ground (arith, l.small id q known), known)
          ])
        (omega (arith, after)) (λ q b. omega (arith, after, b))
        (λ q other.
          let new : Same (m0.infos q) (m.infos q) = rw other (refl, refl) in
          let (a, b) = join-others max conn p q req m0 other in
          subst (λ (s : ClientManager N). Same (s.infos q) (m.infos q)) (sym is)
            (a ∙ new.0, b ∙ new.1))
        (ap (λ (s : ClientManager N). (s.infos p).entry_info) is ∙ synced)

  pub register_accept-IsListed :
      (max conn now : ℕ) (req : RegisterReq) (m : ClientManager N)
      → IsListed m
      → IsListed (register_accept h max conn now req m)
  unfolding register_accept register
  register_accept-IsListed max conn now req m l =
      elim (Option-cases (find req.instance_id m.client_info)) [
        | inr (p, e) ↦
            rw (e, register_accept, register)
              (registered_known-IsListed max conn p req m _ refl e l)
        | inl e ↦
            rw (e, register_accept, register) (registered_new-IsListed max conn now req m _ refl l)
      ]
