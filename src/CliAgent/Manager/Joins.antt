-- ===== src/CliAgent/Manager/Joins.antt =====
-- Clients that register, leave and time out, and what stays of them in the table of keys.
use nbagent.Base.{
  ℕ, ◌≡◌, refl, ◌∙◌, inl, inr, false, ◌&&◌, List, [], ◌∷◌, arith, Text, find, remove, values,
  text_eq, nat_eq, nat_beq, keep, elem, for_each, for_each_inv, if◌then◌else◌, if_cases,
  Option-cases,
}
use nbagent.CliAgent.Client.{
  dead, mark_dead, get_all_entry, new_client, timeout, on_close_connection,
}
use nbagent.CliAgent.Handler.{NodeHandler, Laws}
use nbagent.CliAgent.State.{ClientManager, clients, set_info, close}
use nbagent.CliAgent.Uris.Listed.{has_key, elem-remove_entry}
use nbagent.CliAgent.Uris.Told.{IsServed, update_entries-IsServed}
use nbagent.CliAgent.Manager.{
  RegisterReq, delete_client, on_close_connection_of, clean_timeout, timeout_connection, join,
  register, register_accept, alloc, get_client_by_connection,
}

module _ {N : Type 0} (h : NodeHandler N) where
  close_all-uris :
      (conns : List ℕ) (m : ClientManager N)
      → ((for_each close conns m).uri2client ≡ m.uri2client)
        × ((for_each close conns m).node ≡ m.node)
  close_all-uris [] m = (refl, refl)
  close_all-uris (conn ∷ conns) m = close_all-uris conns (close conn m)

  -- `deleteClient` takes the client, and nobody else, off the keys of the entries that it has now,
  -- and off no others.
  pub elem-delete_client :
      (p q : ℕ) (key : Text) (m : ClientManager N)
      → elem q (clients key (delete_client h p m)) ≡ (
          if has_key key (values (m.infos p).entry_info) && nat_beq p q
          then false
          else elem q (clients key m))
  unfolding delete_client mark_dead get_all_entry
  elem-delete_client p q key m =
      let m' = set_info p (record (m.infos p) { status = dead }) m in
      elem-remove_entry h p q key (values (m.infos p).entry_info)
        (for_each close (m.infos p).connection_list m')
      ∙ rw (close_all-uris (m.infos p).connection_list m').0

  module _ (laws : Laws h) where
    pub IsServed-same :
        (m m' : ClientManager N)
        → m'.uri2client ≡ m.uri2client
        → m'.node ≡ m.node
        → IsServed laws m
        → IsServed laws m'
    IsServed-same m m' uris node s = record {
      full = λ key. rw uris (s.full key);
      once = λ key p. rw uris (s.once key p);
      told = λ key. rw (uris, node) (s.told key);
      ready = rw node s.ready;
    }

    pub delete_client-IsServed :
        (p : ℕ) (m : ClientManager N) → IsServed laws m → IsServed laws (delete_client h p m)
    unfolding delete_client mark_dead
    delete_client-IsServed p m s =
        let m' = set_info p (record (m.infos p) { status = dead }) m in
        let (uris, node) = close_all-uris (m.infos p).connection_list m' in
        let closed = IsServed-same m (for_each close (m.infos p).connection_list m') uris node s in
        IsServed-same _ _ refl refl
          (update_entries-IsServed h laws (get_all_entry (m.infos p)) p p [] _ closed).1

    pub on_close-IsServed :
        (conn : ℕ) (m : ClientManager N)
        → IsServed laws m
        → IsServed laws (on_close_connection_of h conn m)
    unfolding on_close_connection_of
    on_close-IsServed conn m s = elim (Option-cases (get_client_by_connection h conn m)) [
      | inl e ↦ rw (e, on_close_connection_of) (IsServed-same m _ refl refl s)
      | inr (p, e) ↦
          let m' = set_info p (on_close_connection conn (m.infos p)).0 m in
          rw (e, on_close_connection_of)
            (if_cases (IsServed laws) (nat_beq (on_close_connection conn (m.infos p)).1 0)
              (delete_client h p m') m'
              (λ f. delete_client-IsServed p m' (IsServed-same m m' refl refl s))
              (λ f. IsServed-same m m' refl refl s))
    ]

    pub clean_timeout-IsServed :
        (connect_limit client_limit now : ℕ) (m : ClientManager N)
        → IsServed laws m
        → IsServed laws (clean_timeout h connect_limit client_limit now m)
    unfolding clean_timeout
    clean_timeout-IsServed connect_limit client_limit now m s =
        let late = timeout_connection h connect_limit now m.temp_connection in
        let m0 = record m { temp_connection = for_each remove late m.temp_connection } in
        let m' = for_each close late m0 in
        let (uris, node) = close_all-uris late m0 in
        for_each_inv (IsServed laws) (delete_client h) delete_client-IsServed
          (keep (λ p. timeout now client_limit (m'.infos p)) (values m'.client_info)) m'
          (IsServed-same m m' uris node s)

    join-IsServed :
        (max conn p : ℕ) (req : RegisterReq) (m : ClientManager N)
        → IsServed laws m
        → IsServed laws (join h max conn p req m)
    unfolding join
    join-IsServed max conn p req m s = IsServed-same m _ (ground arith) (ground arith) s

    register-IsServed :
        (max conn now : ℕ) (req : RegisterReq) (m : ClientManager N)
        → IsServed laws m
        → IsServed laws (register h max conn now req m).1
    unfolding register
    register-IsServed max conn now req m s =
        elim (Option-cases (find req.instance_id m.client_info)) [
          | inl e ↦
              let m0 = alloc h (new_client req.instance_id now) m in
              rw (e, register)
                (IsServed-same _ _ refl refl
                  (join-IsServed max conn m.next req m0 (IsServed-same m m0 refl refl s)))
          | inr (p, e) ↦ rw (e, register) (join-IsServed max conn p req m s)
        ]

    pub register_accept-IsServed :
        (max conn now : ℕ) (req : RegisterReq) (m : ClientManager N)
        → IsServed laws m
        → IsServed laws (register_accept h max conn now req m)
    unfolding register_accept
    register_accept-IsServed max conn now req m s =
        (update_entries-IsServed h laws req.entries (register h max conn now req m).0 0 [] _
          (IsServed-same _ _ refl refl (register-IsServed max conn now req m s))).0
