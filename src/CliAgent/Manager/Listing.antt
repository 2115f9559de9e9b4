-- ===== src/CliAgent/Manager/Listing.antt =====
-- The clients of the manager stand in the table under the keys of all their entries.
use nbagent.Base.{
  ℕ, ◌<◌, ◌≡◌, refl, sym, ap, subst, ◌∙◌, inl, inr, true, false, not, some, List, [], ◌∷◌, arith,
  Text, find, remove, values, text_eq, text_beq, text_beq_iff, nat_eq, nat_beq, nat_beq_iff, elem,
  for_each, for_each_inv, keep, update, Option-cases, Bool-cases, if_cases, find-remove,
  get_or_empty,
}
use nbagent.CliAgent.Client.{
  AgentEntry, ClientInfo, get_uri, dead, mark_dead, get_all_entry, on_close_connection, timeout,
}
use nbagent.CliAgent.Handler.{NodeHandler}
use nbagent.CliAgent.State.{ClientManager, clients, set_info, close}
use nbagent.CliAgent.Uris.{add_one, add_entry, put_left, remove_one, remove_entry}
use nbagent.CliAgent.Uris.Listed.{has_key}
use nbagent.CliAgent.Manager.{
  on_close_connection_of, clean_timeout, timeout_connection, delete_client,
  get_client_by_connection,
}
use nbagent.CliAgent.Manager.Joins.{elem-delete_client}

-- Every client of the map is under its id, exists, and stands in the table under every key of its
-- entries.
pub record IsListed {N : Type 0} (m : ClientManager N) : Type 0 where
  pub named : (id : Text) (p : ℕ) → find id m.client_info ≡ some p → (m.infos p).instance_id ≡ id
  pub small : (id : Text) (p : ℕ) → find id m.client_info ≡ some p → p < m.next
  pub listed :
      (id : Text) (p : ℕ) (key : Text)
      → find id m.client_info ≡ some p
      → has_key key (values (m.infos p).entry_info) ≡ true
      → elem p (clients key m) ≡ true

-- What a client is to the table.
abbrev pub Same : ClientInfo → ClientInfo → Type 0
Same k n = (k.instance_id ≡ n.instance_id) × (k.entry_info ≡ n.entry_info)

module _ {N : Type 0} (h : NodeHandler N) where
  pub IsListed-same :
      (m m' : ClientManager N)
      → m'.client_info ≡ m.client_info
      → m'.next ≡ m.next
      → m'.uri2client ≡ m.uri2client
      → ((p : ℕ) → Same (m'.infos p) (m.infos p))
      → IsListed m
      → IsListed m'
  IsListed-same m m' info next uris same l = record {
    named = λ id p e. (same p).0 ∙ l.named id p (ap (find id) (sym info) ∙ e);
    small = λ id p e. rw next (l.small id p (ap (find id) (sym info) ∙ e));
    listed = λ id p key e has.
        ap (λ u. elem p (get_or_empty (find key u))) uris
        ∙ l.listed id p key (ap (find id) (sym info) ∙ e)
            (ap (λ d. has_key key (values d)) (sym (same p).1) ∙ has);
  }

  pub set_same-IsListed :
      (p : ℕ) (k : ClientInfo) (m : ClientManager N)
      → Same k (m.infos p)
      → IsListed m
      → IsListed (set_info p k m)
  set_same-IsListed p k m same = IsListed-same m (set_info p k m) refl refl refl (λ q.
      elim (Bool-cases (nat_beq p q)) [
        | inl e ↦
            let is : p ≡ q = (nat_beq_iff p q).0 e in rw e (subst (λ r. Same k (m.infos r)) is same)
        | inr e ↦ rw e (refl, refl)
      ])

  abbrev pub Frame : ClientManager N → ClientManager N → Type 0
  Frame m m' = (m'.client_info ≡ m.client_info) × (m'.next ≡ m.next) × (m'.infos ≡ m.infos)

  pub add_entry-Frame :
      (entries : List AgentEntry) (p : ℕ) (m : ClientManager N) → Frame m (add_entry h entries p m)
  unfolding add_entry add_one
  add_entry-Frame entries p m =
      for_each_inv (Frame m) (add_one h p)
        (λ entry s same. elim (Option-cases (find (get_uri entry) s.uri2client)) [
          | inl e ↦ rw (e, add_one) same
          | inr (ps, e) ↦ rw (e, add_one) same
        ])
        entries m (refl, refl, refl)

  put_left-Frame :
      (entry : AgentEntry) (left : List ℕ) (m s : ClientManager N)
      → Frame m s
      → Frame m (put_left h entry left s)
  unfolding put_left
  put_left-Frame entry [] m s f = f
  put_left-Frame entry (q ∷ qs) m s f = f

  remove_entry-Frame :
      (entries : List AgentEntry) (p : ℕ) (m : ClientManager N)
      → Frame m (remove_entry h entries p m)
  unfolding remove_entry remove_one
  remove_entry-Frame entries p m =
      for_each_inv (Frame m) (remove_one h p)
        (λ entry s.
          put_left-Frame entry (keep (λ q. not (nat_beq q p)) (clients (get_uri entry) s)) m s)
        entries m (refl, refl, refl)

  close_all-Frame : (conns : List ℕ) (m : ClientManager N) → Frame m (for_each close conns m)
  close_all-Frame conns m =
      for_each_inv (Frame m) close (λ conn s same. same) conns m (refl, refl, refl)

  Frame-trans : (m m' m'' : ClientManager N) → Frame m m' → Frame m' m'' → Frame m m''
  Frame-trans m m' m'' (a, b, c) (a', b', c') = (a' ∙ a, b' ∙ b, c' ∙ c)

  -- The client is dead and no longer in the map.
  delete_client-Frame :
      (p : ℕ) (m : ClientManager N)
      → Frame
          (record m {
            client_info = remove (m.infos p).instance_id m.client_info;
            infos = update m.infos p (record (m.infos p) { status = dead });
          })
          (delete_client h p m)
  unfolding delete_client mark_dead
  delete_client-Frame p m =
      let m' = set_info p (record (m.infos p) { status = dead }) m in
      let m1 = for_each close (m.infos p).connection_list m' in
      let entries = get_all_entry (m.infos p) in
      let (a, b, c) =
        Frame-trans m' m1 (remove_entry h entries p m1)
          (close_all-Frame (m.infos p).connection_list m') (remove_entry-Frame entries p m1) in
      (ap (remove (m.infos p).instance_id) a, b, c)

  marked-Same :
      (p q : ℕ) (m : ClientManager N)
      → Same (update m.infos p (record (m.infos p) { status = dead }) q) (m.infos q)
  marked-Same p q m = elim (Bool-cases (nat_beq p q)) [
    | inl e ↦ let is : p ≡ q = (nat_beq_iff p q).0 e in rw e (rw is (refl, refl))
    | inr e ↦ rw e (refl, refl)
  ]

  -- A client that is left in the map was there, under another id than the deleted one.
  left_known :
      (p q : ℕ) (id : Text) (m : ClientManager N)
      → find id (delete_client h p m).client_info ≡ some q
      → (text_beq (m.infos p).instance_id id ≡ false) × (find id m.client_info ≡ some q)
  left_known p q id m e =
      let (info, next, infos) = delete_client-Frame p m in
      let e' : find id (remove (m.infos p).instance_id m.client_info) ≡ some q =
        ap (find id) (sym info) ∙ e in
      elim (Bool-cases (text_beq (m.infos p).instance_id id)) [
        | inl f ↦
            absurd (ground (arith, e', f, find-remove id (m.infos p).instance_id m.client_info))
        | inr f ↦ (f, ground (arith, e', f, find-remove id (m.infos p).instance_id m.client_info))
      ]

  pub delete_client-IsListed :
      (p : ℕ) (m : ClientManager N) → IsListed m → IsListed (delete_client h p m)
  delete_client-IsListed p m l =
      let (info, next, infos) = delete_client-Frame p m in
      let same : (q : ℕ) → Same ((delete_client h p m).infos q) (m.infos q) =
        λ q. subst (λ f. Same (f q) (m.infos q)) (sym infos) (marked-Same p q m) in
      record {
        named = λ id q e. (same q).0 ∙ l.named id q (left_known p q id m e).1;
        small = λ id q e. rw next (l.small id q (left_known p q id m e).1);
        listed = λ id q key e has.
            let (other, known) = left_known p q id m e in
            let apart : nat_beq p q ≡ false = elim (Bool-cases (nat_beq p q)) [
              | inr f ↦ f
              | inl f ↦
                  let is : p ≡ q = (nat_beq_iff p q).0 f in
                  let under : (m.infos p).instance_id ≡ id =
                    ap (λ r. (m.infos r).instance_id) is ∙ l.named id q known in
                  absurd (ground (arith, other, (text_beq_iff (m.infos p).instance_id id).1 under))
            ] in
            let stood =
              l.listed id q key known (ap (λ d. has_key key (values d)) (sym (same q).1) ∙ has) in
            elem-delete_client h p q key m ∙ ground (arith, apart, stood);
      }

  pub on_close-IsListed :
      (conn : ℕ) (m : ClientManager N) → IsListed m → IsListed (on_close_connection_of h conn m)
  unfolding on_close_connection_of get_client_by_connection on_close_connection
  on_close-IsListed conn m l = elim (Option-cases (get_client_by_connection h conn m)) [
    | inl e ↦
        rw (e, on_close_connection_of) (IsListed-same m _ refl refl refl (λ q. (refl, refl)) l)
    | inr (p, e) ↦
        let m' = set_info p (on_close_connection conn (m.infos p)).0 m in
        let l' : IsListed m' =
          set_same-IsListed p (on_close_connection conn (m.infos p)).0 m (refl, refl) l in
        rw (e, on_close_connection_of)
          (if_cases IsListed (nat_beq (on_close_connection conn (m.infos p)).1 0)
            (delete_client h p m') m' (λ f. delete_client-IsListed p m' l') (λ f. l'))
  ]

  pub clean_timeout-IsListed :
      (connect_limit client_limit now : ℕ) (m : ClientManager N)
      → IsListed m
      → IsListed (clean_timeout h connect_limit client_limit now m)
  unfolding clean_timeout
  clean_timeout-IsListed connect_limit client_limit now m l =
      let late = timeout_connection h connect_limit now m.temp_connection in
      let m0 = record m { temp_connection = for_each remove late m.temp_connection } in
      let m' = for_each close late m0 in
      let l' : IsListed m' =
        for_each_inv IsListed close
          (λ conn s k. IsListed-same s _ refl refl refl (λ q. (refl, refl)) k) late m0
          (IsListed-same m m0 refl refl refl (λ q. (refl, refl)) l) in
      for_each_inv IsListed (delete_client h) delete_client-IsListed
        (keep (λ p. timeout now client_limit (m'.infos p)) (values m'.client_info)) m' l'
