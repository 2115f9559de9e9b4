-- ===== src/Node/Manager/Apart/Peers.antt =====
-- What peers send leaves the node itself alone, if no hello bears the node's own name.
use nbagent.Base.{
  is_late, ℕ, suc, ◌%◌, ◌^◌, ap, ◌≢◌, ◌∙◌, inl, inr, Bool, true, not, ◌||◌, Option, none, some,
  List, arith, Text, find, put, text_eq, nat_beq, nat_eq, text_beq, update, for_each, for_each_inv,
  if◌then◌else◌, Bool-cases, Option-cases, if_cases, values, false, ◌&&◌, remove,
}
use nbagent.Node.Entry.{EntryInfo}
use nbagent.Node.Info.{
  Info, dead, sync_entry, get_all_entry, new_node, add_connection, remove_connection, is_alive,
  is_dead, is_syncing, set_instance_id, refresh_keep_live_time, need_sync_all, modify_entry,
}
use nbagent.Node.Manager.State.{
  is_started, Manager, NodeInfo, SayHelloReq, sync_all, make_friends, close_connection, greet,
  set_info, spawn, close, get_node_by_connection,
}
use nbagent.Node.Manager.Routes.{route_one, delete_one, delete_entry, bury, synced, add_one}
use nbagent.Node.Manager.Routes.Known.{bury-eq, set_dead}
use nbagent.Node.Manager.Handlers.{
  sign_timeout_seconds, on_read, on_close_connection, join, hello_new, hello_known, hello_accept,
  handle_say_hello, handle_say_goodbye_notify, handle_node_entry_notify, try_sync_all,
  handle_keep_alive,
}
use nbagent.Node.Manager.Apart.{
  Keeps, set_other-Keeps, spawn-Keeps, mark-Keeps, list-Keeps, unlist-Keeps, alloc-Keeps,
}

module _ (i : ℕ) (n : Info) (seq : ℕ) where
  pub join-Keeps :
      (max conn p : ℕ) (m : Manager) → p ≢ i → Keeps i n seq m → Keeps i n seq (join max conn p m)
  unfolding join
  join-Keeps max conn p m apart h =
      let (k, is_closed) = add_connection max conn (m.infos p) in
      let m' : Manager = if is_closed then close conn m else m in
      let h' : Keeps i n seq m' =
        if_cases (Keeps i n seq) is_closed (close conn m) m (λ e. h) (λ e. h) in
      mark-Keeps i n seq conn p (set_info p k m') apart (set_other-Keeps i n seq p k m' apart h')

  hello_new-Keeps :
      (max conn now : ℕ) (req : SayHelloReq) (m : Manager)
      → Keeps i n seq m
      → Keeps i n seq (hello_new max conn now req m)
  unfolding hello_new
  hello_new-Keeps max conn now req m h =
      let apart : m.next ≢ i = λ e. omega (arith, e, h.small) in
      let peer = req.node_info in
      let fresh =
        new_node peer.name peer.ip peer.instance_id (peer.port % 2 ^ 16) (peer.agent_port % 2 ^ 16)
          now in
      let m0 : Manager = record m { infos = update m.infos m.next fresh; next = suc m.next } in
      let m1 = join max conn m.next m0 in
      let m2 : Manager = record m1 { node_info = put peer.name m.next m1.node_info } in
      spawn-Keeps i n seq (sync_all m.next req.data_version) m2 apart (
        list-Keeps i n seq peer.name m.next m1 apart
          (join-Keeps max conn m.next m0 apart (alloc-Keeps i n seq fresh m h)))

  hello_known-Keeps :
      (max conn p : ℕ) (req : SayHelloReq) (m : Manager)
      → p ≢ i
      → Keeps i n seq m
      → Keeps i n seq (hello_known max conn p req m)
  unfolding hello_known
  hello_known-Keeps max conn p req m apart h =
      let m' = join max conn p m in
      let k = m'.infos p in
      let k' =
        if nat_beq k.instance_id req.node_info.instance_id
        then k
        else set_instance_id req.node_info.instance_id k in
      spawn-Keeps i n seq (sync_all p req.data_version) (set_info p k' m') apart
        (set_other-Keeps i n seq p k' m' apart (join-Keeps max conn p m apart h))

  hello_accept-Keeps :
      (max conn now : ℕ) (req : SayHelloReq) (m : Manager)
      → req.node_info.name ≢ n.name
      → Keeps i n seq m
      → Keeps i n seq (hello_accept max conn now req m)
  unfolding hello_accept
  hello_accept-Keeps max conn now req m other h =
      elim (Option-cases (find req.node_info.name m.node_info)) [
        | inl e ↦ rw (e, hello_accept) (hello_new-Keeps max conn now req m h)
        | inr (p, e) ↦
            let apart : p ≢ i = λ same. other (h.named req.node_info.name (e ∙ ap some same)) in
            rw (e, hello_accept) (hello_known-Keeps max conn p req m apart h)
      ]

  pub say_hello-Keeps :
      (sign : Text → ℕ → Text) (max conn now : ℕ) (req : SayHelloReq) (m : Manager)
      → req.node_info.name ≢ n.name
      → Keeps i n seq m
      → Keeps i n seq (handle_say_hello sign max conn now (some (some req)) m).0
  unfolding handle_say_hello
  say_hello-Keeps sign max conn now req m other h =
      elim (Bool-cases (text_beq req.sign (sign req.node_info.name req.time_stamp))) [
        | inr e ↦ rw e h
        | inl e ↦ rw e (elim (Bool-cases (is_late sign_timeout_seconds req.time_stamp now)) [
          | inl f ↦ rw f h
          | inr f ↦ rw f (elim (Bool-cases (is_started m.status)) [
            | inr g ↦ rw g h
            | inl g ↦ rw g (
                spawn-Keeps i n seq (greet conn) (hello_accept max conn now req m) tt
                  (hello_accept-Keeps max conn now req m other h))
          ])
        ])
      ]

  delete_entry-Keeps :
      (p : ℕ) (entries : List EntryInfo) (m : Manager)
      → Keeps i n seq m
      → Keeps i n seq (delete_entry p entries m)
  unfolding delete_entry delete_one
  delete_entry-Keeps p entries m h =
      for_each_inv (Keeps i n seq) (delete_one p) (λ entry s k. k) entries m h

  pub bury-Keeps : (p : ℕ) (m : Manager) → p ≢ i → Keeps i n seq m → Keeps i n seq (bury p m)
  bury-Keeps p m apart h = rw (bury-eq p m) (
      delete_entry-Keeps p (values (m.infos p).entry_info) (set_dead p m)
        (set_other-Keeps i n seq p (record (m.infos p) { status = dead }) m apart h))

  -- A handler that finds no node on the connection closes it.
  not_auth-Keeps :
      (conn : ℕ) (m : Manager) → Keeps i n seq m → Keeps i n seq (spawn (close_connection conn) m)
  not_auth-Keeps conn m h = spawn-Keeps i n seq (close_connection conn) m tt h

  pub goodbye-Keeps :
      (conn : ℕ) (req : Option (Unit {0})) (m : Manager)
      → Keeps i n seq m
      → Keeps i n seq (handle_say_goodbye_notify conn req m).0
  unfolding handle_say_goodbye_notify
  goodbye-Keeps conn none m h = h
  goodbye-Keeps conn (some notify) m h = elim (Option-cases (find conn m.connection_node)) [
    | inl e ↦ rw (e, handle_say_goodbye_notify) (not_auth-Keeps conn m h)
    | inr (p, e) ↦ rw (e, handle_say_goodbye_notify) (bury-Keeps p m (h.marked conn p e) h)
  ]

  routes-Keeps :
      (p : ℕ) (entries : List EntryInfo) (m : Manager)
      → Keeps i n seq m
      → Keeps i n seq (for_each (route_one p) entries m)
  unfolding route_one
  routes-Keeps p entries m h =
      for_each_inv (Keeps i n seq) (route_one p)
        (λ entry s k. if_cases (Keeps i n seq) entry.is_new _ _ (λ e. k) (λ e. k)) entries m h

  pub notify-Keeps :
      (conn : ℕ) (req : Option (List EntryInfo × ℕ)) (m : Manager)
      → Keeps i n seq m
      → Keeps i n seq (handle_node_entry_notify conn req m).0
  unfolding handle_node_entry_notify
  notify-Keeps conn none m h = h
  notify-Keeps conn (some (entries, version)) m h =
      elim (Option-cases (find conn m.connection_node)) [
        | inl e ↦ rw (e, handle_node_entry_notify) (not_auth-Keeps conn m h)
        | inr (p, e) ↦
            let (k, need_sync, changed) = modify_entry entries version (m.infos p) in
            let h' : Keeps i n seq (set_info p k m) =
              set_other-Keeps i n seq p k m (h.marked conn p e) h in
            rw (e, handle_node_entry_notify)
              (elim (Bool-cases (is_syncing (m.infos p).status || is_dead (m.infos p).status)) [
                | inl f ↦ rw f h
                | inr f ↦ rw f (
                    if_cases (Keeps i n seq) need_sync (set_info p k m)
                      (for_each (route_one p) changed (set_info p k m)) (λ e. h')
                      (λ e. routes-Keeps p changed (set_info p k m) h'))
              ])
      ]

  try_sync_all-Keeps :
      (p version : ℕ) (m : Manager)
      → p ≢ i
      → Keeps i n seq m
      → Keeps i n seq (try_sync_all p version m).0
  unfolding try_sync_all
  try_sync_all-Keeps p version m apart h =
      set_other-Keeps i n seq p (need_sync_all version (m.infos p)).0 m apart h

  pub keep_alive-Keeps :
      (conn : ℕ) (req : Option (ℕ × List NodeInfo)) (m : Manager)
      → Keeps i n seq m
      → Keeps i n seq (handle_keep_alive conn req m).0.0
  unfolding handle_keep_alive
  keep_alive-Keeps conn none m h = h
  keep_alive-Keeps conn (some (version, nodes)) m h =
      elim (Option-cases (find conn m.connection_node)) [
        | inl e ↦ rw (e, handle_keep_alive) (not_auth-Keeps conn m h)
        | inr (p, e) ↦
            rw (e, handle_keep_alive)
              (elim (Bool-cases (is_alive (m.infos p))) [
                | inr f ↦ rw f h
                | inl f ↦ rw f (
                    try_sync_all-Keeps p version (spawn (make_friends nodes) m) (h.marked conn p e)
                      (spawn-Keeps i n seq (make_friends nodes) m tt h))
              ])
      ]

  pub synced-Keeps :
      (p : ℕ) (entries : List EntryInfo) (version : ℕ) (m : Manager)
      → p ≢ i
      → Keeps i n seq m
      → Keeps i n seq (synced p entries version m)
  unfolding synced add_one
  synced-Keeps p entries version m apart h =
      let k = sync_entry entries version (m.infos p) in
      let old = get_all_entry (m.infos p) in
      for_each_inv (Keeps i n seq) (add_one p)
        (λ entry s h'. if_cases (Keeps i n seq) entry.is_new _ s (λ e. h') (λ e. h')) entries
        (delete_entry p old (set_info p k m))
        (delete_entry-Keeps p old (set_info p k m) (set_other-Keeps i n seq p k m apart h))

  pub on_close-Keeps :
      (conn : ℕ) (m : Manager) → Keeps i n seq m → Keeps i n seq (on_close_connection conn m)
  unfolding on_close_connection remove_connection
  on_close-Keeps conn m h = elim (Option-cases (find conn m.connection_node)) [
    | inl e ↦ rw (e, on_close_connection) h
    | inr (p, e) ↦
        let (k, left) = remove_connection conn (m.infos p) in
        let m' = set_info p k m in
        let h' : Keeps i n seq m' = set_other-Keeps i n seq p k m (h.marked conn p e) h in
        rw (e, on_close_connection)
          (if_cases (Keeps i n seq) (nat_beq left 0 && not (is_alive k))
            (record m' { node_info = remove k.name m'.node_info }) m'
            (λ e. unlist-Keeps i n seq k.name m' h') (λ e. h'))
  ]

  pub on_read-Keeps :
      (conn now : ℕ) (ok : Bool) (m : Manager)
      → Keeps i n seq m
      → Keeps i n seq (on_read conn now ok m)
  unfolding on_read
  on_read-Keeps conn now false m h = h
  on_read-Keeps conn now true m h = elim (Option-cases (get_node_by_connection conn m)) [
    | inl e ↦ rw (e, on_read) h
    | inr (p, e) ↦
        rw (e, on_read)
          (set_other-Keeps i n seq p (refresh_keep_live_time now (m.infos p)) m
            (h.marked conn p (unfold get_node_by_connection in e)) h)
  ]
