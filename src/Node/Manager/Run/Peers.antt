-- ===== src/Node/Manager/Run/Peers.antt =====
-- What peers send keeps the routing table and the entries of the nodes together.
use nbagent.Base.{
  is_late, ℕ, suc, ◌<◌, ◌≡◌, refl, sym, ◌∙◌, inl, inr, Bool, true, ◌||◌, Option, none, some, List,
  [], arith, Text, find, text_eq, nat_beq, nat_eq, text_beq, nat_beq_iff, update, for_each,
  if◌then◌else◌, find-nil, Bool-cases, Option-cases,
}
use nbagent.Node.Entry.{EntryInfo}
use nbagent.Node.Info.{
  Info, new_node, add_connection, remove_connection, is_alive, is_dead, is_syncing, set_instance_id,
  refresh_keep_live_time, need_sync_all, modify_entry, next_version,
}
use nbagent.Node.Info.Entries.{modify_entry_eq, modified, modify_entry_gap}
use nbagent.Node.Manager.State.{
  is_started, Manager, NodeInfo, SayHelloReq, set_info, get_node_by_connection,
}
use nbagent.Node.Manager.Routes.{route_one}
use nbagent.Node.Manager.Routes.Known.{IsRouted, IsRouted-same, set_info-IsRouted, bury-IsRouted}
use nbagent.Node.Manager.Routes.Change.{IsRouted-at, route_loop}
use nbagent.Node.Manager.Handlers.{
  sign_timeout_seconds, on_read, on_close_connection, join, hello_new, hello_known, hello_accept,
  handle_say_hello, handle_say_goodbye_notify, handle_node_entry_notify, try_sync_all,
  handle_keep_alive,
}

pub join-IsRouted : (max conn p : ℕ) (m : Manager) → IsRouted m → IsRouted (join max conn p m)
unfolding join add_connection
join-IsRouted max conn p m h =
    IsRouted-same m (join max conn p m) h (ground arith) (λ q. ground arith) (ground arith)

-- A new object with no entries.
pub alloc-IsRouted :
    (n : Info) (m : Manager)
    → n.entry_info ≡ []
    → IsRouted m
    → IsRouted (record m { infos = update m.infos m.next n; next = suc m.next })
alloc-IsRouted n m e h =
    IsRouted-at m.next n m _ h (λ q key apart f. f) refl (omega arith) (omega arith)
      (record {
        known = λ key f. absurd (omega (arith, h.allocated key m.next f));
        keyed = λ key entry f. ground (arith, find-nil {V = EntryInfo} key);
      })

pub hello_new-IsRouted :
    (max conn now : ℕ) (req : SayHelloReq) (m : Manager)
    → IsRouted m
    → IsRouted (hello_new max conn now req m)
unfolding hello_new new_node
hello_new-IsRouted max conn now req m h =
    let j = join-IsRouted max conn m.next _ (alloc-IsRouted _ m refl h) in
    IsRouted-same _ _ j refl (λ q. refl) (omega arith)

pub hello_known-IsRouted :
    (max conn p : ℕ) (req : SayHelloReq) (m : Manager)
    → IsRouted m
    → IsRouted (hello_known max conn p req m)
unfolding hello_known set_instance_id
hello_known-IsRouted max conn p req m h =
    IsRouted-same (join max conn p m) _ (join-IsRouted max conn p m h) refl (λ q. ground arith)
      (omega arith)

pub hello_accept-IsRouted :
    (max conn now : ℕ) (req : SayHelloReq) (m : Manager)
    → IsRouted m
    → IsRouted (hello_accept max conn now req m)
unfolding hello_accept
hello_accept-IsRouted max conn now req m h =
    elim (Option-cases (find req.node_info.name m.node_info)) [
      | inl e ↦
          rw (e, hello_accept)
            (IsRouted-same (hello_new max conn now req m) _
              (hello_new-IsRouted max conn now req m h) refl (λ q. refl) (omega arith))
      | inr (p, e) ↦
          rw (e, hello_accept)
            (IsRouted-same (hello_known max conn p req m) _
              (hello_known-IsRouted max conn p req m h) refl (λ q. refl) (omega arith))
    ]

pub handle_say_hello-IsRouted :
    (sign : Text → ℕ → Text) (max conn now : ℕ) (req : Option (Option SayHelloReq)) (m : Manager)
    → IsRouted m
    → IsRouted (handle_say_hello sign max conn now req m).0
unfolding handle_say_hello
handle_say_hello-IsRouted sign max conn now none m h = h
handle_say_hello-IsRouted sign max conn now (some none) m h = h
handle_say_hello-IsRouted sign max conn now (some (some req)) m h =
    elim (Bool-cases (text_beq req.sign (sign req.node_info.name req.time_stamp))) [
      | inr e ↦ rw e (IsRouted-same m _ h refl (λ q. refl) (omega arith))
      | inl e ↦ rw e (elim (Bool-cases (is_late sign_timeout_seconds req.time_stamp now)) [
        | inl f ↦ rw f (IsRouted-same m _ h refl (λ q. refl) (omega arith))
        | inr f ↦ rw f (elim (Bool-cases (is_started m.status)) [
          | inr g ↦ rw g h
          | inl g ↦ simp g (
              IsRouted-same (hello_accept max conn now req m) _
                (hello_accept-IsRouted max conn now req m h) refl (λ q. refl) (omega arith))
        ])
      ])
    ]

pub goodbye-IsRouted :
    (conn : ℕ) (req : Option (Unit {0})) (m : Manager)
    → IsRouted m
    → IsRouted (handle_say_goodbye_notify conn req m).0
unfolding handle_say_goodbye_notify
goodbye-IsRouted conn none m h = h
goodbye-IsRouted conn (some notify) m h = elim (Option-cases (find conn m.connection_node)) [
  | inl e ↦ rw (e, handle_say_goodbye_notify) (IsRouted-same m _ h refl (λ q. refl) (omega arith))
  | inr (p, e) ↦ rw (e, handle_say_goodbye_notify) (bury-IsRouted p m h)
]

pub taken-IsRouted :
    (p : ℕ) (entries : List EntryInfo) (m : Manager)
    → p < m.next
    → IsRouted m
    → IsRouted (for_each (route_one p) entries (set_info p (modified entries (m.infos p)) m))
taken-IsRouted p entries m small h =
    let n = modified entries (m.infos p) in
    let (agrees, frame) =
      route_loop p entries (m.infos p).entry_info (set_info p n m)
        (record { known = λ key e. h.known key p e; keyed = h.keyed p }) in
    IsRouted-at p n m _ h (λ q key apart e. sym (frame.other q key apart) ∙ e) frame.infos
      (omega (arith, frame.next)) (omega (arith, frame.next)) agrees

-- A node that is neither dead nor out of step takes its notification together with its routes.
pub notified-IsRouted :
    (p : ℕ) (entries : List EntryInfo) (version : ℕ) (m : Manager)
    → p < m.next
    → is_alive (m.infos p) ≡ true
    → IsRouted m
    → let (n, need_sync, changed) = modify_entry entries version (m.infos p) in
      IsRouted
        (if need_sync then set_info p n m else for_each (route_one p) changed (set_info p n m))
notified-IsRouted p entries version m small lives h =
    elim (Bool-cases (nat_beq version (next_version (m.infos p).data_version))) [
      | inl e ↦
          rw ((nat_beq_iff _ _).0 e, modify_entry_eq entries (m.infos p) lives)
            (taken-IsRouted p entries m small h)
      | inr e ↦
          rw (modify_entry_gap entries version (m.infos p) (λ f. cc ((nat_beq_iff _ _).1 f)))
            (set_info-IsRouted p _ m refl h)
    ]

pub notify-IsRouted :
    (conn : ℕ) (req : Option (List EntryInfo × ℕ)) (m : Manager)
    → ((p : ℕ) → get_node_by_connection conn m ≡ some p → p < m.next)
    → IsRouted m
    → IsRouted (handle_node_entry_notify conn req m).0
unfolding handle_node_entry_notify
notify-IsRouted conn none m small h = h
notify-IsRouted conn (some (entries, version)) m small h =
    elim (Option-cases (find conn m.connection_node)) [
      | inl e ↦
          rw (e, handle_node_entry_notify) (IsRouted-same m _ h refl (λ q. refl) (omega arith))
      | inr (p, e) ↦
          rw (e, handle_node_entry_notify)
            (elim (Bool-cases (is_syncing (m.infos p).status || is_dead (m.infos p).status)) [
              | inl f ↦ rw f h
              | inr f ↦ rw f (
                  notified-IsRouted p entries version m
                    (small p (unfold get_node_by_connection in e)) (ground arith) h)
            ])
    ]

pub try_sync_all-IsRouted :
    (p version : ℕ) (m : Manager) → IsRouted m → IsRouted (try_sync_all p version m).0
unfolding try_sync_all need_sync_all
try_sync_all-IsRouted p version m h = set_info-IsRouted p _ m (ground arith) h

pub keep_alive-IsRouted :
    (conn : ℕ) (req : Option (ℕ × List NodeInfo)) (m : Manager)
    → IsRouted m
    → IsRouted (handle_keep_alive conn req m).0.0
unfolding handle_keep_alive
keep_alive-IsRouted conn none m h = h
keep_alive-IsRouted conn (some (version, nodes)) m h =
    elim (Option-cases (find conn m.connection_node)) [
      | inl e ↦ rw (e, handle_keep_alive) (IsRouted-same m _ h refl (λ q. refl) (omega arith))
      | inr (p, e) ↦
          rw (e, handle_keep_alive)
            (elim (Bool-cases (is_alive (m.infos p))) [
              | inr f ↦ rw f h
              | inl f ↦ rw f (
                  try_sync_all-IsRouted p version _
                    (IsRouted-same m _ h refl (λ q. refl) (omega arith)))
            ])
    ]

pub on_close-IsRouted :
    (conn : ℕ) (m : Manager) → IsRouted m → IsRouted (on_close_connection conn m)
unfolding on_close_connection remove_connection
on_close-IsRouted conn m h = IsRouted-same m _ h (ground arith) (λ q. ground arith) (ground arith)

pub on_read-IsRouted :
    (conn now : ℕ) (ok : Bool) (m : Manager) → IsRouted m → IsRouted (on_read conn now ok m)
unfolding on_read refresh_keep_live_time get_node_by_connection
on_read-IsRouted conn now ok m h =
    IsRouted-same m _ h (ground arith) (λ q. ground arith) (ground arith)
