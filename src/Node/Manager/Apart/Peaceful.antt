-- ===== src/Node/Manager/Apart/Peaceful.antt =====
-- The steps of the node manager that leave the node itself alone.
use mathlib.Core.List.{Memᴰ}
use nbagent.Base.{ℕ, ◌≡◌, ◌≢◌, ◌⊎◌, inl, inr, Option, none, some, Text, All-mem, nat_eq}
use nbagent.Node.Manager.State.{
  Manager, reconnect, sync_all, SayHelloReq, name_of, get_node_by_connection,
}
use nbagent.Node.Manager.Handlers.{on_new_connection, handle_say_hello}
use nbagent.Node.Manager.Run.Steps.{
  Step, connected, was_read, disconnected, said_hello, said_goodbye, was_notified, kept_alive,
  was_synced, cleaned, checked, made_friends, did_cast, did_cast_others, registered, reconnected,
  greeted,
}
use nbagent.Node.Manager.Apart.{IsApart, IsForOther, Keeps}
use nbagent.Node.Manager.Apart.Peers.{
  say_hello-Keeps, goodbye-Keeps, notify-Keeps, keep_alive-Keeps, synced-Keeps, on_close-Keeps,
  on_read-Keeps,
}
use nbagent.Node.Manager.Apart.Own.{
  clean_timeout-Keeps, check_neighbour-Keeps, make_friends-Keeps, cast-Keeps, cast_others-Keeps,
  reconnect-Keeps, greet-Keeps,
}

abbrev pub IsOtherHello : Text → Option (Option SayHelloReq) → Type 0
IsOtherHello own none = Unit
IsOtherHello own (some none) = Unit
IsOtherHello own (some (some req)) = req.node_info.name ≢ own

-- No hello bears the node's own name and the node sends nothing to itself; a node is dialled by a
-- task that was started, and synchronised by one or for the connection that it sent a keep-alive
-- over. Entries are registered elsewhere.
abbrev pub IsPeaceful : {m m' : Manager} → Step m m' → Type 0
IsPeaceful (said_hello sign max conn now req m) = IsOtherHello (name_of m m.self) req
IsPeaceful (was_synced p entries version m new small) =
    ((asked : ℕ) × Memᴰ (sync_all p asked) m.tasks)
    ⊎ ((conn : ℕ) × (get_node_by_connection conn m ≡ some p))
IsPeaceful (did_cast pick request_id p msg m) = p ≢ m.self
IsPeaceful (registered uri t m step small) = ⊥
IsPeaceful (reconnected sign max p dialled rsp m m' e) = Memᴰ (reconnect p) m.tasks
IsPeaceful _ = Unit

pub Step-Keeps :
    {m m' : Manager} (s : Step m m')
    → IsPeaceful s
    → IsApart m
    → Keeps m.self (m.infos m.self) m.sequence m'
unfolding on_new_connection get_node_by_connection handle_say_hello
Step-Keeps (connected conn now m) c h = h
Step-Keeps (was_read conn now processed m) c h = on_read-Keeps _ _ _ conn now processed m h
Step-Keeps (disconnected conn m) c h = on_close-Keeps _ _ _ conn m h
Step-Keeps (said_hello sign max conn now none m) c h = h
Step-Keeps (said_hello sign max conn now (some none) m) c h = h
Step-Keeps (said_hello sign max conn now (some (some req)) m) c h =
    say_hello-Keeps _ _ _ sign max conn now req m c h
Step-Keeps (said_goodbye conn req m) c h = goodbye-Keeps _ _ _ conn req m h
Step-Keeps (was_notified conn req m small) c h = notify-Keeps _ _ _ conn req m h
Step-Keeps (kept_alive conn req m) c h = keep_alive-Keeps _ _ _ conn req m h
Step-Keeps (was_synced p entries version m new small) (inl (asked, task)) h =
    synced-Keeps _ _ _ p entries version m (All-mem (IsForOther m.self) m.tasks h.tasked task) h
Step-Keeps (was_synced p entries version m new small) (inr (conn, e)) h =
    synced-Keeps _ _ _ p entries version m (h.marked conn p e) h
Step-Keeps (cleaned now m) c h = clean_timeout-Keeps _ _ _ now m h
Step-Keeps (checked now m) c h = check_neighbour-Keeps _ _ _ now m h
Step-Keeps (made_friends now nodes m) c h = make_friends-Keeps _ _ _ now nodes m h
Step-Keeps (did_cast pick request_id p msg m) c h = cast-Keeps _ _ _ pick request_id p msg m c h
Step-Keeps (did_cast_others pick request_id msg m) c h =
    cast_others-Keeps _ _ _ pick request_id msg m h
Step-Keeps (registered uri t m step small) c h = absurd c
Step-Keeps (reconnected sign max p dialled rsp m m' e) c h =
    reconnect-Keeps _ _ _ sign max p dialled rsp m m' e
      (All-mem (IsForOther m.self) m.tasks h.tasked c) h
Step-Keeps (greeted pick start request_id conn m m' e) c h =
    greet-Keeps _ _ _ pick start request_id conn m m' e h
