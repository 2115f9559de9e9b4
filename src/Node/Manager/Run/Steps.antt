-- ===== src/Node/Manager/Run/Steps.antt =====
-- The steps of the node manager and the states that they reach.
use nbagent.Base.{ℕ, ◌<◌, ◌≡◌, refl, arith, Bool, Option, some, List, Text}
use nbagent.Node.Entry.{EntryType, EntryInfo}
use nbagent.Node.Manager.State.{
  Manager, Msg, NodeInfo, SayHelloReq, SayHelloRsp, get_node_by_connection, cast,
}
use nbagent.Node.Manager.Routes.{synced}
use nbagent.Node.Manager.Routes.Known.{IsRouted, IsRouted-same}
use nbagent.Node.Manager.Routes.Change.{AllNew, synced-IsRouted}
use nbagent.Node.Manager.Handlers.{
  on_new_connection, on_read, on_close_connection, handle_say_hello, handle_say_goodbye_notify,
  handle_node_entry_notify, handle_keep_alive,
}
use nbagent.Node.Manager.Timers.{clean_timeout, check_neighbour, make_friends, cast_others}
use nbagent.Node.Manager.Local.{add_entry}
use nbagent.Node.Manager.Tasks.{reconnect, greet}
use nbagent.Node.Manager.Tasks.Joining.{reconnect-IsRouted, greet-IsRouted}
use nbagent.Node.Manager.Run.Peers.{
  handle_say_hello-IsRouted, goodbye-IsRouted, notify-IsRouted, keep_alive-IsRouted,
  on_close-IsRouted, on_read-IsRouted,
}
use nbagent.Node.Manager.Run.Own.{
  clean_timeout-IsRouted, check_neighbour-IsRouted, make_friends-IsRouted, cast-IsRouted,
  cast_others-IsRouted, add_entry-IsRouted,
}

-- One step under the locks: a callback, a handler, a timer, a task that does not panic, or the
-- registration of an entry.
-- A pointer that a step uses leads to an object that exists, the peer's answer to a full
-- synchronisation has new entries only, and an entry is registered while the node's version is that
-- of its sequence.
pub data Step : Manager → Manager → Type 0 where
  connected : (conn now : ℕ) (m : Manager) → Step m (on_new_connection conn now m)
  was_read : (conn now : ℕ) (processed : Bool) (m : Manager) → Step m (on_read conn now processed m)
  disconnected : (conn : ℕ) (m : Manager) → Step m (on_close_connection conn m)
  said_hello :
      (sign : Text → ℕ → Text) (max conn now : ℕ) (req : Option (Option SayHelloReq)) (m : Manager)
      → Step m (handle_say_hello sign max conn now req m).0
  said_goodbye :
      (conn : ℕ) (req : Option (Unit {0})) (m : Manager)
      → Step m (handle_say_goodbye_notify conn req m).0
  was_notified :
      (conn : ℕ) (req : Option (List EntryInfo × ℕ)) (m : Manager)
      → ((p : ℕ) → get_node_by_connection conn m ≡ some p → p < m.next)
      → Step m (handle_node_entry_notify conn req m).0
  kept_alive :
      (conn : ℕ) (req : Option (ℕ × List NodeInfo)) (m : Manager)
      → Step m (handle_keep_alive conn req m).0.0
  was_synced :
      (p : ℕ) (entries : List EntryInfo) (version : ℕ) (m : Manager)
      → AllNew entries
      → p < m.next
      → Step m (synced p entries version m)
  cleaned : (now : ℕ) (m : Manager) → Step m (clean_timeout now m)
  checked : (now : ℕ) (m : Manager) → Step m (check_neighbour now m)
  made_friends : (now : ℕ) (nodes : List NodeInfo) (m : Manager) → Step m (make_friends now nodes m)
  did_cast :
      (pick : ℕ) (request_id : Text) (p : ℕ) (msg : Msg) (m : Manager)
      → Step m (cast pick request_id p msg m)
  did_cast_others :
      (pick : ℕ → ℕ) (request_id : Text) (msg : Msg) (m : Manager)
      → Step m (cast_others pick request_id msg m)
  registered :
      (uri : Text) (t : EntryType) (m : Manager)
      → (m.infos m.self).data_version ≡ m.sequence
      → m.self < m.next
      → Step m (add_entry uri t m)
  reconnected :
      (sign : Text → ℕ → Text) (max p : ℕ) (dialled : Option ℕ) (rsp : Option SayHelloRsp)
      (m m' : Manager)
      → reconnect sign max p dialled rsp m ≡ some m'
      → Step m m'
  greeted :
      (pick : ℕ → ℕ) (start : ℕ) (request_id : Text) (conn : ℕ) (m m' : Manager)
      → greet pick start request_id conn m ≡ some m'
      → Step m m'

Step-IsRouted : {m m' : Manager} → Step m m' → IsRouted m → IsRouted m'
unfolding on_new_connection
Step-IsRouted (connected conn now m) h = IsRouted-same m _ h refl (λ q. refl) (omega arith)
Step-IsRouted (was_read conn now processed m) h = on_read-IsRouted conn now processed m h
Step-IsRouted (disconnected conn m) h = on_close-IsRouted conn m h
Step-IsRouted (said_hello sign max conn now req m) h =
    handle_say_hello-IsRouted sign max conn now req m h
Step-IsRouted (said_goodbye conn req m) h = goodbye-IsRouted conn req m h
Step-IsRouted (was_notified conn req m small) h = notify-IsRouted conn req m small h
Step-IsRouted (kept_alive conn req m) h = keep_alive-IsRouted conn req m h
Step-IsRouted (was_synced p entries version m new small) h =
    synced-IsRouted p entries version m new small h
Step-IsRouted (cleaned now m) h = clean_timeout-IsRouted now m h
Step-IsRouted (checked now m) h = check_neighbour-IsRouted now m h
Step-IsRouted (made_friends now nodes m) h = make_friends-IsRouted now nodes m h
Step-IsRouted (did_cast pick request_id p msg m) h = cast-IsRouted pick request_id p msg m h
Step-IsRouted (did_cast_others pick request_id msg m) h =
    cast_others-IsRouted pick request_id msg m h
Step-IsRouted (registered uri t m step small) h = add_entry-IsRouted uri t m step small h
Step-IsRouted (reconnected sign max p dialled rsp m m' e) h =
    reconnect-IsRouted sign max p dialled rsp m m' e h
Step-IsRouted (greeted pick start request_id conn m m' e) h =
    greet-IsRouted pick start request_id conn m m' e h

pub data Reach (m : Manager) : Manager → Type 0 where
  here : Reach m m
  later : {m' m'' : Manager} → Reach m m' → Step m' m'' → Reach m m''

-- From a state in which every route leads to an allocated node that has an entry of that key, and the
-- entries of a node stand under their keys, the callbacks, the handlers, the timers, the tasks that do
-- not panic and `AddEntry`, one after the other in any order, lead to such states only, provided that
-- every entry of the answer to a full synchronisation is marked as new, `AddEntry` runs while the
-- version of the node is its sequence, and a notified, synchronised or own node is allocated.
-- `RemoveEntry` and `Stop` are not among the steps.
pub Reach-IsRouted : {m m' : Manager} → IsRouted m → Reach m m' → IsRouted m'
Reach-IsRouted h here = h
Reach-IsRouted h (later r s) = Step-IsRouted s (Reach-IsRouted h r)
