-- ===== src/Node/Manager/Handlers.antt =====
-- The handlers of what peers send and the callbacks of the server. The argument `req` is what
-- `proto.Unmarshal` gives. `conn` and `request_id` are the connection and the request id of the
-- context, `now` is the time, and `sign` is `makeSign`.
pub mod Hello
pub mod Farewell
use nbagent.Base.{
  is_late, ℕ, suc, ◌+◌, ◌%◌, ◌^◌, Bool, true, false, not, ◌&&◌, ◌||◌, Option, none, some, List, [],
  ◌∷◌, ◌++◌, Text, Dict, find, put, remove, text_eq, nat_beq, nat_eq, text_beq, ltb, update, keep,
  for_each, has, if◌then◌else◌,
}
use nbagent.Node.Entry.{EntryInfo}
use nbagent.Node.Info.{
  Info, new_node, add_connection, remove_connection, is_alive, is_dead, is_syncing, set_instance_id,
  modify_entry, need_sync_all, get_all_entry, refresh_keep_live_time,
}
use nbagent.Node.Manager.State.{
  NodeInfo, SayHelloReq, SayHelloRsp, success, sign_validate_fail, sign_timeout, say_hello_rsp,
  get_entry_resp, Manager, Task, reconnect, close_connection, sync_all, greet, make_friends,
  is_started, set_info, spawn, send, close, name_of, get_node_by_connection,
}
use nbagent.Node.Manager.Routes.{bury, route_one}

-- The texts that the handlers return.
pub data SzResult : Type 0 where
  sz_success proto_unmarshal_fail sz_sign_validate_fail sz_sign_timeout node_stoped node_not_auth
        node_dead_or_syncing node_dead panicked :
      SzResult

abbrev pub connection_timeout : ℕ
connection_timeout = 60

abbrev pub sign_timeout_seconds : ℕ
sign_timeout_seconds = 5

unfoldable pub on_new_connection : ℕ → ℕ → Manager → Manager
on_new_connection conn now m = record m { temp_connection = put conn now m.temp_connection }

-- The rest of `OnRead`, after the router: a packet that it refuses closes the connection, any other
-- refreshes the node.
unfoldable pub on_read : ℕ → ℕ → Bool → Manager → Manager
on_read conn now processed m =
    if not processed then close conn m else elim (get_node_by_connection conn m) [
      | none ↦ m
      | some p ↦ set_info p (refresh_keep_live_time now (m.infos p)) m
    ]

unfoldable pub on_close_connection : ℕ → Manager → Manager
unfolding get_node_by_connection
on_close_connection conn m = elim (get_node_by_connection conn m) [
  | none ↦ record m { temp_connection = remove conn m.temp_connection }
  | some p ↦
      let (n, left) = remove_connection conn (m.infos p) in
      let m' = set_info p n m in
      if nat_beq left 0 && not (is_alive n)
      then record m' { node_info = remove n.name m'.node_info }
      else m'
]

-- `addConnection`, which may close the connection, and the mark on the connection's context.
unfoldable pub join : ℕ → ℕ → ℕ → Manager → Manager
unfolding add_connection
join max conn p m =
    let (n, is_closed) = add_connection max conn (m.infos p) in
    let m' = set_info p n (if is_closed then close conn m else m) in
    record m' { connection_node = put conn p m'.connection_node }

-- The object at `p`, and `p` itself if the name is new.
unfoldable pub hello_new : ℕ → ℕ → ℕ → SayHelloReq → Manager → Manager
hello_new max conn now req m =
    let peer = req.node_info in
    let fresh =
      new_node peer.name peer.ip peer.instance_id (peer.port % 2 ^ 16) (peer.agent_port % 2 ^ 16)
        now in
    let m' =
      join max conn m.next (record m { infos = update m.infos m.next fresh; next = suc m.next }) in
    spawn (sync_all m.next req.data_version)
      (record m' { node_info = put peer.name m.next m'.node_info })

unfoldable pub hello_known : ℕ → ℕ → ℕ → SayHelloReq → Manager → Manager
hello_known max conn p req m =
    let m' = join max conn p m in
    let n = m'.infos p in
    let n' =
      if nat_beq n.instance_id req.node_info.instance_id
      then n
      else set_instance_id req.node_info.instance_id n in
    spawn (sync_all p req.data_version) (set_info p n' m')

-- The accepted hello, up to the reply.
unfoldable pub hello_accept : ℕ → ℕ → ℕ → SayHelloReq → Manager → Manager
hello_accept max conn now req m =
    let m' : Manager = elim (find req.node_info.name m.node_info) [
      | none ↦ hello_new max conn now req m
      | some p ↦ hello_known max conn p req m
    ] in
    record m' { temp_connection = remove conn m'.temp_connection }

abbrev refusal : SayHelloRsp
refusal = record { result = success; sign = []; time_stamp = 0; node_info = none }

-- Without a `NodeInfo`, the inner `none`, the test of the sign panics; the read loop
-- recovers and closes the connection.
unfoldable pub handle_say_hello :
    (Text → ℕ → Text) → ℕ → ℕ → ℕ → Option (Option SayHelloReq) → Manager → Manager × SzResult
handle_say_hello sign max conn now none m = (m, proto_unmarshal_fail)
handle_say_hello sign max conn now (some none) m = (m, panicked)
handle_say_hello sign max conn now (some (some req)) m =
    if not (text_beq req.sign (sign req.node_info.name req.time_stamp))
    then (
      send conn (say_hello_rsp (record refusal { result = sign_validate_fail })) m,
      sz_sign_validate_fail,
    )
    else if is_late sign_timeout_seconds req.time_stamp now
    then (send conn (say_hello_rsp (record refusal { result = sign_timeout })) m, sz_sign_timeout)
    else if not (is_started m.status)
    then (m, node_stoped)
    else (
      spawn (greet conn) (
          send conn
            (say_hello_rsp (record {
              result = success;
              sign = sign (name_of m m.self) now;
              time_stamp = now;
              node_info = some m.my_info;
            }))
            (hello_accept max conn now req m)),
      sz_success,
    )

-- Each of the handlers below starts so: without a node on the connection it closes the connection.
abbrev not_auth : ℕ → Manager → Manager × SzResult
not_auth conn m = (spawn (close_connection conn) m, node_not_auth)

unfoldable pub handle_say_goodbye_notify : ℕ → Option (Unit {0}) → Manager → Manager × SzResult
unfolding get_node_by_connection
handle_say_goodbye_notify conn none m = (m, proto_unmarshal_fail)
handle_say_goodbye_notify conn (some notify) m = elim (get_node_by_connection conn m) [
  | none ↦ not_auth conn m
  | some p ↦ (bury p m, sz_success)
]

-- The entries and the version of the notification.
unfoldable pub handle_node_entry_notify :
    ℕ → Option (List EntryInfo × ℕ) → Manager → Manager × SzResult
unfolding get_node_by_connection
handle_node_entry_notify conn none m = (m, proto_unmarshal_fail)
handle_node_entry_notify conn (some (entries, version)) m = elim (get_node_by_connection conn m) [
  | none ↦ not_auth conn m
  | some p ↦
      if is_syncing (m.infos p).status || is_dead (m.infos p).status
      then (m, node_dead_or_syncing)
      else (let (n, need_sync, changed) = modify_entry entries version (m.infos p) in
          (
            if need_sync then set_info p n m else for_each (route_one p) changed (set_info p n m),
            sz_success,
          ))
]

unfoldable pub handle_get_entry_req : ℕ → Option (Unit {0}) → Manager → Manager × SzResult
unfolding get_node_by_connection get_all_entry
handle_get_entry_req conn none m = (m, proto_unmarshal_fail)
handle_get_entry_req conn (some req) m = elim (get_node_by_connection conn m) [
  | none ↦ not_auth conn m
  | some p ↦ if not (is_started m.status) then (m, node_stoped) else (
    send conn (get_entry_resp (get_all_entry (m.infos m.self)) (m.infos m.self).data_version) m,
    sz_success,
  )
]

-- `trySyncAll` up to the call of the peer; true if it calls. `Routes.synced` is what follows a
-- call that succeeds.
unfoldable pub try_sync_all : ℕ → ℕ → Manager → Manager × Bool
try_sync_all p version m =
    let (n, need) = need_sync_all version (m.infos p) in (set_info p n m, need)

-- The version and the neighbours of the notification; the boolean is `try_sync_all`'s.
unfoldable pub handle_keep_alive :
    ℕ → Option (ℕ × List NodeInfo) → Manager → (Manager × Bool) × SzResult
unfolding get_node_by_connection
handle_keep_alive conn none m = ((m, false), proto_unmarshal_fail)
handle_keep_alive conn (some (version, neighbours)) m = elim (get_node_by_connection conn m) [
  | none ↦ ((spawn (close_connection conn) m, false), node_not_auth)
  | some p ↦
      if not (is_alive (m.infos p))
      then ((m, false), node_dead)
      else (try_sync_all p version (spawn (make_friends neighbours) m), sz_success)
]

-- `handleRpcCallReq` and `handleRpcCallResp`: the last part is the message handed to the agent
-- handler.
unfoldable pub handle_rpc_call {ℓ} :
    {A : Type ℓ} → ℕ → Option A → Manager → Manager × SzResult × Option A
unfolding get_node_by_connection
handle_rpc_call conn none m = (m, proto_unmarshal_fail, none)
handle_rpc_call conn (some msg) m = elim (get_node_by_connection conn m) [
  | none ↦ (spawn (close_connection conn) m, node_not_auth, none)
  | some p ↦ (m, sz_success, some msg)
]
