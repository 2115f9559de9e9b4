-- ===== src/CliAgent/Manager.antt =====
-- The handlers and timers of the client manager, cli_agent/agent_manager.go. The argument `req` is
-- what `proto.Unmarshal` gives, `conn` and `request_id` are those of the context, `now` is the time,
-- `sign` is `makeSign`, and `sent` tells on which connections a packet can be marshalled and written.
pub mod Calls
pub mod Joins
pub mod Steps
pub mod Listing
pub mod Registering
pub mod Serving
pub mod Start
use nbagent.Base.{
  is_late, ℕ, suc, ◌+◌, Bool, true, false, not, Option, none, some, List, [], ◌∷◌, ◌++◌, Text,
  codes, Dict, find, put, remove, values, text_eq, text_beq, nat_eq, nat_beq, ltb, keep, for_each,
  if◌then◌else◌, update, map,
}
use nbagent.Wire.{msg_type_respone}
use nbagent.Node.Entry.{EntryType}
use nbagent.Node.Manager.State.{NodeInfo}
use nbagent.CliAgent.Client.{
  AgentEntry, ClientInfo, new_client, is_alive, on_close_connection, add_connection, mark_dead,
  sync_entry, refresh_keep_live_time, timeout,
}
use nbagent.CliAgent.Handler.{NodeHandler}
use nbagent.CliAgent.State.{
  AgentResult, success, sign_validate_fail, sign_timeout, AgentInfo, AgentMsg, register_rsp,
  keep_alive_rsp, entry_check_rsp, Packet, ClientManager, set_info, close, send,
}
use nbagent.CliAgent.Uris.{add_entry, remove_entry}

-- The texts that the handlers return.
pub data SzResult : Type 0 where
  sz_success proto_unmarshal_fail sz_sign_validate_fail sz_sign_timeout agent_manager_stoped
        agent_not_auth agent_dead sz_entry_not_found agent_call_fail sz_error sz_call_your_self
        sz_node_not_exist sz_stack_empty can_not_get_top_caller json_unmarshal_error :
      SzResult

pub record RegisterReq : Type 0 where
  pub instance_id : Text
  pub entries : List AgentEntry
  pub sign : Text
  pub time_stamp : ℕ

-- `rpc.Reply`: the request id is that of the context.
abbrev pub reply_packet : ℕ → Text → AgentMsg → Packet
reply_packet conn request_id msg = record {
  conn = conn;
  uri = [];
  msg_type = msg_type_respone;
  request_id = request_id;
  msg = msg;
}

module _ {N : Type 0} (h : NodeHandler N) where
  -- `getClientByConnection`
  unfoldable pub get_client_by_connection : ℕ → ClientManager N → Option ℕ
  get_client_by_connection conn m = find conn m.connection_client

  abbrev pub reply : ℕ → Text → AgentMsg → ClientManager N → ClientManager N
  reply conn request_id msg m = send (reply_packet conn request_id msg) m

  -- A stopped manager closes the connection by a task, and counts it all the same.
  unfoldable pub on_new_connection : ℕ → ℕ → ClientManager N → ClientManager N
  on_new_connection conn now m =
      let m' = if m.is_started then m else close conn m in
      record m' { temp_connection = put conn now m'.temp_connection }

  -- The rest of `OnRead`, after the router.
  unfoldable pub on_read : ℕ → ℕ → Bool → ClientManager N → ClientManager N
  unfolding get_client_by_connection
  on_read conn now processed m =
      if not processed then close conn m else elim (get_client_by_connection conn m) [
        | none ↦ m
        | some p ↦ set_info p (refresh_keep_live_time now (m.infos p)) m
      ]

  unfoldable pub delete_client : ℕ → ClientManager N → ClientManager N
  delete_client p m =
      let (n, conns, entries) = mark_dead (m.infos p) in
      let m' = remove_entry h entries p (for_each close conns (set_info p n m)) in
      record m' { client_info = remove n.instance_id m'.client_info }

  unfoldable pub on_close_connection_of : ℕ → ClientManager N → ClientManager N
  unfolding get_client_by_connection
  on_close_connection_of conn m = elim (get_client_by_connection conn m) [
    | none ↦ record m { temp_connection = remove conn m.temp_connection }
    | some p ↦
        let (n, left) = on_close_connection conn (m.infos p) in
        let m' = set_info p n m in if nat_beq left 0 then delete_client p m' else m'
  ]

  abbrev timeout_connection : ℕ → ℕ → Dict ℕ ℕ → List ℕ
  timeout_connection limit now [] = []
  timeout_connection limit now ((conn, time) ∷ rest) =
      let later = timeout_connection limit now rest in
      if ltb (time + limit) now then conn ∷ later else later

  -- `connect_limit` is `ConnectTimeout`, `client_limit` is `ClientTimeout`.
  unfoldable pub clean_timeout : ℕ → ℕ → ℕ → ClientManager N → ClientManager N
  clean_timeout connect_limit client_limit now m =
      let late = timeout_connection connect_limit now m.temp_connection in
      let m' =
        for_each close late
          (record m { temp_connection = for_each remove late m.temp_connection }) in
      for_each delete_client
        (keep (λ p. timeout now client_limit (m'.infos p)) (values m'.client_info)) m'

  -- `addConnection`, `syncEntry` and the mark on the connection's context.
  unfoldable pub join : ℕ → ℕ → ℕ → RegisterReq → ClientManager N → ClientManager N
  join max conn p req m =
      let (n, is_closed) = add_connection max conn (m.infos p) in
      let m' = set_info p (sync_entry req.entries n) (if is_closed then close conn m else m) in
      record m' { connection_client = put conn p m'.connection_client }

  abbrev alloc : ClientInfo → ClientManager N → ClientManager N
  alloc n m = record m { infos = update m.infos m.next n; next = suc m.next }

  -- The client of that id, and the manager in which it has joined.
  unfoldable pub register : ℕ → ℕ → ℕ → RegisterReq → ClientManager N → ℕ × ClientManager N
  register max conn now req m = elim (find req.instance_id m.client_info) [
    | some p ↦ (p, join max conn p req m)
    | none ↦
        let m' = join max conn m.next req (alloc (new_client req.instance_id now) m) in
        (m.next, record m' { client_info = put req.instance_id m.next m'.client_info })
  ]

  -- The accepted registration, up to the reply.
  unfoldable pub register_accept : ℕ → ℕ → ℕ → RegisterReq → ClientManager N → ClientManager N
  register_accept max conn now req m =
      let (p, m') = register max conn now req m in
      add_entry h req.entries p (record m' { temp_connection = remove conn m'.temp_connection })

  -- `limit` is `SignTimeout`.
  unfoldable pub handle_agent_register :
      (Text → ℕ → Text)
      → ℕ
      → ℕ
      → ℕ
      → Text
      → ℕ
      → Option RegisterReq
      → ClientManager N
      → ClientManager N × SzResult
  handle_agent_register sign limit max conn request_id now none m = (m, proto_unmarshal_fail)
  handle_agent_register sign limit max conn request_id now (some req) m =
      if not (text_beq req.sign (sign req.instance_id req.time_stamp))
      then (reply conn request_id (register_rsp sign_validate_fail [] 0) m, sz_sign_validate_fail)
      else if is_late limit req.time_stamp now
      then (reply conn request_id (register_rsp sign_timeout [] 0) m, sz_sign_timeout)
      else if not m.is_started
      then (m, agent_manager_stoped)
      else (
        reply conn request_id (register_rsp success (sign m.name now) now)
            (register_accept max conn now req m),
        sz_success,
      )

  unfoldable pub handle_agent_un_register :
      ℕ → Option (Unit {0}) → ClientManager N → ClientManager N × SzResult
  unfolding get_client_by_connection
  handle_agent_un_register conn none m = (m, proto_unmarshal_fail)
  handle_agent_un_register conn (some req) m = elim (get_client_by_connection conn m) [
    | none ↦ (close conn m, agent_not_auth)
    | some p ↦ (delete_client p m, sz_success)
  ]

  abbrev agent_info_of : NodeInfo → AgentInfo
  agent_info_of n = record { name = n.name; ip = n.ip; port = n.agent_port }

  unfoldable pub handle_keep_alive :
      ℕ → Text → ℕ → Option (Unit {0}) → ClientManager N → ClientManager N × SzResult
  unfolding get_client_by_connection
  handle_keep_alive conn request_id now none m = (m, proto_unmarshal_fail)
  handle_keep_alive conn request_id now (some req) m = elim (get_client_by_connection conn m) [
    | none ↦ (close conn m, agent_not_auth)
    | some p ↦ if not (is_alive (m.infos p).status) then (m, agent_dead) else (
      reply conn request_id (keep_alive_rsp (map agent_info_of (h.node_list m.node)))
          (set_info p (refresh_keep_live_time now (m.infos p)) m),
      sz_success,
    )
  ]

  -- What the node answers is not put into the reply, whose result is 0.
  unfoldable pub handle_entry_check_req :
      ℕ → Text → Option AgentEntry → ClientManager N → ClientManager N × SzResult
  unfolding get_client_by_connection
  handle_entry_check_req conn request_id none m = (m, proto_unmarshal_fail)
  handle_entry_check_req conn request_id (some entry) m = elim (get_client_by_connection conn m) [
    | none ↦ (close conn m, agent_not_auth)
    | some p ↦ (reply conn request_id (entry_check_rsp success) m, sz_success)
  ]
