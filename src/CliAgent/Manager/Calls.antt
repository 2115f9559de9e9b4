-- ===== src/CliAgent/Manager/Calls.antt =====
-- Calls between clients, `rpcCall` and `rpcResp` of cli_agent/agent.go and the handlers of calls and
-- responses of cli_agent/agent_manager.go.
pub mod Answers
pub mod Untouched
use nbagent.Base.{
  ℕ, Bool, true, false, not, Option, none, some, List, [], ◌∷◌, Text, codes, find, text_eq, nat_eq,
  nat_beq, values, for_each, if◌then◌else◌,
}
use nbagent.Wire.{msg_type_request, msg_type_respone, msg_type_cast}
use nbagent.Caller.{
  Caller, Json, caller_agent, push_stack, get_top_stack, pop_stack, gen_agent_caller,
}
use nbagent.Node.Entry.{invalidate}
use nbagent.Node.Manager.State.{
  RpcCallReq, RpcCallResp, ResultCode, success, error, sign_validate_fail, sign_timeout,
  entry_not_found, call_your_self, node_not_exist, stack_empty,
}
use nbagent.CliAgent.Client.{ClientInfo, is_alive, get_connection, get_resp_connection}
use nbagent.CliAgent.Handler.{NodeHandler}
use nbagent.CliAgent.State.{
  rpc_req, rpc_resp, say_goodbye, AgentMsg, Packet, ClientManager, close, send,
}
use nbagent.CliAgent.Uris.{get_client4rpc_call_req}
use nbagent.CliAgent.Manager.{
  SzResult, sz_success, proto_unmarshal_fail, sz_sign_validate_fail, sz_sign_timeout,
  agent_not_auth, sz_entry_not_found, agent_call_fail, sz_error, sz_call_your_self,
  sz_node_not_exist, sz_stack_empty, can_not_get_top_caller, json_unmarshal_error,
  get_client_by_connection, reply,
}

-- What the handlers use from outside: JSON, `rand.Intn` for a client and for a connection, the
-- CRC-32, `getConnectionID`, a fresh UUID, and on which connections a packet can be written.
pub record Env : Type 0 where
  pub json : Json
  pub intn : ℕ → ℕ
  pub pick : ℕ
  pub checksum : Text → ℕ
  pub connection_id : ℕ → Text
  pub uuid : Text
  pub writes : ℕ → Bool

unfoldable pub sz_of : ResultCode → SzResult
sz_of success = sz_success
sz_of error = sz_error
sz_of sign_validate_fail = sz_sign_validate_fail
sz_of sign_timeout = sz_sign_timeout
sz_of entry_not_found = sz_entry_not_found
sz_of call_your_self = sz_call_your_self
sz_of node_not_exist = sz_node_not_exist
sz_of stack_empty = sz_stack_empty

abbrev pub failed : ResultCode → RpcCallResp
failed code = record { result = code; payload = []; uri = []; caller = []; entry_type = invalidate }

module _ {N : Type 0} (h : NodeHandler N) (env : Env) where
  unfoldable pub send_message : Packet → ClientManager N → ClientManager N × Bool
  send_message packet m = if env.writes packet.conn then (send packet m, true) else (m, false)

  unfoldable pub rpc_call : ℕ → RpcCallReq → ClientManager N → ClientManager N × Bool
  unfolding send_message
  rpc_call p req m =
      if not (is_alive (m.infos p).status)
      then (m, false)
      else elim (get_connection env.pick (m.infos p)) [
        | none ↦ (m, false)
        | some conn ↦
            send_message
              (record {
                conn = conn;
                uri = codes "node.rpcReq";
                msg_type = msg_type_request;
                request_id = env.uuid;
                msg = rpc_req req;
              })
              m
      ]

  unfoldable pub rpc_response : ℕ → RpcCallResp → Caller → ClientManager N → ClientManager N × Bool
  unfolding send_message
  rpc_response p resp caller m =
      if not (is_alive (m.infos p).status)
      then (m, false)
      else elim (get_resp_connection env.connection_id env.pick caller.connection_id (m.infos p)) [
        | none ↦ (m, false)
        | some conn ↦
            send_message
              (record {
                conn = conn;
                uri = codes "node.rpcResp";
                msg_type = msg_type_respone;
                request_id = caller.request_id;
                msg = rpc_resp resp;
              })
              m
      ]

  unfoldable pub say_bye : ℕ → ClientManager N → ClientManager N
  unfolding send_message
  say_bye p m = elim (get_connection env.pick (m.infos p)) [
    | none ↦ m
    | some conn ↦
        (send_message
          (record {
            conn = conn;
            uri = codes "node.goodbye";
            msg_type = msg_type_cast;
            request_id = env.uuid;
            msg = say_goodbye;
          })
          m).0
  ]

  -- The call goes to a client of its key. `none` is an index out of range, which panics.
  unfoldable pub call_client :
      ℕ → Text → RpcCallReq → ClientManager N → Option (ClientManager N × SzResult)
  call_client conn request_id req m = elim (get_client4rpc_call_req env.intn env.checksum req m) [
    | none ↦
        some (reply h conn request_id (rpc_resp (failed entry_not_found)) m, sz_entry_not_found)
    | some none ↦ none
    | some (some p) ↦
        let (m', done) = rpc_call p req m in some (m', if done then sz_success else agent_call_fail)
  ]

  unfoldable pub answer_req :
      ResultCode → ℕ → Text → RpcCallReq → ClientManager N → Option (ClientManager N × SzResult)
  unfolding call_client
  answer_req call_your_self conn request_id req m = call_client conn request_id req m
  answer_req success conn request_id req m = some (m, sz_success)
  answer_req code conn request_id req m =
      some (reply h conn request_id (rpc_resp (failed code)) m, sz_of code)

  unfoldable pub handle_rpc_call_req :
      ℕ → Text → Option RpcCallReq → ClientManager N → Option (ClientManager N × SzResult)
  unfolding get_client_by_connection
  handle_rpc_call_req conn request_id none m = some (m, proto_unmarshal_fail)
  handle_rpc_call_req conn request_id (some req) m = elim (get_client_by_connection h conn m) [
    | none ↦ some (close conn m, agent_not_auth)
    | some p ↦
        let caller =
          gen_agent_caller env.json (m.infos p).instance_id request_id (env.connection_id conn) in
        let req' : RpcCallReq = record req { caller = push_stack caller req.caller } in
        let (node, code) = h.dispatch_req request_id req' m.node in
        answer_req code conn request_id req' (record m { node = node })
  ]

  -- The response goes to the client on top of the stack of callers, which is popped.
  unfoldable pub answer_client : RpcCallResp → ClientManager N → ClientManager N × SzResult
  answer_client resp m = elim (pop_stack resp.caller).0 [
    | none ↦ (m, can_not_get_top_caller)
    | some top ↦ elim (env.json.unmarshal top) [
      | none ↦ (m, json_unmarshal_error)
      | some c ↦
          if not (nat_beq c.type caller_agent)
          then (m, sz_success)
          else elim (find c.agent_id m.client_info) [
            | none ↦ (m, sz_success)
            | some p ↦ (
              (rpc_response p (record resp { caller = (pop_stack resp.caller).1 }) c m).0,
              sz_success,
            )
          ]
    ]
  ]

  unfoldable pub answer_rsp :
      ResultCode → ℕ → RpcCallResp → ClientManager N → ClientManager N × SzResult
  unfolding get_client_by_connection
  answer_rsp call_your_self conn resp m = elim (get_client_by_connection h conn m) [
    | none ↦ (close conn m, agent_not_auth)
    | some p ↦ answer_client resp m
  ]
  answer_rsp code conn resp m = (m, sz_of code)

  unfoldable pub handle_rpc_call_resp :
      ℕ → Text → Option RpcCallResp → ClientManager N → ClientManager N × SzResult
  handle_rpc_call_resp conn request_id none m = (m, proto_unmarshal_fail)
  handle_rpc_call_resp conn request_id (some resp) m =
      let (node, code) = h.dispatch_rsp request_id resp m.node in
      answer_rsp code conn resp (record m { node = node })

  -- `HandleRequest`, of another node.
  unfoldable pub handle_request :
      ℕ → Text → RpcCallReq → ClientManager N → Option (ClientManager N × SzResult)
  handle_request conn request_id req m = call_client conn request_id req m

  -- `HandleResponse`, of another node.
  unfoldable pub handle_response : RpcCallResp → ClientManager N → ClientManager N × SzResult
  handle_response resp m = answer_client resp m

  unfoldable pub stop : ClientManager N → ClientManager N
  stop m = for_each say_bye (values m.client_info) (record m { is_started = false })
