-- ===== src/CliAgent/State.antt =====
-- The state of the client manager, cli_agent/agent_manager.go. A `*ClientInfo` is a number, `infos`
-- the store of all of them. Each method is one step under its locks; `closed` are the connections
-- that were closed, `outbox` what was sent.
use nbagent.Base.{
  ℕ, Bool, List, [], ◌∷◌, ◌++◌, Text, Dict, find, text_eq, nat_eq, update, get_or_empty,
}
use nbagent.Node.Manager.State.{RpcCallReq, RpcCallResp}
use nbagent.CliAgent.Client.{ClientInfo}

pub data AgentResult : Type 0 where
  success error sign_validate_fail sign_timeout entry_not_found : AgentResult

pub record AgentInfo : Type 0 where
  pub name : Text
  pub ip : Text
  pub port : ℕ

pub data AgentMsg : Type 0 where
  register_rsp : AgentResult → Text → ℕ → AgentMsg
  keep_alive_rsp : List AgentInfo → AgentMsg
  entry_check_rsp : AgentResult → AgentMsg
  rpc_req : RpcCallReq → AgentMsg
  rpc_resp : RpcCallResp → AgentMsg
  say_goodbye : AgentMsg

-- A packet: connection, uri, type, request id, message.
pub record Packet : Type 0 where
  pub conn : ℕ
  pub uri : Text
  pub msg_type : ℕ
  pub request_id : Text
  pub msg : AgentMsg

pub record ClientManager (N : Type 0) : Type 0 where
  pub name : Text
  pub temp_connection : Dict ℕ ℕ
  pub client_info : Dict Text ℕ
  pub uri2client : Dict Text (List ℕ)
  pub is_started : Bool
  pub node : N
  pub infos : ℕ → ClientInfo
  pub next : ℕ
  pub connection_client : Dict ℕ ℕ  -- the values of CONTEXT_KEY_AGENT
  pub closed : List ℕ
  pub outbox : List Packet

module _ {N : Type 0} where
  abbrev pub clients : Text → ClientManager N → List ℕ
  clients key m = get_or_empty (find key m.uri2client)

  abbrev pub set_info : ℕ → ClientInfo → ClientManager N → ClientManager N
  set_info p n m = record m { infos = update m.infos p n }

  abbrev pub close : ℕ → ClientManager N → ClientManager N
  close conn m = record m { closed = m.closed ++ (conn ∷ []) }

  abbrev pub send : Packet → ClientManager N → ClientManager N
  send packet m = record m { outbox = m.outbox ++ (packet ∷ []) }
