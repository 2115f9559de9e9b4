-- ===== src/Node/Manager/State.antt =====
-- The state of the node manager. A `*Info` and a `*ServerConnection` are numbers; `infos` is the
-- store of all `Info`s, those that the maps no longer reach included. Each method is one step under
-- its locks; what it starts by `GoTask` is put on `tasks`, and what it sends on `outbox`.
use nbagent.Base.{
  ℕ, ◌+◌, ◌%◌, ◌^◌, Bool, true, false, Option, none, some, List, [], ◌∷◌, ◌++◌, Text, Dict, find,
  text_eq, nat_eq, text_beq, update, if◌then◌else◌,
}
use nbagent.Node.Entry.{EntryType, EntryInfo}
use nbagent.Node.Info.{Info, get_connection}

-- The messages of protocol/node/node.proto.
pub record NodeInfo : Type 0 where
  pub name : Text
  pub ip : Text
  pub port : ℕ
  pub instance_id : ℕ
  pub agent_port : ℕ

pub data ResultCode : Type 0 where
  success error sign_validate_fail sign_timeout entry_not_found call_your_self node_not_exist
        stack_empty :
      ResultCode

pub data RequestMode : Type 0 where
  default_mode local_force local_better : RequestMode
  other_mode : ℕ → RequestMode

pub record RpcCallReq : Type 0 where
  pub payload : List ℕ
  pub uri : Text
  pub caller : List Text
  pub request_mode : RequestMode
  pub key : Text
  pub entry_type : EntryType

pub record RpcCallResp : Type 0 where
  pub result : ResultCode
  pub payload : List ℕ
  pub uri : Text
  pub caller : List Text
  pub entry_type : EntryType

pub record SayHelloReq : Type 0 where
  pub node_info : NodeInfo
  pub sign : Text
  pub time_stamp : ℕ
  pub data_version : ℕ

pub record SayHelloRsp : Type 0 where
  pub result : ResultCode
  pub sign : Text
  pub time_stamp : ℕ
  pub node_info : Option NodeInfo

-- What is sent over a connection.
pub data Msg : Type 0 where
  say_hello_rsp : SayHelloRsp → Msg
  say_goodbye : Msg
  get_entry : Msg
  get_entry_resp : List EntryInfo → ℕ → Msg
  entry_notify : List EntryInfo → ℕ → Msg
  keep_alive : ℕ → List NodeInfo → Msg
  rpc_req : RpcCallReq → Msg
  rpc_resp : RpcCallResp → Msg

-- The functions given to `GoTask`, with what they capture.
pub data Task : Type 0 where
  reconnect : ℕ → Task
  close_connection : ℕ → Task
  sync_all : ℕ → ℕ → Task
  greet : ℕ → Task
  make_friends : List NodeInfo → Task
  notify_entry : EntryInfo → Task

pub data ManagerStatus : Type 0 where
  started stoped : ManagerStatus

pub record Neighbour : Type 0 where
  pub name : Text
  pub ip : Text
  pub port : ℕ
  pub agent_port : ℕ

pub record Manager : Type 0 where
  pub temp_connection : Dict ℕ ℕ
  pub node_info : Dict Text ℕ
  pub rpc_func2node : Dict Text (List ℕ)
  pub self : ℕ
  pub sequence : ℕ  -- uint64
  pub neighbour : List Neighbour
  pub status : ManagerStatus
  pub my_info : NodeInfo  -- the value of NODE_INFO_KEY
  pub infos : ℕ → Info
  pub next : ℕ
  pub connection_node : Dict ℕ ℕ  -- the values of CONTEXT_KEY_NODE
  pub closed : List ℕ  -- the connections that were closed
  pub tasks : List Task
  pub outbox : List (ℕ × Msg)

abbrev pub is_started : ManagerStatus → Bool
is_started started = true
is_started stoped = false

-- What a method of `*Info` does to the object at `p`.
abbrev pub set_info : ℕ → Info → Manager → Manager
set_info p n m = record m { infos = update m.infos p n }

abbrev pub spawn : Task → Manager → Manager
spawn t m = record m { tasks = m.tasks ++ (t ∷ []) }

abbrev pub send : ℕ → Msg → Manager → Manager
send conn msg m = record m { outbox = m.outbox ++ ((conn, msg) ∷ []) }

abbrev pub close : ℕ → Manager → Manager
close conn m = record m { closed = m.closed ++ (conn ∷ []) }

abbrev pub name_of : Manager → ℕ → Text
name_of m p = (m.infos p).name

-- `getNodeByConnection`
unfoldable pub get_node_by_connection : ℕ → Manager → Option ℕ
get_node_by_connection conn m = find conn m.connection_node

abbrev send_to : Option ℕ → Msg → Manager → Manager
send_to none msg m = m
send_to (some conn) msg m = send conn msg m

-- `Info.cast` and the `Start` of what it returns. `pick` is what `rand.Intn` gives; the sequence
-- number is used up for the request id if the context has none.
unfoldable pub cast : ℕ → Text → ℕ → Msg → Manager → Manager
cast pick request_id p msg m =
    let n = m.infos p in
    let n' =
      if text_beq request_id [] then record n { sequence = (n.sequence + 1) % 2 ^ 32 } else n in
    send_to (get_connection pick n) msg (set_info p n' (spawn (reconnect p) m))
