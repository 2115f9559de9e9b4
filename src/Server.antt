-- ===== src/Server.antt =====
-- nbserver/server.go: one process runs a node manager and a client manager, each a handler of the
-- other.
pub mod Entries
pub mod Process
pub mod Legs
pub mod Crossing
use nbagent.Base.{ℕ, Option, none, some, List, [], Text}
use nbagent.Caller.{Json}
use nbagent.Node.Entry.{EntryType}
use nbagent.Node.Manager.State.{
  Manager, Neighbour, NodeInfo, RpcCallReq, RpcCallResp, ResultCode, error,
}
use nbagent.Node.Manager.Local
use nbagent.Node.Manager.Local.{add_entry, remove_entry}
use nbagent.Node.Manager.Start.{new_manager}
use nbagent.CliAgent.State.{ClientManager}
use nbagent.CliAgent.Manager.Calls
use nbagent.CliAgent.Manager.Calls.{Env}
use nbagent.CliAgent.Manager.Start.{new_client_manager}
use nbagent.Node.Manager.Dispatch.{dispatch_req, dispatch_rsp, entry_check, node_list}
use nbagent.CliAgent.Handler.{NodeHandler}

-- Where a call of the node panics, the state stays; the results given there are never looked at,
-- since the panic leaves the handler that called.
abbrev pub unless_panic : Manager → Option (Manager × ResultCode) → Manager × ResultCode
unless_panic m none = (m, error)
unless_panic m (some r) = r

abbrev nodes_unless_panic : Option (List NodeInfo) → List NodeInfo
nodes_unless_panic none = []
nodes_unless_panic (some nodes) = nodes

-- The node manager as the client manager's `NodeHandler`.
unfoldable pub node_handler : Json → (ℕ → ℕ) → (Text → ℕ) → (ℕ → ℕ) → ℕ → NodeHandler Manager
node_handler json intn checksum pick start = record {
  dispatch_req =
      λ request_id req m. unless_panic m (dispatch_req json intn checksum pick request_id req m);
  dispatch_rsp = λ request_id rsp m. dispatch_rsp json pick request_id rsp m;
  add_entry = add_entry;
  remove_entry = remove_entry;
  node_list = λ m. nodes_unless_panic (node_list start m);
  entry_check = entry_check;
}

-- The part of the configuration that the managers are made from.
pub record ServerConf : Type 0 where
  pub node_name : Text
  pub agent_name : Text
  pub host : Text
  pub node_port : ℕ
  pub agent_port : ℕ
  pub neighbours : List Neighbour

-- `NewNBServer`; the UUIDs and the times are arguments.
unfoldable pub new_nb_server : Text → Text → ℕ → ℕ → ServerConf → ClientManager Manager
unfolding new_manager new_client_manager
new_nb_server node_uuid agent_uuid instance_id now conf =
    new_client_manager agent_uuid conf.agent_name (
      new_manager node_uuid conf.node_name conf.host conf.node_port conf.agent_port conf.neighbours
        instance_id now)

-- `Run`, once it is told to stop; `pick` chooses the connections over which the node says goodbye.
unfoldable pub stop :
    NodeHandler Manager → Env → (ℕ → ℕ) → ClientManager Manager → ClientManager Manager
stop handler env pick m = Calls.stop handler env (record m { node = Local.stop pick m.node })
