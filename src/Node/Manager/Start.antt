-- ===== src/Node/Manager/Start.antt =====
-- node/manager.go, `NewManager`: the state of a node before anything has happened, and the handlers of
-- its uris.
use nbagent.Base.{
  ℕ, List, [], ◌∷◌, ◌++◌, arith, Text, codes, Dict, find, text_beq, text_eq, for_each,
  if◌then◌else◌,
}
use nbagent.Node.Info.{new_node}
use nbagent.Node.Manager.State.{Manager, Neighbour, started}
use nbagent.Node.Manager.Routes.Known.{IsRouted}
use nbagent.Router.{register_router}

-- The handlers that are registered.
pub data Route : Type 0 where
  say_hello say_goodbye get_entry entry_notify keep_alive rpc_req rpc_resp : Route

abbrev register : Text × Route → Dict Text Route → Dict Text Route
register (uri, route) router = (register_router uri route router).0

abbrev routes_of : List (Text × Route)
routes_of =
    (codes "node.hello", say_hello)
    ∷ (codes "node.goodbye", say_goodbye)
    ∷ (codes "node.getEntry", get_entry)
    ∷ (codes "node.entryNotify", entry_notify)
    ∷ (codes "node.keepAlive", keep_alive)
    ∷ (codes "node.rpcReq", rpc_req)
    ∷ (codes "node.rpcResp", rpc_resp)
    ∷ []

unfoldable pub node_router : Dict Text Route
unfolding register_router
node_router = for_each register routes_of []

-- A node without a name gets one from the UUID; `instance` is the time in nanoseconds, `now` in
-- seconds. The store holds the node itself.
unfoldable pub new_manager : Text → Text → Text → ℕ → ℕ → List Neighbour → ℕ → ℕ → Manager
unfolding new_node
new_manager uuid sz_name ip port agent_port neighbours instance_id now =
    let name = if text_beq sz_name [] then codes "node_" ++ uuid else sz_name in
    record {
      temp_connection = [];
      node_info = (name, 0) ∷ [];
      rpc_func2node = [];
      self = 0;
      sequence = 0;
      neighbour = neighbours;
      status = started;
      my_info = record {
        name = name;
        ip = ip;
        port = port;
        instance_id = instance_id;
        agent_port = agent_port;
      };
      infos = λ p. new_node name ip instance_id port agent_port now;
      next = 1;
      connection_node = [];
      closed = [];
      tasks = [];
      outbox = [];
    }

-- Nothing is routed at the start.
new_manager-IsRouted :
    (uuid name ip : Text) (port agent_port : ℕ) (neighbours : List Neighbour) (instance_id now : ℕ)
    → IsRouted (new_manager uuid name ip port agent_port neighbours instance_id now)
unfolding new_manager find
new_manager-IsRouted uuid name ip port agent_port neighbours instance_id now = record {
  known = λ key p e. absurd (ground arith);
  allocated = λ key p e. absurd (ground arith);
  keyed = λ p key entry e. absurd (ground arith);
}
