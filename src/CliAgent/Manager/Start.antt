-- ===== src/CliAgent/Manager/Start.antt =====
-- cli_agent/agent_manager.go, `NewClientManager`: the state before anything has happened, and the
-- handlers of the uris.
use nbagent.Base.{
  true, List, [], ◌∷◌, ◌++◌, Text, codes, Dict, text_beq, text_eq, for_each, if◌then◌else◌,
}
use nbagent.CliAgent.Client.{new_client}
use nbagent.CliAgent.State.{ClientManager}
use nbagent.Router.{register_router}

-- The handlers that are registered.
pub data Route : Type 0 where
  agent_register agent_un_register keep_alive rpc_req rpc_resp entry_check : Route

abbrev register : Text × Route → Dict Text Route → Dict Text Route
register (uri, route) router = (register_router uri route router).0

abbrev routes_of : List (Text × Route)
routes_of =
    (codes "agent.register", agent_register)
    ∷ (codes "agent.unregister", agent_un_register)
    ∷ (codes "agent.keepAlive", keep_alive)
    ∷ (codes "node.rpcReq", rpc_req)
    ∷ (codes "node.rpcResp", rpc_resp)
    ∷ (codes "agent.entry.check", entry_check)
    ∷ []

unfoldable pub client_router : Dict Text Route
unfolding register_router
client_router = for_each register routes_of []

-- An agent without a name gets one from the UUID. The node is the handler that is registered
-- next; until then it is a dummy.
unfoldable pub new_client_manager : {N : Type 0} → Text → Text → N → ClientManager N
unfolding new_client
new_client_manager uuid name node = record {
  name = if text_beq name [] then codes "agent_" ++ uuid else name;
  temp_connection = [];
  client_info = [];
  uri2client = [];
  is_started = true;
  node = node;
  infos = λ p. new_client [] 0;
  next = 0;
  connection_client = [];
  closed = [];
  outbox = [];
}
