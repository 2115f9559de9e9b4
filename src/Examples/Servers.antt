-- ===== src/Examples/Servers.antt =====
-- A process with a node and a client manager, and a node that is dialled, at concrete inputs.
use nbagent.Base.{
  is_late, ℕ, ◌≡◌, ◌≢◌, ◌∙◌, arith, ◌⊎◌, refl, Option, none, some, [], ◌∷◌, Text, codes, find, has,
  text_eq, nat_beq, nat_eq, text_beq, if◌then◌else◌, put,
}
use nbagent.Caller.{Json}
use nbagent.Node.Info.{Info, alive}
use nbagent.Node.Manager.State.{
  Manager, started, NodeInfo, SayHelloReq, SayHelloRsp, success, get_node_by_connection, name_of,
}
use nbagent.Node.Manager.Tasks.{reconnect, answered, next_request}
use nbagent.Node.Manager.Tasks.Joining.{Vouched, reconnect-Vouched}
use nbagent.CliAgent.State.{ClientManager}
use nbagent.CliAgent.Manager.{handle_agent_register}
use nbagent.CliAgent.Manager.Steps.{registered}
use nbagent.Server.{node_handler, new_nb_server, ServerConf}
use nbagent.Server.Entries.{IsInStep, has_own}
use nbagent.Server.Process.Steps
use nbagent.Server.Process.Steps.{client, node}
use nbagent.Server.Process.Serving.{served_among_nodes}
use nbagent.CliAgent.Manager.Listing.{IsListed}
use nbagent.Node.Manager.Handlers.{handle_say_hello}
use nbagent.Node.Manager.Run.Steps.{said_hello}
use nbagent.Examples.Agents.{sign, register}

-- Any function at all.
abbrev json : Json
json = record { marshal = λ c. c.node; unmarshal = λ s. none }

abbrev node_named : Text → ℕ → Info
node_named name instance_id = record {
  name = name;
  ip = codes "10.0.0.1";
  port = 8800;
  agent_port = 8900;
  connection_list = [];
  sequence = 0;
  status = alive;
  entry_info = [];
  data_version = 0;
  last_keep_alive_time = 100;
  instance_id = instance_id;
}

-- Two nodes that know of each other, without connections.
abbrev pub home : Manager
home = record {
  temp_connection = [];
  node_info = (codes "n0", 0) ∷ (codes "n1", 1) ∷ [];
  rpc_func2node = [];
  self = 0;
  sequence = 0;
  neighbour = [];
  status = started;
  my_info = record {
    name = codes "n0";
    ip = codes "10.0.0.0";
    port = 8800;
    instance_id = 3;
    agent_port = 8900;
  };
  infos = λ p. if nat_beq p 0 then node_named (codes "n0") 3 else node_named (codes "n1") 7;
  next = 2;
  connection_node = [];
  closed = [];
  tasks = [];
  outbox = [];
}

abbrev conf : ServerConf
conf = record {
  node_name = codes "n0";
  agent_name = codes "agent";
  host = codes "10.0.0.0";
  node_port = 8800;
  agent_port = 8900;
  neighbours = [];
}

abbrev fresh : ClientManager Manager
fresh = new_nb_server [] [] 3 100 conf

abbrev after : ClientManager Manager
after =
    (handle_agent_register (node_handler json (λ n. 0) (λ s. 9) (λ p. 0) 0) sign 5 10 6 (codes "1")
      101 (some register) fresh).0

-- Another node says hello after the client has registered.
abbrev pub hello : SayHelloReq
hello = record {
  node_info = record {
    name = codes "n1";
    ip = codes "10.0.0.1";
    port = 8800;
    instance_id = 7;
    agent_port = 8900;
  };
  sign = sign (codes "n1") 101;
  time_stamp = 101;
  data_version = 0;
}

abbrev met : ClientManager Manager
met = record after { node = (handle_say_hello sign 10 9 102 (some (some hello)) after.node).0 }

own : name_of after.node after.node.self ≡ codes "n0"
unfolding is_late handle_agent_register text_beq new_nb_server
    nbagent.CliAgent.Manager.register_accept nbagent.CliAgent.Uris.add_entry
    nbagent.CliAgent.Uris.add_one find nbagent.CliAgent.Manager.register
    nbagent.CliAgent.Manager.join nbagent.CliAgent.Client.add_connection node_handler
    nbagent.Node.Manager.Local.add_entry nbagent.Node.Info.entry_exist
    nbagent.Node.Manager.Local.modify_self nbagent.Node.Info.modify_entry
    nbagent.Node.Info.modify_one
own = refl

elsewhere : codes "n1" ≢ codes "n0"
elsewhere e = grind (arith, e)

served_among_nodes_example :
    IsListed met
    × ((key : Text) → has_own key met.node ≡ has key met.uri2client)
    × IsInStep met.node
    × ((conn p : ℕ) → get_node_by_connection conn met.node ≡ some p → p ≢ met.node.self)
served_among_nodes_example =
    served_among_nodes json (λ n. 0) (λ s. 9) (λ p. 0) 0 [] [] 3 100 conf met
      (Steps.later
        (Steps.later Steps.here
          (client (registered sign 5 10 6 (codes "1") 101 (some register) fresh)))
        (node after (said_hello sign 10 9 102 (some (some hello)) after.node)
          (λ e. elsewhere (e ∙ own))))

abbrev greeting : SayHelloRsp
greeting = record {
  result = success;
  sign = sign (codes "n1") 50;
  time_stamp = 50;
  node_info = some (record {
    name = codes "n1";
    ip = codes "10.0.0.1";
    port = 8800;
    instance_id = 7;
    agent_port = 8900;
  });
}

abbrev dialled : Manager
dialled = answered sign 10 7 1 (some greeting) (next_request 1 home)

reconnect-Vouched_example :
    (get_node_by_connection 7 home ≡ some 1)
    ⊎ (◌≡◌ {A = Option ℕ} (some 7) (some 7))
      × (◌≡◌ {A = ℕ} 1 1)
      × (peer : NodeInfo) × Vouched sign (name_of home 1) (some greeting) peer
unfolding reconnect nbagent.Node.Info.connection_available get_node_by_connection find answered
    text_beq nbagent.Node.Manager.Tasks.joined nbagent.Node.Manager.Handlers.join put
reconnect-Vouched_example =
    reconnect-Vouched sign 10 1 (some 7) (some greeting) home dialled 7 1 refl refl
