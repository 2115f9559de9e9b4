-- ===== src/Examples/Crossing.antt =====
-- A call that is served by a client of another node, at concrete inputs.
use nbagent.Base.{◌≡◌, refl, some, true, [], ◌∷◌, codes, find, text_eq, text_beq, nat_eq}
use nbagent.Wire.{msg_type_request, msg_type_respone}
use nbagent.Caller.{push_stack, gen_agent_caller}
use nbagent.Node.Entry.{get_uri2, entry_type_name}
use nbagent.Node.Manager.State.{Manager, RpcCallReq, RpcCallResp, rpc_req, rpc_resp, cast}
use nbagent.Node.Manager.Dispatch.{choose}
use nbagent.CliAgent.Handler.{NodeHandler}
use nbagent.CliAgent.State
use nbagent.CliAgent.State.{ClientManager, send}
use nbagent.CliAgent.Client.{ClientInfo, alive, get_connection}
use nbagent.CliAgent.Uris.{get_client4rpc_call_req}
use nbagent.CliAgent.Manager.{sz_success, get_client_by_connection}
use nbagent.CliAgent.Manager.Calls.{
  handle_rpc_call_req, handle_request, handle_rpc_call_resp, handle_response,
}
use nbagent.Server.{node_handler}
use nbagent.Server.Crossing.{crossing, call_crosses_nodes}
use nbagent.Examples.Coding.{coding, coding-reads}
use nbagent.Examples.Agents.{env, answer, one_apart, call}
use nbagent.Examples.Servers.{home}

abbrev client : ClientInfo
client = record {
  instance_id = codes "c0";
  connection_list = 5 ∷ [];
  entry_info = [];
  status = alive;
  last_keep_alive_time = 100;
}

abbrev asking : ClientManager Manager
asking = record {
  name = codes "agent";
  temp_connection = [];
  client_info = (codes "c0", 0) ∷ [];
  uri2client = [];
  is_started = true;
  node = record home { rpc_func2node = (codes "sum_RPC", 1 ∷ []) ∷ [] };
  infos = λ p. client;
  next = 1;
  connection_client = (5, 0) ∷ [];
  closed = [];
  outbox = [];
}

abbrev serving : ClientManager Manager
serving = record asking {
  uri2client = (codes "sum_RPC", 0 ∷ []) ∷ [];
  node = record home { self = 1 };
}

abbrev handler : NodeHandler Manager
handler = node_handler coding (λ n. 0) (λ s. 9) (λ p. 0) 0

abbrev sent : RpcCallReq
sent = crossing env env (λ n. 0) (λ s. 9) (λ p. 0) 0 5 0 (codes "8") call asking

abbrev back : RpcCallResp
back = record answer {
  caller = push_stack (gen_agent_caller coding (codes "c0") (codes "8") (5 ∷ [])) [];
}

call_crosses_nodes_example :
    (handle_rpc_call_req handler env 5 (codes "8") (some call) asking
      ≡ some (record asking { node = cast 0 (codes "8") 1 (rpc_req sent) asking.node }, sz_success))
    × (handle_request handler env 4 (codes "8") sent serving
        ≡ some (
          send
              (record {
                conn = 5;
                uri = codes "node.rpcReq";
                msg_type = msg_type_request;
                request_id = env.uuid;
                msg = State.rpc_req sent;
              })
              serving,
          sz_success,
        ))
    × (handle_rpc_call_resp handler env 5
          (codes "9")
          (some (record answer { caller = sent.caller }))
          serving
        ≡ (record serving { node = cast 0 (codes "9") 0 (rpc_resp back) serving.node }, sz_success))
    × (handle_response handler env back asking ≡ (
      send
          (record {
            conn = 5;
            uri = codes "node.rpcResp";
            msg_type = msg_type_respone;
            request_id = codes "8";
            msg = State.rpc_resp (record answer { caller = [] });
          })
          asking,
      sz_success,
    ))
unfolding get_client_by_connection choose get_client4rpc_call_req get_connection find text_beq
    get_uri2 entry_type_name
call_crosses_nodes_example =
    call_crosses_nodes env env (λ n. 0) (λ s. 9) (λ p. 0) 0 5 0 1 4 0 5 5 0 0 (codes "8")
      (codes "8") (codes "9") call answer asking serving serving asking (coding-reads _)
      (coding-reads _) (λ d inside e. one_apart d 5 e) refl refl refl refl refl refl refl refl refl
      refl refl refl
