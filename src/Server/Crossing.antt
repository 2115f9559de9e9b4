-- ===== src/Server/Crossing.antt =====
-- A call of a client that is served by a client of another node: the way there and back through the
-- client manager and the node manager of both processes.
use nbagent.Base.{ℕ, ◌≡◌, true, some, Text, codes, find, text_eq, nat_eq, elem}
use nbagent.Wire.{msg_type_request, msg_type_respone}
use nbagent.Caller.{node_caller, agent_caller, push_stack, gen_agent_caller, gen_node_caller}
use nbagent.Node.Entry.{get_uri2}
use nbagent.Node.Manager.State.{
  Manager, RpcCallReq, RpcCallResp, default_mode, rpc_req, rpc_resp, name_of, cast,
}
use nbagent.Node.Manager.Routes.{routes}
use nbagent.Node.Manager.Dispatch.{choose, forward}
use nbagent.CliAgent.Client.{is_alive, get_connection}
use nbagent.CliAgent.Uris.{get_client4rpc_call_req}
use nbagent.CliAgent.State.{ClientManager, send}
use nbagent.CliAgent.State
use nbagent.CliAgent.Manager.{sz_success, get_client_by_connection}
use nbagent.CliAgent.Manager.Calls.{
  Env, handle_request, handle_rpc_call_req, handle_rpc_call_resp, handle_response,
}
use nbagent.CliAgent.Manager.Calls.Answers.{answer_client-asked}
use nbagent.Server.Legs.{handler, request-forwarded, response-forwarded, request-served}

module _ (env env' : Env) (intn : ℕ → ℕ) (checksum : Text → ℕ) (pick : ℕ → ℕ) (start : ℕ) where
  -- What the process sends to the node that it chooses.
  abbrev pub crossing : ℕ → ℕ → Text → RpcCallReq → ClientManager Manager → RpcCallReq
  crossing conn p request_id req m = record req {
    caller = push_stack (gen_node_caller env.json (name_of m.node m.node.self)) (
        push_stack
          (gen_agent_caller env.json (m.infos p).instance_id request_id (env.connection_id conn))
          req.caller);
  }

  -- A request of a client in the default mode, which the node manager forwards to the node that it
  -- chooses; a process that knows the asking node by its name and gets the request, where the client
  -- that it chooses is alive and can be written to; a response with the stack of callers of that
  -- request; and the asking process when it gets the response, where JSON reads back the two callers
  -- that the asking process pushed, no other connection of the client has the id of the one that asked,
  -- and the client is known, alive, has that connection still and can be written to. The request is cast to the chosen node and handed to the serving client, the response
  -- is cast to the asking node, and there it is sent over the connection that asked, with the id of the
  -- request and its own stack of callers.
  pub call_crosses_nodes :
      (conn p q conn' s d conn'' b p' : ℕ) (request_id id' id'' : Text) (req : RpcCallReq)
      (resp : RpcCallResp) (asking serving served answered : ClientManager Manager)
      → (let c = node_caller (name_of asking.node asking.node.self) in
          env.json.unmarshal (env.json.marshal c) ≡ some c)
      → (let c = agent_caller (asking.infos p).instance_id request_id (env.connection_id conn) in
          env.json.unmarshal (env.json.marshal c) ≡ some c)
      → ((e : ℕ)
          → elem e (answered.infos p').connection_list ≡ true
          → env.connection_id e ≡ env.connection_id conn
          → e ≡ conn)
      → get_client_by_connection (handler env env' intn checksum pick start) conn asking ≡ some p
      → req.request_mode ≡ default_mode
      → choose intn checksum req.key (routes (get_uri2 req.uri req.entry_type) asking.node) ≡ some q
      → get_client4rpc_call_req env'.intn env'.checksum
          (crossing conn p request_id req asking)
          serving
        ≡ some (some s)
      → is_alive (serving.infos s).status ≡ true
      → get_connection env'.pick (serving.infos s) ≡ some d
      → env'.writes d ≡ true
      → find (name_of asking.node asking.node.self) served.node.node_info ≡ some b
      → find (asking.infos p).instance_id answered.client_info ≡ some p'
      → is_alive (answered.infos p').status ≡ true
      → elem conn (answered.infos p').connection_list ≡ true
      → env.writes conn ≡ true
      → let sent = crossing conn p request_id req asking in
        let back : RpcCallResp = record resp {
          caller =
              push_stack
                (gen_agent_caller env.json
                  (asking.infos p).instance_id
                  request_id
                  (env.connection_id conn))
                req.caller;
        } in
        (handle_rpc_call_req
            (handler env env' intn checksum pick start)
            env
            conn
            request_id
            (some req)
            asking
          ≡ some (
            record asking { node = cast (pick q) request_id q (rpc_req sent) asking.node },
            sz_success,
          ))
        × (handle_request (handler env env' intn checksum pick start) env' conn' id' sent serving
            ≡ some (
              send
                  (record {
                    conn = d;
                    uri = codes "node.rpcReq";
                    msg_type = msg_type_request;
                    request_id = env'.uuid;
                    msg = State.rpc_req sent;
                  })
                  serving,
              sz_success,
            ))
        × (handle_rpc_call_resp
              (handler env env' intn checksum pick start)
              env'
              conn''
              id''
              (some (record resp { caller = sent.caller }))
              served
            ≡ (
              record served { node = cast (pick b) id'' b (rpc_resp back) served.node },
              sz_success,
            ))
        × (handle_response (handler env env' intn checksum pick start) env back answered ≡ (
          send
              (record {
                conn = conn;
                uri = codes "node.rpcResp";
                msg_type = msg_type_respone;
                request_id = request_id;
                msg = State.rpc_resp (record resp { caller = req.caller });
              })
              answered,
          sz_success,
        ))
  unfolding handle_response forward
  call_crosses_nodes conn p q conn' s d conn'' b p' request_id id' id'' req resp asking serving
        served answered json json' apart client mode chosen serves lives over writes peer known
        lives' here writes' =
      let sent = crossing conn p request_id req asking in
      let stack =
        push_stack
          (gen_agent_caller env.json (asking.infos p).instance_id request_id
            (env.connection_id conn))
          req.caller in
      (
        request-forwarded env env' intn checksum pick start conn p q request_id req asking client
            mode chosen,
        request-served env env' intn checksum pick start conn' s d id' sent serving serves lives
            over writes,
        response-forwarded env env' intn checksum pick start conn'' b id''
            (name_of asking.node asking.node.self) stack resp served json peer,
        answer_client-asked (handler env env' intn checksum pick start) env
            (asking.infos p).instance_id request_id conn p' req.caller resp answered json' apart
            known lives' here writes',
      )
