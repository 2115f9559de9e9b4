-- ===== src/Server/Legs.antt =====
-- The ways of a call and of its response through one process: cli_agent/agent_manager.go over
-- node/manager.go.
use nbagent.Base.{
  ℕ, ◌≡◌, ap, ◌∙◌, true, some, List, [], ◌∷◌, arith, Text, codes, find, text_eq, nat_eq,
}
use nbagent.Wire.{msg_type_request}
use nbagent.Caller.{node_caller, push_stack, gen_agent_caller, gen_node_caller}
use nbagent.Node.Entry.{get_uri2}
use nbagent.Node.Manager.State.{
  Manager, RpcCallReq, RpcCallResp, ResultCode, success, default_mode, rpc_resp, cast,
}
use nbagent.Node.Manager.Routes.{routes}
use nbagent.Node.Manager.Dispatch.{
  choose, forward, dispatch_req, dispatch_to, forward_to, dispatch_mode,
}
use nbagent.Node.Manager.Dispatch.Return.{dispatch_rsp-forwarder}
use nbagent.CliAgent.Client.{is_alive, get_connection}
use nbagent.CliAgent.Uris.{get_client4rpc_call_req}
use nbagent.CliAgent.Handler.{NodeHandler}
use nbagent.CliAgent.State.{ClientManager, send}
use nbagent.CliAgent.State
use nbagent.CliAgent.Manager.{sz_success, get_client_by_connection}
use nbagent.CliAgent.Manager.Calls.{
  Env, handle_request, call_client, rpc_call, send_message, handle_rpc_call_req,
  handle_rpc_call_resp, answer_req, answer_rsp, sz_of,
}
use nbagent.Server.{node_handler, unless_panic}

dispatch_to-chosen :
    (env : Env) (intn : ℕ → ℕ) (checksum : Text → ℕ) (pick : ℕ → ℕ) (request_id : Text) (q : ℕ)
    (nodes : List ℕ) (req : RpcCallReq) (m : Manager)
    → choose intn checksum req.key nodes ≡ some q
    → dispatch_to env.json intn checksum pick request_id nodes req m
      ≡ some (forward env.json (pick q) request_id q req m, success)
unfolding dispatch_to forward_to choose
dispatch_to-chosen env intn checksum pick request_id q [] req m chosen =
    absurd (ground (arith, chosen))
dispatch_to-chosen env intn checksum pick request_id q (p ∷ ps) req m chosen =
    ap (λ c. forward_to env.json pick request_id c req m) chosen

-- The default mode forwards to the node that is chosen.
dispatch_req-chosen :
    (env : Env) (intn : ℕ → ℕ) (checksum : Text → ℕ) (pick : ℕ → ℕ) (request_id : Text) (q : ℕ)
    (req : RpcCallReq) (m : Manager)
    → req.request_mode ≡ default_mode
    → choose intn checksum req.key (routes (get_uri2 req.uri req.entry_type) m) ≡ some q
    → dispatch_req env.json intn checksum pick request_id req m
      ≡ some (forward env.json (pick q) request_id q req m, success)
unfolding dispatch_req dispatch_mode
dispatch_req-chosen env intn checksum pick request_id q req m mode chosen =
    ap (λ mode'. dispatch_mode mode' env.json intn checksum pick request_id req m) mode
    ∙ dispatch_to-chosen env intn checksum pick request_id q
        (routes (get_uri2 req.uri req.entry_type) m) req m chosen

module _ (env env' : Env) (intn : ℕ → ℕ) (checksum : Text → ℕ) (pick : ℕ → ℕ) (start : ℕ) where
  abbrev pub handler : NodeHandler Manager
  handler = node_handler env.json intn checksum pick start

  -- The way there.
  pub request-forwarded :
      (conn p q : ℕ) (request_id : Text) (req : RpcCallReq) (m : ClientManager Manager)
      → get_client_by_connection handler conn m ≡ some p
      → req.request_mode ≡ default_mode
      → choose intn checksum req.key (routes (get_uri2 req.uri req.entry_type) m.node) ≡ some q
      → handle_rpc_call_req handler env conn request_id (some req) m
        ≡ some (
          record m {
            node =
                forward env.json
                  (pick q)
                  request_id
                  q
                  (record req {
                    caller =
                        push_stack
                          (gen_agent_caller env.json
                            (m.infos p).instance_id
                            request_id
                            (env.connection_id conn))
                          req.caller;
                  })
                  m.node;
          },
          sz_success,
        )
  unfolding handle_rpc_call_req node_handler answer_req
  request-forwarded conn p q request_id req m known mode chosen =
      let caller =
        gen_agent_caller env.json (m.infos p).instance_id request_id (env.connection_id conn) in
      let req' : RpcCallReq = record req { caller = push_stack caller req.caller } in
      let sent = dispatch_req-chosen env intn checksum pick request_id q req' m.node mode chosen in
      rw (known, handle_rpc_call_req)
        (ap
          (λ r.
            let (node, code) = unless_panic m.node r in
            answer_req handler env code conn request_id req' (record m { node = node }))
          sent)

  -- The way back through the client manager of the node that served the call.
  pub response-forwarded :
      (conn b : ℕ) (request_id name : Text) (stack : List Text) (resp : RpcCallResp)
      (m : ClientManager Manager)
      → env.json.unmarshal (env.json.marshal (node_caller name)) ≡ some (node_caller name)
      → find name m.node.node_info ≡ some b
      → handle_rpc_call_resp handler env' conn request_id
          (some (record resp { caller = push_stack (gen_node_caller env.json name) stack }))
          m
        ≡ (
          record m {
            node = cast (pick b) request_id b (rpc_resp (record resp { caller = stack })) m.node;
          },
          sz_success,
        )
  unfolding handle_rpc_call_resp node_handler answer_rsp sz_of
  response-forwarded conn b request_id name stack resp m back known =
      let resp' : RpcCallResp = record resp {
        caller = push_stack (gen_node_caller env.json name) stack;
      } in
      ap
        (λ (r : Manager × ResultCode).
          answer_rsp handler env' r.1 conn resp' (record m { node = r.0 }))
        (dispatch_rsp-forwarder env.json pick request_id m.node name b stack resp back known)

  -- The serving process hands the call to the client that it chooses.
  pub request-served :
      (conn s d : ℕ) (request_id : Text) (req : RpcCallReq) (m : ClientManager Manager)
      → get_client4rpc_call_req env'.intn env'.checksum req m ≡ some (some s)
      → is_alive (m.infos s).status ≡ true
      → get_connection env'.pick (m.infos s) ≡ some d
      → env'.writes d ≡ true
      → handle_request handler env' conn request_id req m
        ≡ some (
          send
              (record {
                conn = d;
                uri = codes "node.rpcReq";
                msg_type = msg_type_request;
                request_id = env'.uuid;
                msg = State.rpc_req req;
              })
              m,
          sz_success,
        )
  unfolding handle_request call_client rpc_call send_message
  request-served conn s d request_id req m chosen lives over writes =
      simp (handle_request, call_client, rpc_call, send_message, chosen, lives, over, writes)
