-- ===== src/CliAgent/Manager/Calls/Answers.antt =====
-- A response comes back to the connection that asked, and a call goes to a client that serves it.
use nbagent.Base.{
  ℕ, ◌≡◌, refl, ap, ◌∙◌, ◌⊎◌, inl, inr, true, Option, some, List, [], ◌∷◌, arith, Text, codes, find,
  text_eq, text_beq, text_beq_iff, nat_eq, nat_beq, nat_beq_iff, elem, if◌then◌else◌, Bool-cases,
}
use nbagent.Wire.{msg_type_respone}
use nbagent.Caller.{Caller, caller_agent, agent_caller, push_stack, pop_stack, gen_agent_caller}
use nbagent.Caller.Path.{pop_stack-push}
use nbagent.Node.Entry.{get_uri2}
use nbagent.Node.Manager.State.{RpcCallReq, RpcCallResp, entry_not_found}
use nbagent.Node.Manager.Dispatch.Choice.{InRange, choose-elem}
use nbagent.CliAgent.Client.{is_alive, get_resp_connection, find_id}
use nbagent.CliAgent.Handler.{NodeHandler}
use nbagent.CliAgent.State.{rpc_resp, ClientManager, clients, send}
use nbagent.CliAgent.Uris.{get_client4rpc_call_req}
use nbagent.CliAgent.Manager.{sz_success, sz_entry_not_found, agent_call_fail, reply}
use nbagent.CliAgent.Manager.Calls.{
  Env, failed, send_message, rpc_call, rpc_response, call_client, answer_client,
}

-- The connection with a given id is found, if ids tell connections apart.
find_id-elem :
    (id_of : ℕ → Text) (conn : ℕ) (cs : List ℕ)
    → ((c : ℕ) → elem c cs ≡ true → id_of c ≡ id_of conn → c ≡ conn)
    → elem conn cs ≡ true
    → find_id id_of (id_of conn) cs ≡ some conn
find_id-elem id_of conn [] apart h = absurd (ground arith)
find_id-elem id_of conn (c ∷ cs) apart h = elim (Bool-cases (text_beq (id_of c) (id_of conn))) [
  | inl e ↦ rw e (ap some (apart c (ground arith) ((text_beq_iff (id_of c) (id_of conn)).0 e)))
  | inr e ↦ rw e (
      find_id-elem id_of conn cs (λ d inside. apart d (ground (arith, inside)))
        (elim (Bool-cases (nat_beq c conn)) [
          | inl same ↦ absurd (
              ground (
                arith,
                ap id_of ((nat_beq_iff c conn).0 same),
                text_beq_iff (id_of c) (id_of conn),
              ))
          | inr other ↦ ground arith
        ]))
]

List-cases : (xs : List ℕ) → (xs ≡ []) ⊎ (x : ℕ) × (ys : List ℕ) × (xs ≡ x ∷ ys)
List-cases [] = inl refl
List-cases (x ∷ xs) = inr (x, xs, refl)

module _ {N : Type 0} (h : NodeHandler N) (env : Env) where
  rpc_response-over :
      (conn p : ℕ) (resp : RpcCallResp) (c : Caller) (m : ClientManager N)
      → ((d : ℕ)
          → elem d (m.infos p).connection_list ≡ true
          → env.connection_id d ≡ env.connection_id conn
          → d ≡ conn)
      → c.connection_id ≡ env.connection_id conn
      → is_alive (m.infos p).status ≡ true
      → elem conn (m.infos p).connection_list ≡ true
      → env.writes conn ≡ true
      → (rpc_response h env p resp c m).0
        ≡ send
            (record {
              conn = conn;
              uri = codes "node.rpcResp";
              msg_type = msg_type_respone;
              request_id = c.request_id;
              msg = rpc_resp resp;
            })
            m
  unfolding rpc_response send_message get_resp_connection
  rpc_response-over conn p resp c m apart same lives here writes = simp (
    lives,
    same,
    find_id-elem env.connection_id conn (m.infos p).connection_list apart here,
    writes,
    rpc_response,
    get_resp_connection,
    send_message,
  )

  answer_client-found :
      (p : ℕ) (top : Text) (c : Caller) (resp : RpcCallResp) (m : ClientManager N)
      → (pop_stack resp.caller).0 ≡ some top
      → env.json.unmarshal top ≡ some c
      → nat_beq c.type caller_agent ≡ true
      → find c.agent_id m.client_info ≡ some p
      → answer_client h env resp m ≡ (
        (rpc_response h env p (record resp { caller = (pop_stack resp.caller).1 }) c m).0,
        sz_success,
      )
  unfolding answer_client
  answer_client-found p top c resp m popped read agent known =
      simp (answer_client, popped, read, agent, known)

  -- A response whose top caller is what the manager pushed for a request of a client, where JSON reads
  -- back this caller, no other connection of the client has the id of the one that asked, the client
  -- is still known and alive, has the connection still, and the packet can be written: it is sent over that connection with the id of
  -- that request, and with the stack of callers as it was before the request.
  pub answer_client-asked :
      (id : Text) (request_id : Text) (conn p : ℕ) (stack : List Text) (resp : RpcCallResp)
      (m : ClientManager N)
      → (let c = agent_caller id request_id (env.connection_id conn) in
          env.json.unmarshal (env.json.marshal c) ≡ some c)
      → ((d : ℕ)
          → elem d (m.infos p).connection_list ≡ true
          → env.connection_id d ≡ env.connection_id conn
          → d ≡ conn)
      → find id m.client_info ≡ some p
      → is_alive (m.infos p).status ≡ true
      → elem conn (m.infos p).connection_list ≡ true
      → env.writes conn ≡ true
      → answer_client h env
          (record resp {
            caller =
                push_stack (gen_agent_caller env.json id request_id (env.connection_id conn)) stack;
          })
          m
        ≡ (
          send
              (record {
                conn = conn;
                uri = codes "node.rpcResp";
                msg_type = msg_type_respone;
                request_id = request_id;
                msg = rpc_resp (record resp { caller = stack });
              })
              m,
          sz_success,
        )
  unfolding answer_client rpc_response send_message gen_agent_caller get_resp_connection
  answer_client-asked id request_id conn p stack resp m back apart known lives here writes =
      let c = agent_caller id request_id (env.connection_id conn) in
      let popped = (pop_stack-push (env.json.marshal c) stack).0 in
      answer_client-found p (env.json.marshal c) c _ m
        (ap (λ (r : Option Text × List Text). r.0) popped) back refl known
      ∙ ap
          (λ (r : Option Text × List Text).
            ((rpc_response h env p (record resp { caller = r.1 }) c m).0, sz_success))
          popped
      ∙ ap (λ (s : ClientManager N). (s, sz_success))
          (rpc_response-over conn p (record resp { caller = stack }) c m apart refl lives here
            writes)

  -- A call that the manager passes to its clients, where `rand.Intn` stays in its range: the code
  -- never panics. With no client for the key the caller is told so. Otherwise the call is handed to
  -- one client of the key, and the result says whether it could be sent.
  pub call_client-serves :
      (conn : ℕ) (request_id : Text) (req : RpcCallReq) (m : ClientManager N)
      → InRange env.intn
      → ((clients (get_uri2 req.uri req.entry_type) m ≡ [])
          × (call_client h env conn request_id req m
              ≡ some (
                reply h conn request_id (rpc_resp (failed entry_not_found)) m,
                sz_entry_not_found,
              )))
        ⊎ (p : ℕ) × (elem p (clients (get_uri2 req.uri req.entry_type) m) ≡ true)
          × (call_client h env conn request_id req m
              ≡ some (
                (rpc_call h env p req m).0,
                if (rpc_call h env p req m).1 then sz_success else agent_call_fail,
              ))
  unfolding call_client get_client4rpc_call_req
  call_client-serves conn request_id req m in_range =
      elim (List-cases (clients (get_uri2 req.uri req.entry_type) m)) [
        | inl e ↦ inl (e, simp (call_client, get_client4rpc_call_req, e))
        | inr (q, qs, e) ↦
            let (p, chosen, inside) = choose-elem env.intn env.checksum req.key q qs in_range in
            inr (p, rw e inside, simp (call_client, get_client4rpc_call_req, e, chosen))
      ]
