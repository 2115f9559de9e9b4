-- ===== src/Server/Process/Steps.antt =====
-- The steps of the process in any order, and what holds after them.
use nbagent.Base.{
  ℕ, ◌≡◌, Option, none, Option-cases, ◌≢◌, refl, subst, ◌∙◌, inl, inr, [], ◌∷◌, arith, Text, find,
  has, text_eq, text_beq_iff, nat_eq, some,
}
use nbagent.Caller.{Json}
use nbagent.Node.Info.{Info, new_node}
use nbagent.Node.Manager.State.{Manager, get_node_by_connection}
use nbagent.Node.Manager.Start.{new_manager}
use nbagent.Node.Manager.Run.Steps as NodeSteps
use nbagent.Node.Manager.Apart.{Keeps}
use nbagent.Node.Manager.Apart.Peaceful.{IsPeaceful, Step-Keeps}
use nbagent.CliAgent.Handler.{NodeHandler, Laws}
use nbagent.CliAgent.State.{ClientManager}
use nbagent.CliAgent.Uris.Told.{IsServed}
use nbagent.CliAgent.Manager.Steps as ClientSteps
use nbagent.CliAgent.Manager.Steps.{Step-IsServed as client-IsServed}
use nbagent.CliAgent.Manager.Start.{new_client_manager}
use nbagent.Server.{node_handler, new_nb_server, ServerConf}
use nbagent.Server.Entries.{IsInStep, has_own}
use nbagent.Node.Manager.State.{RpcCallReq, RpcCallResp, ResultCode}
use nbagent.Node.Manager.Apart.Calls.{
  IsRemoteCall, IsRemoteRsp, KeepsSome, dispatch_req-Keeps, dispatch_rsp-Keeps,
}
use nbagent.Node.Manager.Dispatch.{dispatch_req}
use nbagent.Caller.{push_stack, gen_agent_caller}
use nbagent.CliAgent.State.{close}
use nbagent.CliAgent.Manager.{SzResult, get_client_by_connection}
use nbagent.CliAgent.Manager.Joins.{IsServed-same}
use nbagent.CliAgent.Manager.Calls.{
  Env, handle_rpc_call_req, handle_rpc_call_resp, handle_request, handle_response, answer_req,
  answer_rsp,
}
use nbagent.CliAgent.Manager.Calls.Untouched.{
  UntouchedSome, answer_req-Untouched, answer_rsp-Untouched, handle_request-Untouched,
  handle_response-Untouched,
}
use nbagent.Server.{unless_panic}
use nbagent.Server.Process.{handler, apart_laws, Keeps-IsApart}

-- The only node that a fresh node knows is itself.
named_itself : (own name : Text) (p : ℕ) → find name ((own, 0) ∷ []) ≡ some p → name ≡ own
unfolding find
named_itself own name p e = ground (arith, text_beq_iff own name)

module _ (json : Json) (intn : ℕ → ℕ) (checksum : Text → ℕ) (pick : ℕ → ℕ) (start : ℕ) where
  abbrev node_of : NodeHandler Manager
  node_of = handler json intn checksum pick start

  abbrev laws : Laws node_of
  laws = apart_laws json intn checksum pick start

  abbrev pub IsRemote : Option RpcCallReq → Manager → Type 0
  IsRemote none n = Unit
  IsRemote (some req) n = IsRemoteCall req n

  abbrev pub IsRemoteResp : Option RpcCallResp → Manager → Type 0
  IsRemoteResp none n = Unit
  IsRemoteResp (some resp) n = IsRemoteRsp json resp n

  -- A step of the client manager over the node manager, a step of the node manager that leaves the
  -- node itself alone, or a call or a response of a client or of another node whose node_of does not
  -- panic.
  pub data Step : ClientManager Manager → ClientManager Manager → Type 0 where
    client : {m m' : ClientManager Manager} → ClientSteps.Step node_of m m' → Step m m'
    node :
        (m : ClientManager Manager) {n : Manager} (s : NodeSteps.Step m.node n)
        → IsPeaceful s
        → Step m (record m { node = n })
    called :
        (env : Env) (conn : ℕ) (request_id : Text) (req : Option RpcCallReq)
        (m m' : ClientManager Manager) (code : SzResult)
        → IsRemote req m.node
        → handle_rpc_call_req node_of env conn request_id req m ≡ some (m', code)
        → Step m m'
    returned :
        (env : Env) (conn : ℕ) (request_id : Text) (resp : Option RpcCallResp)
        (m : ClientManager Manager)
        → IsRemoteResp resp m.node
        → Step m (handle_rpc_call_resp node_of env conn request_id resp m).0
    asked :
        (env : Env) (conn : ℕ) (request_id : Text) (req : RpcCallReq) (m m' : ClientManager Manager)
        (code : SzResult)
        → handle_request node_of env conn request_id req m ≡ some (m', code)
        → Step m m'
    responded :
        (env : Env) (resp : RpcCallResp) (m : ClientManager Manager)
        → Step m (handle_response node_of env resp m).0

  pub data Reach (m : ClientManager Manager) : ClientManager Manager → Type 0 where
    here : Reach m m
    later : {m' m'' : ClientManager Manager} → Reach m m' → Step m' m'' → Reach m m''

  node-IsServed :
      (m : ClientManager Manager) (n : Manager)
      → Keeps m.node.self (m.node.infos m.node.self) m.node.sequence n
      → IsServed laws m
      → IsServed laws (record m { node = n })
  unfolding apart_laws
  node-IsServed m n h s =
      let (in_step, apart) = s.ready in
      let (name, entries, version, status) = h.same in
      record {
        full = s.full;
        once = s.once;
        told = λ key. rw (h.itself, entries) (s.told key);
        ready = (
          record {
            lives = rw (h.itself, status) in_step.lives;
            step = rw (h.itself, h.count) (version ∙ in_step.step);
          },
          Keeps-IsApart _ _ _ n h,
        );
      }

  unless_panic-Keeps :
      (i : ℕ) (k : Info) (seq : ℕ) (n : Manager) (o : Option (Manager × ResultCode))
      → KeepsSome i k seq o
      → Keeps i k seq n
      → Keeps i k seq (unless_panic n o).0
  unless_panic-Keeps i k seq n none s h = h
  unless_panic-Keeps i k seq n (some (n', code)) s h = s

  called-IsServed :
      (env : Env) (conn : ℕ) (request_id : Text) (req : Option RpcCallReq)
      (m m' : ClientManager Manager) (code : SzResult)
      → IsRemote req m.node
      → handle_rpc_call_req node_of env conn request_id req m ≡ some (m', code)
      → IsServed laws m
      → IsServed laws m'
  unfolding handle_rpc_call_req node_handler get_client_by_connection apart_laws
  called-IsServed env conn request_id none m m' code remote e s =
      let same : m' ≡ m = ground arith in rw same s
  called-IsServed env conn request_id (some req) m m' code remote e s =
      elim (Option-cases (find conn m.connection_client)) [
        | inl f ↦
            let same : m' ≡ close conn m = ground arith in
            rw same (IsServed-same node_of laws m (close conn m) refl refl s)
        | inr (p, f) ↦
            let caller =
              gen_agent_caller env.json (m.infos p).instance_id request_id
                (env.connection_id conn) in
            let req' : RpcCallReq = record req { caller = push_stack caller req.caller } in
            let n = m.node in
            let (n', found) = node_of.dispatch_req request_id req' n in
            let sent = dispatch_req json intn checksum pick request_id req' n in
            let kept : Keeps n.self (n.infos n.self) n.sequence n' =
              unless_panic-Keeps n.self (n.infos n.self) n.sequence n sent
                (dispatch_req-Keeps n.self (n.infos n.self) n.sequence json intn checksum pick
                  request_id req' n remote s.ready.1)
                s.ready.1 in
            let m1 : ClientManager Manager = record m { node = n' } in
            let answered : answer_req node_of env found conn request_id req' m1 ≡ some (m', code) =
              rw (f, handle_rpc_call_req) at e in
            let (uris, told, _, _, _) =
              subst (UntouchedSome node_of env m1) answered
                (answer_req-Untouched node_of env found conn request_id req' m1) in
            IsServed-same node_of laws m1 m' uris told (node-IsServed m n' kept s)
      ]

  returned-IsServed :
      (env : Env) (conn : ℕ) (request_id : Text) (resp : Option RpcCallResp)
      (m : ClientManager Manager)
      → IsRemoteResp resp m.node
      → IsServed laws m
      → IsServed laws (handle_rpc_call_resp node_of env conn request_id resp m).0
  unfolding handle_rpc_call_resp node_handler apart_laws
  returned-IsServed env conn request_id none m remote s = s
  returned-IsServed env conn request_id (some resp) m remote s =
      let n = m.node in
      let (n', found) = node_of.dispatch_rsp request_id resp n in
      let kept : Keeps n.self (n.infos n.self) n.sequence n' =
        dispatch_rsp-Keeps n.self (n.infos n.self) n.sequence json pick request_id resp n remote
          s.ready.1 in
      let m1 : ClientManager Manager = record m { node = n' } in
      let (uris, told, _, _, _) = answer_rsp-Untouched node_of env found conn resp m1 in
      IsServed-same node_of laws m1 (answer_rsp node_of env found conn resp m1).0 uris told
        (node-IsServed m n' kept s)

  Step-IsServed : {m m' : ClientManager Manager} → Step m m' → IsServed laws m → IsServed laws m'
  unfolding apart_laws
  Step-IsServed (client s) h = client-IsServed node_of laws s h
  Step-IsServed (node m {n} s c) h = node-IsServed m n (Step-Keeps s c h.ready.1) h
  Step-IsServed (called env conn request_id req m m' code remote e) h =
      called-IsServed env conn request_id req m m' code remote e h
  Step-IsServed (returned env conn request_id resp m remote) h =
      returned-IsServed env conn request_id resp m remote h
  Step-IsServed (asked env conn request_id req m m' code e) h =
      let (uris, told, _, _, _) =
        subst (UntouchedSome node_of env m) e
          (handle_request-Untouched node_of env conn request_id req m) in
      IsServed-same node_of laws m m' uris told h
  Step-IsServed (responded env resp m) h =
      let (uris, told, _, _, _) = handle_response-Untouched node_of env resp m in
      IsServed-same node_of laws m (handle_response node_of env resp m).0 uris told h

  Reach-IsServed : {m m' : ClientManager Manager} → Reach m m' → IsServed laws m → IsServed laws m'
  Reach-IsServed here h = h
  Reach-IsServed (later r s) h = Step-IsServed s (Reach-IsServed r h)

  -- What the steps keep of the table and of the node, from the start of the process on.
  pub since_start :
      (node_uuid agent_uuid : Text) (instance_id now : ℕ) (conf : ServerConf)
      (m : ClientManager Manager)
      → Reach (new_nb_server node_uuid agent_uuid instance_id now conf) m
      → IsInStep m.node
        × ((key : Text) → has_own key m.node ≡ has key m.uri2client)
        × ((conn p : ℕ) → get_node_by_connection conn m.node ≡ some p → p ≢ m.node.self)
  unfolding new_nb_server new_manager new_client_manager new_node find apart_laws
      get_node_by_connection
  since_start node_uuid agent_uuid instance_id now conf m r =
      let served : IsServed laws (new_nb_server node_uuid agent_uuid instance_id now conf) =
        record {
          full = λ key. refl;
          once = λ key p. omega arith;
          told = λ key. refl;
          ready = (
            record { lives = refl; step = refl },
            record {
              itself = refl;
              count = refl;
              same = (refl, refl, refl, refl);
              small = omega arith;
              marked = λ c p e. absurd (ground arith);
              named = λ name e. named_itself _ name 0 e;
              tasked = tt;
            },
          );
        } in
      let after = Reach-IsServed r served in (after.ready.0, after.told, after.ready.1.marked)
