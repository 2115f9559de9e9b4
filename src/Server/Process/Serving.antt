-- ===== src/Server/Process/Serving.antt =====
-- The clients, their table and the node, through the steps of the whole process.
use nbagent.Base.{
  ℕ, ◌≡◌, ◌≢◌, refl, inl, inr, Option, none, some, arith, Text, find, has, subst, text_eq, nat_eq,
  Option-cases,
}
use nbagent.Caller.{Json, push_stack, gen_agent_caller}
use nbagent.Node.Info.{new_node}
use nbagent.Node.Manager.State.{Manager, RpcCallReq, RpcCallResp, get_node_by_connection}
use nbagent.Node.Manager.Start.{new_manager}
use nbagent.CliAgent.Handler.{NodeHandler}
use nbagent.CliAgent.State.{ClientManager, close}
use nbagent.CliAgent.Manager.Start.{new_client_manager}
use nbagent.CliAgent.Manager.{SzResult, get_client_by_connection}
use nbagent.CliAgent.Manager.Listing.{IsListed, IsListed-same}
use nbagent.CliAgent.Manager.Serving
use nbagent.CliAgent.Manager.Calls.{
  Env, handle_rpc_call_req, handle_rpc_call_resp, answer_req, answer_rsp,
}
use nbagent.CliAgent.Manager.Calls.Untouched.{
  Untouched, UntouchedSome, answer_req-Untouched, answer_rsp-Untouched, handle_request-Untouched,
  handle_response-Untouched,
}
use nbagent.Server.{ServerConf, new_nb_server}
use nbagent.Server.Entries.{IsInStep, has_own}
use nbagent.Server.Process.{handler}
use nbagent.Server.Process.Steps.{
  Step, client, node, called, returned, asked, responded, Reach, here, later, since_start,
}

module _ (json : Json) (intn : ℕ → ℕ) (checksum : Text → ℕ) (pick : ℕ → ℕ) (start : ℕ) where
  abbrev node_of : NodeHandler Manager
  node_of = handler json intn checksum pick start

  Untouched-IsListed :
      (env : Env) (m m' : ClientManager Manager)
      → Untouched node_of env m m'
      → IsListed m
      → IsListed m'
  Untouched-IsListed env m m' (uris, told, info, next, infos) =
      IsListed-same node_of m m' info next uris (λ q. rw infos (refl, refl))

  called-IsListed :
      (env : Env) (conn : ℕ) (request_id : Text) (req : Option RpcCallReq)
      (m m' : ClientManager Manager) (code : SzResult)
      → handle_rpc_call_req node_of env conn request_id req m ≡ some (m', code)
      → IsListed m
      → IsListed m'
  unfolding handle_rpc_call_req get_client_by_connection
  called-IsListed env conn request_id none m m' code e l =
      let same : m' ≡ m = ground arith in rw same l
  called-IsListed env conn request_id (some req) m m' code e l =
      elim (Option-cases (find conn m.connection_client)) [
        | inl f ↦
            let same : m' ≡ close conn m = ground arith in
            rw same (IsListed-same node_of m (close conn m) refl refl refl (λ q. (refl, refl)) l)
        | inr (p, f) ↦
            let caller =
              gen_agent_caller env.json (m.infos p).instance_id request_id
                (env.connection_id conn) in
            let req' : RpcCallReq = record req { caller = push_stack caller req.caller } in
            let (n', found) = node_of.dispatch_req request_id req' m.node in
            let m1 : ClientManager Manager = record m { node = n' } in
            let answered : answer_req node_of env found conn request_id req' m1 ≡ some (m', code) =
              rw (f, handle_rpc_call_req) at e in
            Untouched-IsListed env m1 m'
              (subst (UntouchedSome node_of env m1) answered
                (answer_req-Untouched node_of env found conn request_id req' m1))
              (IsListed-same node_of m m1 refl refl refl (λ q. (refl, refl)) l)
      ]

  returned-IsListed :
      (env : Env) (conn : ℕ) (request_id : Text) (resp : Option RpcCallResp)
      (m : ClientManager Manager)
      → IsListed m
      → IsListed (handle_rpc_call_resp node_of env conn request_id resp m).0
  unfolding handle_rpc_call_resp
  returned-IsListed env conn request_id none m l = l
  returned-IsListed env conn request_id (some resp) m l =
      let (n', found) = node_of.dispatch_rsp request_id resp m.node in
      let m1 : ClientManager Manager = record m { node = n' } in
      Untouched-IsListed env m1 (answer_rsp node_of env found conn resp m1).0
        (answer_rsp-Untouched node_of env found conn resp m1)
        (IsListed-same node_of m m1 refl refl refl (λ q. (refl, refl)) l)

  Step-IsListed :
      {m m' : ClientManager Manager}
      → Step json intn checksum pick start m m'
      → IsListed m
      → IsListed m'
  Step-IsListed (client s) l = Serving.Step-IsListed node_of s l
  Step-IsListed (node m {n} s c) l =
      IsListed-same node_of m (record m { node = n }) refl refl refl (λ q. (refl, refl)) l
  Step-IsListed (called env conn request_id req m m' code remote e) l =
      called-IsListed env conn request_id req m m' code e l
  Step-IsListed (returned env conn request_id resp m remote) l =
      returned-IsListed env conn request_id resp m l
  Step-IsListed (asked env conn request_id req m m' code e) l =
      Untouched-IsListed env m m'
        (subst (UntouchedSome node_of env m) e
          (handle_request-Untouched node_of env conn request_id req m))
        l
  Step-IsListed (responded env resp m) l =
      Untouched-IsListed env m _ (handle_response-Untouched node_of env resp m) l

  Reach-IsListed :
      {m m' : ClientManager Manager}
      → Reach json intn checksum pick start m m'
      → IsListed m
      → IsListed m'
  Reach-IsListed here l = l
  Reach-IsListed (later r s) l = Step-IsListed s (Reach-IsListed r l)

  -- From the start of the process on, through the steps of its clients and of other nodes in any
  -- order, where no hello bears the node's own name, the node sends nothing to itself, it dials and
  -- synchronises only other nodes, an answer to a full synchronisation has new entries only, and no
  -- handler panics: every client of the map stands in the table under every key of its entries, the
  -- node has exactly the keys of the table, it is not dead, its version is that of its sequence, and
  -- no connection belongs to the node itself. A key may stay in the table for a client that has left
  -- or no longer has the entry.
  pub served_among_nodes :
      (node_uuid agent_uuid : Text) (instance_id now : ℕ) (conf : ServerConf)
      (m : ClientManager Manager)
      → Reach json intn checksum pick start
          (new_nb_server node_uuid agent_uuid instance_id now conf)
          m
      → IsListed m
        × ((key : Text) → has_own key m.node ≡ has key m.uri2client)
        × IsInStep m.node
        × ((conn p : ℕ) → get_node_by_connection conn m.node ≡ some p → p ≢ m.node.self)
  unfolding new_nb_server new_manager new_client_manager new_node find
  served_among_nodes node_uuid agent_uuid instance_id now conf m r =
      let (in_step, told, others) =
        since_start json intn checksum pick start node_uuid agent_uuid instance_id now conf m r in
      let fresh : IsListed (new_nb_server node_uuid agent_uuid instance_id now conf) = record {
        named = λ id p e. absurd (ground arith);
        small = λ id p e. absurd (ground arith);
        listed = λ id p key e has. absurd (ground arith);
      } in
      (Reach-IsListed r fresh, told, in_step, others)
