-- ===== src/CliAgent/Manager/Calls/Untouched.antt =====
-- Calls and responses leave the clients and their table alone, and touch the node by dispatching only.
use nbagent.Base.{
  ℕ, ◌≡◌, refl, inl, inr, Option, none, some, arith, Text, find, text_eq, nat_eq, Option-cases,
}
use nbagent.Node.Manager.State.{
  RpcCallReq, RpcCallResp, ResultCode, call_your_self, success, error, sign_validate_fail,
  sign_timeout, entry_not_found, node_not_exist, stack_empty,
}
use nbagent.CliAgent.Handler.{NodeHandler}
use nbagent.CliAgent.State.{ClientManager}
use nbagent.CliAgent.Uris.{get_client4rpc_call_req}
use nbagent.CliAgent.Manager.{SzResult, get_client_by_connection}
use nbagent.CliAgent.Manager.Calls.{
  Env, send_message, rpc_call, rpc_response, call_client, answer_req, answer_client, answer_rsp,
  handle_request, handle_response,
}

module _ {N : Type 0} (h : NodeHandler N) (env : Env) where
  abbrev pub Untouched : ClientManager N → ClientManager N → Type 0
  Untouched m m' =
      (m'.uri2client ≡ m.uri2client)
      × (m'.node ≡ m.node)
      × (m'.client_info ≡ m.client_info)
      × (m'.next ≡ m.next)
      × (m'.infos ≡ m.infos)

  -- Where the handler does not panic.
  abbrev pub UntouchedSome : ClientManager N → Option (ClientManager N × SzResult) → Type 0
  UntouchedSome m none = Unit
  UntouchedSome m (some (m', code)) = Untouched m m'

  rpc_call-Untouched :
      (p : ℕ) (req : RpcCallReq) (m : ClientManager N) → Untouched m (rpc_call h env p req m).0
  unfolding rpc_call send_message
  rpc_call-Untouched p req m =
      (ground arith, ground arith, ground arith, ground arith, ground arith)

  call_client-Untouched :
      (conn : ℕ) (request_id : Text) (req : RpcCallReq) (m : ClientManager N)
      → UntouchedSome m (call_client h env conn request_id req m)
  unfolding call_client
  call_client-Untouched conn request_id req m =
      elim (Option-cases (get_client4rpc_call_req env.intn env.checksum req m)) [
        | inl e ↦ rw (e, call_client) (refl, refl, refl, refl, refl)
        | inr (o, e) ↦ elim (Option-cases o) [
          | inl f ↦ rw (e, call_client, f) tt
          | inr (p, f) ↦ rw (e, call_client, f) (rpc_call-Untouched p req m)
        ]
      ]

  pub answer_req-Untouched :
      (code : ResultCode) (conn : ℕ) (request_id : Text) (req : RpcCallReq) (m : ClientManager N)
      → UntouchedSome m (answer_req h env code conn request_id req m)
  unfolding answer_req
  answer_req-Untouched call_your_self conn request_id req m =
      call_client-Untouched conn request_id req m
  answer_req-Untouched success conn request_id req m = (refl, refl, refl, refl, refl)
  answer_req-Untouched error conn request_id req m = (refl, refl, refl, refl, refl)
  answer_req-Untouched sign_validate_fail conn request_id req m = (refl, refl, refl, refl, refl)
  answer_req-Untouched sign_timeout conn request_id req m = (refl, refl, refl, refl, refl)
  answer_req-Untouched entry_not_found conn request_id req m = (refl, refl, refl, refl, refl)
  answer_req-Untouched node_not_exist conn request_id req m = (refl, refl, refl, refl, refl)
  answer_req-Untouched stack_empty conn request_id req m = (refl, refl, refl, refl, refl)

  pub handle_request-Untouched :
      (conn : ℕ) (request_id : Text) (req : RpcCallReq) (m : ClientManager N)
      → UntouchedSome m (handle_request h env conn request_id req m)
  unfolding handle_request
  handle_request-Untouched conn request_id req m = call_client-Untouched conn request_id req m

  answer_client-Untouched :
      (resp : RpcCallResp) (m : ClientManager N) → Untouched m (answer_client h env resp m).0
  unfolding answer_client rpc_response send_message
  answer_client-Untouched resp m =
      (ground arith, ground arith, ground arith, ground arith, ground arith)

  pub handle_response-Untouched :
      (resp : RpcCallResp) (m : ClientManager N) → Untouched m (handle_response h env resp m).0
  unfolding handle_response
  handle_response-Untouched resp m = answer_client-Untouched resp m

  pub answer_rsp-Untouched :
      (code : ResultCode) (conn : ℕ) (resp : RpcCallResp) (m : ClientManager N)
      → Untouched m (answer_rsp h env code conn resp m).0
  unfolding answer_rsp get_client_by_connection
  answer_rsp-Untouched call_your_self conn resp m =
      elim (Option-cases (find conn m.connection_client)) [
        | inl e ↦ rw (e, answer_rsp) (refl, refl, refl, refl, refl)
        | inr (p, e) ↦ rw (e, answer_rsp) (answer_client-Untouched resp m)
      ]
  answer_rsp-Untouched _ conn resp m = (refl, refl, refl, refl, refl)
