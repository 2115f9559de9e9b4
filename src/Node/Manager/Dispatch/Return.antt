-- ===== src/Node/Manager/Dispatch/Return.antt =====
-- The way back of a response, node/manager.go `DispatchRsp`.
use nbagent.Base.{ℕ, ◌≡◌, refl, ap, ◌∙◌, Option, some, List, Text, find, text_eq, nat_beq, true}
use nbagent.Caller.{
  Caller, Json, caller_node, node_caller, push_stack, get_top_stack, pop_stack, gen_node_caller,
}
use nbagent.Caller.Path.{pop_stack-push}
use nbagent.Node.Manager.State.{Manager, RpcCallResp, rpc_resp, success, cast}
use nbagent.Node.Manager.Dispatch.{dispatch_rsp}

module _ (json : Json) (pick : ℕ → ℕ) (request_id : Text) (m : Manager) where
  dispatch_rsp-found :
      (p : ℕ) (top : Text) (c : Caller) (rsp : RpcCallResp)
      → get_top_stack rsp.caller ≡ some top
      → json.unmarshal top ≡ some c
      → nat_beq c.type caller_node ≡ true
      → find c.node m.node_info ≡ some p
      → dispatch_rsp json pick request_id rsp m ≡ (
        cast (pick p) request_id p (rpc_resp (record rsp { caller = (pop_stack rsp.caller).1 })) m,
        success,
      )
  unfolding dispatch_rsp
  dispatch_rsp-found p top c rsp on_top read node known =
      simp (dispatch_rsp, on_top, read, node, known)

  -- Where JSON reads back this caller: a response whose top caller is what a node of the map pushed when it
  -- forwarded the request is sent to that node, with the stack of callers as it was before.
  pub dispatch_rsp-forwarder :
      (name : Text) (p : ℕ) (stack : List Text) (rsp : RpcCallResp)
      → json.unmarshal (json.marshal (node_caller name)) ≡ some (node_caller name)
      → find name m.node_info ≡ some p
      → dispatch_rsp json pick request_id
          (record rsp { caller = push_stack (gen_node_caller json name) stack })
          m
        ≡ (cast (pick p) request_id p (rpc_resp (record rsp { caller = stack })) m, success)
  unfolding gen_node_caller
  dispatch_rsp-forwarder name p stack rsp back known =
      let c = node_caller name in
      let (popped, on_top) = pop_stack-push (json.marshal c) stack in
      dispatch_rsp-found p (json.marshal c) c _ on_top back refl known
      ∙ ap
          (λ (r : Option Text × List Text).
            (cast (pick p) request_id p (rpc_resp (record rsp { caller = r.1 })) m, success))
          popped
