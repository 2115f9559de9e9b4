-- ===== src/Client/Library/Reads.antt =====
-- client/client.go, `OnRead` and `handleRpcCallReq`: what a client makes of the packets of an agent.
use nbagent.Base.{
  ℕ, ◌≡◌, ◌||◌, Bool, Option, none, some, List, [], ◌∷◌, ◌++◌, arith, Text, codes, Dict, find,
  text_eq, nat_beq, if◌then◌else◌,
}
use nbagent.Wire.{
  read_string, read_u8, new_protocol, write_string, msg_type_request, msg_type_respone,
  msg_type_cast,
}
use nbagent.Wire.RoundTrip.{Message, body, IsShort, read_string-write_string}
use nbagent.Network.Contexts.{Connection, RequestContext, get_rpc_context, get_request_id}
use nbagent.Router.{Outcome, process}
use nbagent.Node.Manager.State.{RpcCallReq, RpcCallResp, success}

-- A packet is dropped, wakes a waiting call, finds none, or goes to a worker, which gives it to the
-- router and clears the connection if that returns false.
pub data Read {ℓ} (H : Type ℓ) : Type ℓ where
  dropped no_call : Read H
  wakes : ℕ → List ℕ → Read H
  worker : Outcome H → Read H

-- The response of a handler; the result code is left at zero.
abbrev pub response_of : RpcCallReq → List ℕ → RpcCallResp
response_of req result = record {
  result = success;
  payload = result;
  uri = req.uri;
  caller = req.caller;
  entry_type = req.entry_type;
}

module _ {ℓ} {H : Type ℓ} where
  -- `OnRead`, once the header is read.
  unfoldable pub read_type :
      Dict Text H
      → Connection
      → Option RequestContext
      → List ℕ
      → ℕ
      → Text
      → List ℕ
      → Read H × Connection
  unfolding get_rpc_context process
  read_type router c context bytes msg_type request_id rest =
      if nat_beq msg_type msg_type_respone
      then (let (waiting, c') = get_rpc_context request_id c in
          (elim waiting [ none ↦ no_call | some p ↦ wakes p rest ], c'))
      else if nat_beq msg_type msg_type_request || nat_beq msg_type msg_type_cast
      then (worker (process router c context bytes), c)
      else (dropped, c)

  unfoldable pub on_read :
      Dict Text H → Connection → Option RequestContext → List ℕ → Read H × Connection
  unfolding read_type
  on_read router c context bytes = elim (read_string bytes) [
    | none ↦ (dropped, c)
    | some (uri, rest) ↦ elim (read_u8 rest) [
      | none ↦ (dropped, c)
      | some (msg_type, rest') ↦ elim (read_string rest') [
        | none ↦ (dropped, c)
        | some (request_id, msg) ↦ read_type router c context bytes msg_type request_id msg
      ]
    ]
  ]

  -- The result of the handler, and the bytes that are written to the connection of the context, if
  -- any are. The test is whether the worker takes the task; `serve` runs a handler.
  unfoldable pub handle_rpc_call_req :
      (H → List ℕ → List ℕ)
      → (RpcCallResp → List ℕ)
      → Dict Text H
      → Bool
      → Option RequestContext
      → Option RpcCallReq
      → Text × Option (List ℕ)
  unfolding get_request_id
  handle_rpc_call_req serve marshal router taken context none = (codes "proto_Unmarshal_fail", none)
  handle_rpc_call_req serve marshal router taken context (some req) = elim (find req.uri router) [
    | none ↦ (codes "SUCCESS", none)
    | some handler ↦
        if taken
        then (
          codes "SUCCESS",
          some (
              new_protocol (codes "node.rpcResp") msg_type_respone (get_request_id context)
                (marshal (response_of req (serve handler req.payload)))),
        )
        else (codes "client_TaskWorkerToTask_fail", none)
  ]

  -- A response to a waiting call wakes it, as the router would have it.
  on_read-wakes :
      (router : Dict Text H) (c : Connection) (context : Option RequestContext) (f : Message)
      (p : ℕ)
      → IsShort f.uri
      → IsShort f.request_id
      → f.msg_type ≡ msg_type_respone
      → find f.request_id c.request_context ≡ some p
      → on_read router c context (body f) ≡ (wakes p f.msg, (get_rpc_context f.request_id c).1)
  unfolding on_read read_type get_rpc_context
  on_read-wakes router c context f p short short_id t e =
      rw
        (
          read_string-write_string f.uri (f.msg_type ∷ (write_string [] f.request_id ++ f.msg))
              short,
          on_read,
        )
        (rw (read_string-write_string f.request_id f.msg short_id, on_read) (ground (arith, t, e)))
