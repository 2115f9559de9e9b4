-- ===== src/Rpc/RoundTrip.antt =====
-- A call and its reply, from `Start` over the wire and the router to the handler and back.
use nbagent.Base.{
  text_beq, ap, ℕ, suc, ◌≡◌, refl, inl, false, Option, some, List, [], ◌++◌, arith, Text, Dict,
  find, text_eq, true, subst, sym, ◌∙◌,
}
use nbagent.Wire.{msg_type_request, msg_type_respone}
use nbagent.Wire.RoundTrip.{Message, body, frame, IsShort}
use nbagent.Network.Stream.{End, read_loop, deliver}
use nbagent.Network.Stream.Frames.{Fits, read_loop-frame}
use nbagent.Network.Contexts.{Connection, RequestContext, get_rpc_context, get_request_id}
use nbagent.Network.Contexts.Invariant.{IsOpen}
use nbagent.Network.Writes.{Link, write}
use nbagent.Router.{process, answer, handle, router2_handler}
use nbagent.Router.Dispatch.{process_request, process_response, process_response_connection}
use nbagent.Rpc.{CallContext, message, send_call, select_call, reply}
use nbagent.Rpc.Forgets.{
  Meanwhile, IsAwaited, Meanwhile-IsAwaited, add-IsAwaited, connection-send_call,
}

-- The bytes written since are cut by the loop of the peer into this one packet, whatever follows.
abbrev pub Carries : List ℕ → List ℕ → List ℕ → Type 0
Carries old now packet =
    (new : List ℕ) × (now ≡ old ++ new)
    × ((fuel : ℕ) (tail : List ℕ) (end : End)
        → read_loop (suc fuel) (new ++ tail) end ≡ deliver packet (read_loop fuel tail end))

frame-Carries : (m : Message) (old : List ℕ) → Fits m → Carries old (old ++ frame m) (body m)
frame-Carries m old fits = (frame m, refl, λ fuel tail end. read_loop-frame fuel m tail end fits)

abbrev pub request_of : CallContext → Message
request_of call = record {
  uri = call.uri;
  msg_type = msg_type_request;
  request_id = call.request_id;
  msg = call.req;
}

abbrev pub response_of : Text → List ℕ → Message
response_of id rsp = record { uri = []; msg_type = msg_type_respone; request_id = id; msg = rsp }

abbrev pub with_id : Text → RequestContext → Option RequestContext
with_id id m = some (record m { request_id = id })

module _ {ℓ κ ν} {H : Type ℓ} {G : Type κ} {R : Type ν} (unmarshal : List ℕ → Option R)
    (served : Dict Text H) (handler : H) (own : Dict Text G) (call : CallContext) (conn : ℕ)
    (l : Link) (s : Link) (ms mc : RequestContext) (rsp : List ℕ)
    (has_conn : call.server_connection ≡ some conn) (short : IsShort call.uri)
    (short_id : IsShort call.request_id) (fits : Fits (request_of call))
    (fits_rsp : Fits (response_of call.request_id rsp))
    (serves : find call.uri served ≡ some handler) where
  -- The request leaves the caller, and reaches the handler with the id of the call.
  request_arrives :
      ((send_call true call l).0 ≡ some l.connection.next)
      × ((packet : List ℕ) × Carries l.sent (send_call true call l).1.sent packet
          × ((process served s.connection (some ms) packet).action
              ≡ handle handler call.req (with_id call.request_id ms)))
  unfolding send_call write router2_handler
  request_arrives =
      rw (has_conn, send_call)
        (
          refl,
          (
            body (request_of call),
            frame-Carries (request_of call) l.sent fits,
            ap (λ o. o.action)
                  (process_request served s.connection ms (request_of call) short short_id
                    (inl refl))
                ∙ rw (serves, router2_handler) refl,
          ),
        )

  -- The reply leaves the server in the context of the handler, and wakes the call with its result.
  reply_arrives :
      (c : Connection)
      → IsAwaited call.request_id l.connection.next false c
      → (packet : List ℕ) × Carries s.sent
          (reply true rsp (with_id call.request_id ms) s).sent
          packet
        × ((process own c (some mc) packet).action ≡ answer l.connection.next rsp)
        × ((select_call unmarshal call l.connection.next
              (message rsp)
              (record l { connection = (process own c (some mc) packet).connection })).0
            ≡ unmarshal rsp)
  unfolding reply write get_request_id select_call get_rpc_context text_beq
  reply_arrives c h =
      let f = response_of call.request_id rsp in
      let (found, no_error) = h.waits refl in
      let (taken, gone) =
        process_response own c mc f (omega arith) short_id l.connection.next refl found in
      (
        body f,
        frame-Carries f s.sent fits_rsp,
        taken,
        rw (process_response_connection own c mc f (omega arith) short_id refl) (rw no_error refl),
      )

  -- A call on a connection whose waiting calls have open channels of their own, of a uri and an id below
  -- 65536 bytes, with the request and the response within the packet limit: the bytes that it writes
  -- are cut into one packet, which calls the handler of the uri in a context of its id. Whatever
  -- calls of other ids begin and end on the connection meanwhile, the bytes of the reply in that
  -- context are cut into one packet, which wakes the call, and the call returns what the response
  -- decodes to. No other call begins under the id of this one before it is answered.
  pub call_round_trip :
      (c : Connection)
      → IsOpen l.connection
      → Meanwhile call.request_id (send_call true call l).1.connection false c
      → ((send_call true call l).0 ≡ some l.connection.next)
        × ((packet : List ℕ) × Carries l.sent (send_call true call l).1.sent packet
            × ((process served s.connection (some ms) packet).action
                ≡ handle handler call.req (with_id call.request_id ms)))
        × ((packet : List ℕ) × Carries s.sent
              (reply true rsp (with_id call.request_id ms) s).sent
              packet
            × ((process own c (some mc) packet).action ≡ answer l.connection.next rsp)
            × ((select_call unmarshal call l.connection.next
                  (message rsp)
                  (record l { connection = (process own c (some mc) packet).connection })).0
                ≡ unmarshal rsp))
  call_round_trip c opened run =
      let awaits =
        subst (IsAwaited call.request_id l.connection.next false)
          (sym (connection-send_call call conn l has_conn))
          (add-IsAwaited call.request_id l.connection opened) in
      (request_arrives.0, request_arrives.1, reply_arrives c (Meanwhile-IsAwaited awaits run))
