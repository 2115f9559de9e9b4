-- ===== src/Router/Dispatch.antt =====
-- What `process` makes of the frames that `new_protocol` writes.
use nbagent.Base.{
  ℕ, ◌≡◌, ◌≢◌, ◌⊎◌, true, false, Option, none, some, [], ◌∷◌, ◌++◌, arith, Text, Dict, find,
  text_eq, has, if◌then◌else◌, find-put, text_beq_iff, text_beq, find-remove, eq_self,
}
use nbagent.Wire.{write_string, msg_type_request, msg_type_respone, msg_type_cast}
use nbagent.Wire.RoundTrip.{Message, body, IsShort, read_string-write_string}
use nbagent.Network.Contexts.{Connection, RequestContext, get_rpc_context}
use nbagent.Router.{drop, answer, router2_handler, switch_type, process, register_router}

module _ {ℓ} {H : Type ℓ} (router : Dict Text H) (c : Connection) (m : RequestContext) (f : Message)
    (short : IsShort f.uri) (short_id : IsShort f.request_id) where
  -- The packet of a frame is read back field by field.
  process-body :
      process router c (some m) (body f)
      ≡ switch_type router c
          (some (record m { request_id = f.request_id }))
          f.uri
          f.msg_type
          f.request_id
          f.msg
  unfolding process
  process-body =
      rw
        (
          read_string-write_string f.uri (f.msg_type ∷ (write_string [] f.request_id ++ f.msg))
              short,
          process,
        )
        (rw (read_string-write_string f.request_id f.msg short_id, process))

  abbrev with_id : Option RequestContext
  with_id = some (record m { request_id = f.request_id })

  -- A request or a cast reaches the handler of its uri with the message and the request id, and is
  -- dropped with a result of true if the uri has no handler; the waiting calls stay as they are.
  pub process_request :
      (f.msg_type ≡ msg_type_request) ⊎ (f.msg_type ≡ msg_type_cast)
      → process router c (some m) (body f) ≡ record {
        ok = true;
        action = router2_handler router f.uri f.msg with_id;
        connection = c;
        context = with_id;
      }
  unfolding switch_type
  process_request t = rw process-body (ground arith)

  -- A response reaches the call that waits under its request id, which waits no longer.
  pub process_response :
      (p : ℕ)
      → f.msg_type ≡ msg_type_respone
      → find f.request_id c.request_context ≡ some p
      → ((process router c (some m) (body f)).action ≡ answer p f.msg)
        × (find f.request_id (process router c (some m) (body f)).connection.request_context ≡ none)
  unfolding switch_type
  process_response p t e = rw process-body (
      ground (arith, find-remove f.request_id f.request_id c.request_context, eq_self f.request_id))

  -- Only the waiting calls change.
  pub process_response_connection :
      f.msg_type ≡ msg_type_respone
      → (process router c (some m) (body f)).connection ≡ (get_rpc_context f.request_id c).1
  unfolding switch_type get_rpc_context
  process_response_connection t = rw process-body (ground arith)

  process_response_absent :
      f.msg_type ≡ msg_type_respone
      → find f.request_id c.request_context ≡ none
      → (process router c (some m) (body f)).action ≡ router2_handler router f.uri f.msg with_id
  unfolding switch_type
  process_response_absent t e = rw process-body (ground arith)

  -- With any other message type the packet is dropped, nothing changes and the result is false.
  pub process_unknown :
      f.msg_type ≢ msg_type_request
      → f.msg_type ≢ msg_type_respone
      → f.msg_type ≢ msg_type_cast
      → process router c (some m) (body f)
        ≡ record { ok = false; action = drop; connection = c; context = with_id }
  unfolding switch_type
  process_unknown a b d = rw process-body (ground arith)

-- A response, of texts below 65536 bytes, to a call that waits: the same response a second time finds
-- no call, and is given to the handler of its uri, if there is one. It is not only logged, as
-- doc/NodeManager_net.md has it.
pub process_response_twice {ℓ} :
    {H : Type ℓ} (router : Dict Text H) (c : Connection) (m : RequestContext) (f : Message) (p : ℕ)
    → IsShort f.uri
    → IsShort f.request_id
    → f.msg_type ≡ msg_type_respone
    → find f.request_id c.request_context ≡ some p
    → let c' = (process router c (some m) (body f)).connection in
      (process router c' (some m) (body f)).action
      ≡ router2_handler router f.uri f.msg (some (record m { request_id = f.request_id }))
process_response_twice router c m f p short short_id t e =
    process_response_absent router (process router c (some m) (body f)).connection m f short
      short_id t (process_response router c m f short short_id p t e).1

-- The first handler of a uri stays: registering again is refused.
pub register_router_first {ℓ} :
    {H : Type ℓ} (router : Dict Text H) (uri j : Text) (first second : H)
    → has uri router ≡ false
    → let once = register_router uri first router in
      (once.1 ≡ true)
      × (register_router uri second once.0 ≡ (once.0, false))
      × (find j once.0 ≡ (if text_beq uri j then some first else find j router))
unfolding register_router
register_router_first router uri j first second h =
    ground (arith, find-put j uri first router, find-put uri uri first router, text_beq_iff uri uri)
