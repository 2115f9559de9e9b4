-- ===== src/Rpc.antt =====
-- rpc/call.go, rpc/cast.go and rpc/reply.go: a call writes a request and waits for the response or
-- the timeout, a cast only writes. The marshalled messages are lists of bytes; a nil connection is
-- `none`. The parent context gives only the timeout, which is the event `timed_out`.
pub mod Forgets
pub mod RoundTrip
use nbagent.Base.{
  ℕ, ◌≡◌, Bool, true, false, Option, none, some, List, [], ◌++◌, Text, text_beq, update,
  if◌then◌else◌,
}
use nbagent.Wire.{new_protocol, msg_type_request, msg_type_respone, msg_type_cast}
use nbagent.Network.Contexts.{
  Connection, RequestContext, add_rpc_context, remove_rpc_context, get_request_id,
}
use nbagent.Network.Writes.{Link, write}

pub record CallContext : Type 0 where
  pub uri : Text
  pub request_id : Text
  pub req : List ℕ
  pub timeout_ms : ℕ
  pub server_connection : Option ℕ

abbrev pub default_timeout : ℕ
default_timeout = 2000

-- The new UUID is an argument.
unfoldable pub new_call : Text → Text → List ℕ → Option ℕ → CallContext
new_call uuid uri req conn = record {
  uri = uri;
  request_id = uuid;
  req = req;
  timeout_ms = default_timeout;
  server_connection = conn;
}

abbrev pub timeout : ℕ → CallContext → CallContext
timeout ms call = record call { timeout_ms = ms }

abbrev pub request_id : Text → CallContext → CallContext
request_id id call = record call { request_id = id }

-- `Start` up to its `select`: the context that it waits on, or `none` where it has returned false.
-- The test is whether writing to the socket succeeds.
unfoldable pub send_call : Bool → CallContext → Link → Option ℕ × Link
unfolding add_rpc_context write
send_call written call l = elim call.server_connection [
  | none ↦ (none, l)
  | some conn ↦
      let bytes = new_protocol call.uri msg_type_request call.request_id call.req in
      let (p, c) = add_rpc_context call.request_id l.connection in
      let (ok, l') = write written bytes (record l { connection = c }) in
      if ok then (some p, l') else (none, l')
]

-- What wakes the `select`: bytes on the channel (none if it was closed), or the end of its context.
pub data Event : Type 0 where
  message : List ℕ → Event
  timed_out : Event

abbrev is_empty : Text → Bool
is_empty t = text_beq t []

-- `CancelFunc`
abbrev cancel : ℕ → Connection → Connection
cancel p c = record c {
  rpc_context = update c.rpc_context p (record (c.rpc_context p) { cancelled = true });
}

module _ {ℓ} {R : Type ℓ} (unmarshal : List ℕ → Option R) where
  -- The `select` of `Start` and what follows it: the response if the result is true.
  unfoldable pub select_call : CallContext → ℕ → Event → Link → Option R × Link
  unfolding remove_rpc_context
  select_call call p (message bytes) l =
      if is_empty (l.connection.rpc_context p).error_msg
      then (unmarshal bytes, record l { connection = cancel p l.connection })
      else (none, l)
  select_call call p timed_out l =
      if is_empty (l.connection.rpc_context p).error_msg
      then (none, record l { connection = remove_rpc_context call.request_id l.connection })
      else (none, l)

pub record CastContext : Type 0 where
  pub uri : Text
  pub request_id : Text
  pub message : List ℕ
  pub server_connection : Option ℕ

unfoldable pub new_cast : Text → Text → List ℕ → Option ℕ → CastContext
new_cast uuid uri msg conn = record {
  uri = uri;
  request_id = uuid;
  message = msg;
  server_connection = conn;
}

unfoldable pub start_cast : Bool → CastContext → Link → Bool × Link
unfolding write
start_cast written call l = elim call.server_connection [
  | none ↦ (false, l)
  | some conn ↦ write written (new_protocol call.uri msg_type_cast call.request_id call.message) l
]

-- The link is that of the connection of the context.
unfoldable pub reply : Bool → List ℕ → Option RequestContext → Link → Link
unfolding write
reply written msg context l =
    (write written (new_protocol [] msg_type_respone (get_request_id context) msg) l).1
