-- ===== src/Network/Contexts.antt =====
-- network/common.go, the calls that wait for a response on a connection, and
-- network/request_context.go. A `*RpcContext` is a number; the contexts themselves are a store.
pub mod Invariant
use nbagent.Base.{
  ℕ, suc, ◌+◌, Bool, true, false, Option, none, some, List, [], ◌∷◌, Text, Dict, find, put, remove,
  ◌==◌, nat_eq, text_eq, for_each, update, if◌then◌else◌,
}

-- `closed` is the state of the channel `Msg`, `cancelled` that of the timeout context.
pub record RpcContext : Type 0 where
  pub error_msg : Text
  pub cancelled : Bool
  pub closed : Bool

-- `mRequestContext`, the contexts that it points to, and the next pointer that `AddRpcContext` gives
-- out. `double_close` tells that a closed channel was closed again, which panics.
pub record Connection : Type 0 where
  pub request_context : Dict Text ℕ
  pub rpc_context : ℕ → RpcContext
  pub next : ℕ
  pub double_close : Bool

abbrev pub new_rpc_context : RpcContext
new_rpc_context = record { error_msg = []; cancelled = false; closed = false }

-- `close(ptrRpcContext.Msg)`
unfoldable pub close_msg : ℕ → Connection → Connection
close_msg p c = record c {
  rpc_context = update c.rpc_context p (record (c.rpc_context p) { closed = true });
  double_close = if (c.rpc_context p).closed then true else c.double_close;
}

-- The body of the loop of `cleanAllRpcContext`.
unfoldable pub clean_one : Text → Text × ℕ → Connection → Connection
unfolding close_msg
clean_one reason (id, p) c =
    let failed = record (c.rpc_context p) { error_msg = reason; cancelled = true } in
    let c' = close_msg p (record c { rpc_context = update c.rpc_context p failed }) in
    record c' { request_context = remove id c'.request_context }

unfoldable pub clean_all_rpc_context : Text → Connection → Connection
unfolding clean_one
clean_all_rpc_context reason c = for_each (clean_one reason) c.request_context c

-- A pointer is `nil` where the boolean is `false`: the pair is an option.
unfoldable pub get_rpc_context : Text → Connection → Option ℕ × Connection
get_rpc_context id c =
    (find id c.request_context, record c { request_context = remove id c.request_context })

unfoldable pub remove_rpc_context : Text → Connection → Connection
unfolding close_msg
remove_rpc_context id c = elim (find id c.request_context) [
  | none ↦ c
  | some p ↦ let c' = close_msg p c in record c' { request_context = remove id c'.request_context }
]

unfoldable pub add_rpc_context : Text → Connection → ℕ × Connection
add_rpc_context id c = (
  c.next,
  record c {
    request_context = put id c.next c.request_context;
    rpc_context = update c.rpc_context c.next new_rpc_context;
    next = suc c.next;
  },
)

-- `RequestContext`, the value that a context carries under REQUEST_CONTEXT. The addresses are read
-- for log lines and are left out; the connection is a number.
pub record RequestContext : Type 0 where
  pub server_connection : ℕ
  pub request_id : Text

unfoldable pub get_server_connection : Option RequestContext → Option ℕ
get_server_connection none = none
get_server_connection (some m) = some m.server_connection

unfoldable pub set_request_id : Text → Option RequestContext → Option RequestContext
set_request_id id none = none
set_request_id id (some m) = some (record m { request_id = id })

unfoldable pub get_request_id : Option RequestContext → Text
get_request_id none = []
get_request_id (some m) = m.request_id
