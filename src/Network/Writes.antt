-- ===== src/Network/Writes.antt =====
-- network/common.go, `Write` and `Close`: a connection and the bytes that it has written.
use nbagent.Base.{ℕ, Bool, true, false, List, ◌++◌, Text, codes, if◌then◌else◌}
use nbagent.Network.Contexts.{Connection, clean_all_rpc_context}

pub record Link : Type 0 where
  pub connection : Connection
  pub sent : List ℕ

-- The test is whether the socket takes the bytes.
unfoldable pub write : Bool → List ℕ → Link → Bool × Link
write written bytes l = if written then (true, record l { sent = l.sent ++ bytes }) else (false, l)

-- The task that a failed `Write` starts.
unfoldable pub write_failed : Text → Link → Link
write_failed err l = record l {
  connection = clean_all_rpc_context (codes "write err:" ++ err) l.connection;
}

-- The task that `Close` starts.
unfoldable pub close : Link → Link
close l = record l {
  connection = clean_all_rpc_context (codes "user close connecion:") l.connection;
}
