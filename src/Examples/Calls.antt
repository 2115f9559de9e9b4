-- ===== src/Examples/Calls.antt =====
-- A call and its reply at concrete inputs.
use nbagent.Base.{
  ℕ, ◌≡◌, refl, none, some, true, List, [], ◌∷◌, arith, Text, codes, Dict, find, text_eq, text_beq,
  inr, ◌≢◌,
}
use nbagent.Network.Contexts.{Connection, RequestContext, add_rpc_context, clean_all_rpc_context}
use nbagent.Network.Writes.{Link}
use nbagent.Router.{answer, handle, process}
use nbagent.Rpc.{CallContext, message, send_call, select_call, reply}
use nbagent.Rpc.Forgets.{nothing, other_call, cleaned, start-forgets}
use nbagent.Rpc.RoundTrip.{Carries, with_id, call_round_trip}
use nbagent.Examples.Protocol.{idle, idle-IsOpen}

abbrev hello : CallContext
hello = record {
  uri = codes "node.hi";
  request_id = codes "1";
  req = 1 ∷ 2 ∷ [];
  timeout_ms = 2000;
  server_connection = some 0;
}

abbrev wire : Link
wire = record { connection = idle; sent = [] }

abbrev sent : Link
sent = (send_call true hello wire).1

-- Another call begins, and then the connection is cleaned.
abbrev two : Connection
two = (add_rpc_context (codes "2") sent.connection).1

apart : codes "2" ≢ codes "1"
apart e = grind (arith, e)

start-forgets_example :
    find
      (codes "1")
      (select_call
        (λ bytes. some bytes)
        hello
        0
        (message [])
        (record wire {
          connection = clean_all_rpc_context (codes "closed") two;
        })).1.connection.request_context
    ≡ none
start-forgets_example =
    start-forgets (λ bytes. some bytes) hello 0 wire true
      (clean_all_rpc_context (codes "closed") two) (message []) refl idle-IsOpen
      (cleaned (codes "closed") (other_call (codes "2") apart nothing)) (inr refl)

abbrev handlers : Dict Text ℕ
handlers = (codes "node.hi", 5) ∷ []

abbrev context : RequestContext
context = record { server_connection = 0; request_id = [] }

call_round_trip_example :
    ((send_call true hello wire).0 ≡ some 0)
    × ((packet : List ℕ) × Carries [] (send_call true hello wire).1.sent packet
        × ((process handlers idle (some context) packet).action
            ≡ handle 5 (1 ∷ 2 ∷ []) (with_id (codes "1") context)))
    × ((packet : List ℕ) × Carries []
          (reply true (9 ∷ []) (with_id (codes "1") context) wire).sent
          packet
        × ((process handlers sent.connection (some context) packet).action ≡ answer 0 (9 ∷ []))
        × ((select_call
              (λ bytes. some bytes)
              hello
              0
              (message (9 ∷ []))
              (record wire {
                connection = (process handlers sent.connection (some context) packet).connection;
              })).0
            ≡ some (9 ∷ [])))
unfolding nbagent.Wire.write_string find text_beq
call_round_trip_example =
    call_round_trip (λ bytes. some bytes) handlers 5 handlers hello 0 wire wire context context
      (9 ∷ []) refl (omega arith) (omega arith) (omega arith) (omega arith) refl sent.connection
      idle-IsOpen nothing
