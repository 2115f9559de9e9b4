-- ===== src/Examples/Protocol.antt =====
-- The protocol, the router and the stack of callers at concrete inputs.
use nbagent.Base.{
  ℕ, ◌≡◌, refl, false, some, [], ◌∷◌, ◌++◌, arith, Text, codes, Dict, find, put, text_beq, text_eq,
}
use nbagent.Wire.{read_string, write_string}
use nbagent.Wire.RoundTrip.{Message, body, read_string-write_string_mod}
use nbagent.Network.Stream.{eof, closed, read_loop, read_loop-IsBounded, IsBounded}
use nbagent.Network.Stream.Frames.{stream, read_loop-stream_eof}
use nbagent.Network.Contexts.{
  Connection, RequestContext, new_rpc_context, clean_all_rpc_context, add_rpc_context,
}
use nbagent.Network.Contexts.Invariant.{
  IsOpen, add_rpc_context-IsOpen, clean_all_rpc_context-IsOpen, clean_all_rpc_context_tells, told,
}
use nbagent.Router.{process, router2_handler}
use nbagent.Router.Dispatch.{process_response_twice}

abbrev hello : Message
hello = record { uri = codes "node.hi"; msg_type = 1; request_id = codes "1"; msg = 1 ∷ 2 ∷ [] }

abbrev reply : Message
reply = record { uri = []; msg_type = 2; request_id = codes "1"; msg = 7 ∷ [] }

read_string-write_string_mod_example :
    read_string (write_string [] (1 ∷ 2 ∷ []) ++ (9 ∷ [])) ≡ some (1 ∷ 2 ∷ [], 9 ∷ [])
read_string-write_string_mod_example = read_string-write_string_mod (1 ∷ 2 ∷ []) (9 ∷ [])

read_loop-IsBounded_example : IsBounded (read_loop 10 (1 ∷ 0 ∷ 0 ∷ 0 ∷ 5 ∷ []) eof)
read_loop-IsBounded_example = read_loop-IsBounded 10 (1 ∷ 0 ∷ 0 ∷ 0 ∷ 5 ∷ []) eof (omega arith)

read_loop-stream_eof_example :
    read_loop 3 (stream (hello ∷ reply ∷ []) []) eof ≡ some (body hello ∷ body reply ∷ [], closed)
unfolding write_string
read_loop-stream_eof_example =
    read_loop-stream_eof (hello ∷ reply ∷ []) 0 (omega arith, (omega arith, tt))

abbrev pub idle : Connection
idle = record {
  request_context = [];
  rpc_context = λ p. new_rpc_context;
  next = 0;
  double_close = false;
}

pub idle-IsOpen : IsOpen idle
unfolding find
idle-IsOpen = record {
  waiting = λ id p e. absurd (ground arith);
  distinct = λ id j p e f. absurd (ground arith);
  unique = tt;
  once = refl;
}

abbrev waiting : Connection
unfolding add_rpc_context
waiting = (add_rpc_context (codes "1") idle).1

waiting-IsOpen : IsOpen waiting
unfolding waiting add_rpc_context
waiting-IsOpen = add_rpc_context-IsOpen (codes "1") idle idle-IsOpen

clean_all_rpc_context-IsOpen_example :
    IsOpen (clean_all_rpc_context (codes "closed") waiting)
    × ((clean_all_rpc_context (codes "closed") waiting).request_context ≡ [])
clean_all_rpc_context-IsOpen_example =
    clean_all_rpc_context-IsOpen (codes "closed") waiting waiting-IsOpen

clean_all_rpc_context_tells_example :
    (clean_all_rpc_context (codes "closed") waiting).rpc_context 0 ≡ told (codes "closed")
unfolding find waiting put text_beq
clean_all_rpc_context_tells_example =
    clean_all_rpc_context_tells (codes "closed") (codes "1") waiting 0 waiting-IsOpen refl

abbrev context : RequestContext
context = record { server_connection = 0; request_id = [] }

abbrev handlers : Dict Text ℕ
handlers = (codes "node.hi", 5) ∷ []

process_response_twice_example :
    (process handlers
      (process handlers waiting (some context) (body reply)).connection
      (some context)
      (body reply)).action
    ≡ router2_handler handlers [] (7 ∷ []) (some (record context { request_id = codes "1" }))
unfolding find waiting put text_beq
process_response_twice_example =
    process_response_twice handlers waiting context reply 0 (omega arith) (omega arith) refl refl
