-- ===== src/Examples/Agents.antt =====
-- The client manager at concrete inputs, over a node that only keeps a list of its keys.
use nbagent.Base.{
  ℕ, ◌≡◌, refl, ◌⊎◌, true, not, some, List, [], ◌∷◌, arith, Text, codes, find, text_beq, elem,
  elem-keep, keep, nat_eq, text_eq, if◌then◌else◌,
}
use nbagent.Wire.{msg_type_respone}
use nbagent.Caller.{push_stack, gen_agent_caller}
use nbagent.Node.Entry.{rpc, get_uri2}
use nbagent.Node.Manager.State.{
  RpcCallReq, RpcCallResp, error, success, entry_not_found, default_mode,
}
use nbagent.CliAgent.Client.{AgentEntry, ClientInfo, new_client, sync_entry}
use nbagent.CliAgent.Handler.{NodeHandler, Laws}
use nbagent.CliAgent.State.{ClientManager, clients, send, rpc_resp}
use nbagent.CliAgent.Uris.{add_entry, remove_entry}
use nbagent.CliAgent.Manager.{
  RegisterReq, handle_agent_register, reply, sz_success, sz_entry_not_found, agent_call_fail,
}
use nbagent.CliAgent.Manager.Calls.{Env, answer_client, call_client, rpc_call, failed}
use nbagent.CliAgent.Manager.Calls.Answers.{answer_client-asked, call_client-serves}
use nbagent.Examples.Coding.{coding, coding-reads}

abbrev pub listing : NodeHandler (List Text)
listing = record {
  dispatch_req = λ request_id req n. (n, error);
  dispatch_rsp = λ request_id rsp n. (n, error);
  add_entry = λ uri t n. get_uri2 uri t ∷ n;
  remove_entry = λ uri t n. keep (λ key. not (text_beq (get_uri2 uri t) key)) n;
  node_list = λ n. [];
  entry_check = λ uri t n. success;
}

abbrev listing_laws : Laws listing
listing_laws = record {
  IsReady = λ n. Unit {0};
  has_entry = λ key n. elem key n;
  add_ready = λ uri t n r. tt;
  remove_ready = λ uri t n r. tt;
  has_add = λ uri key t n r. refl;
  has_remove =
      λ uri key t n r. ground (arith, elem-keep key (λ k. not (text_beq (get_uri2 uri t) k)) n);
}

abbrev sum : AgentEntry
sum = record { uri = codes "sum"; entry_type = rpc }

abbrev pub client : ClientInfo
unfolding new_client sync_entry
client = record (sync_entry (sum ∷ []) (new_client (codes "c0") 100)) { connection_list = 5 ∷ [] }

abbrev pub idle : ClientManager (List Text)
idle = record {
  name = codes "agent";
  temp_connection = [];
  client_info = (codes "c0", 0) ∷ [];
  uri2client = [];
  is_started = true;
  node = [];
  infos = λ p. client;
  next = 1;
  connection_client = (5, 0) ∷ [];
  closed = [];
  outbox = [];
}

abbrev pub sign : Text → ℕ → Text
sign name time = time ∷ name

abbrev pub register : RegisterReq
register = record {
  instance_id = codes "c1";
  entries = sum ∷ [];
  sign = 100 ∷ codes "c1";
  time_stamp = 100;
}

-- A manager that nobody has come to.
abbrev empty : ClientManager (List Text)
empty = record idle { client_info = []; connection_client = [] }

abbrev joined : ClientManager (List Text)
joined = (handle_agent_register listing sign 5 10 6 (codes "1") 101 (some register) empty).0

abbrev pub env : Env
env = record {
  json = coding;
  intn = λ n. 0;
  pick = 0;
  checksum = λ s. 9;
  connection_id = λ conn. conn ∷ [];
  uuid = codes "u";
  writes = λ conn. true;
}

abbrev pub answer : RpcCallResp
answer = record {
  result = success;
  payload = 4 ∷ [];
  uri = codes "sum";
  caller = [];
  entry_type = rpc;
}

pub one_apart : (c d : ℕ) → c ∷ [] ≡ d ∷ [] → c ≡ d
one_apart c d e = ground arith

answer_client-asked_example :
    answer_client listing env
      (record answer {
        caller =
            push_stack (gen_agent_caller coding (codes "c0") (codes "8") (5 ∷ [])) (codes "n" ∷ []);
      })
      idle
    ≡ (
      send
          (record {
            conn = 5;
            uri = codes "node.rpcResp";
            msg_type = msg_type_respone;
            request_id = codes "8";
            msg = rpc_resp (record answer { caller = codes "n" ∷ [] });
          })
          idle,
      sz_success,
    )
unfolding find text_beq client
answer_client-asked_example =
    answer_client-asked listing env (codes "c0") (codes "8") 5 0 (codes "n" ∷ []) answer idle
      (coding-reads _) (λ d inside e. one_apart d 5 e) refl refl refl refl

abbrev pub call : RpcCallReq
call = record {
  payload = [];
  uri = codes "sum";
  caller = [];
  request_mode = default_mode;
  key = [];
  entry_type = rpc;
}

call_client-serves_example :
    ((clients (get_uri2 (codes "sum") rpc) idle ≡ [])
      × (call_client listing env 5 (codes "8") call idle
          ≡ some (
            reply listing 5 (codes "8") (rpc_resp (failed entry_not_found)) idle,
            sz_entry_not_found,
          )))
    ⊎ (p : ℕ) × (elem p (clients (get_uri2 (codes "sum") rpc) idle) ≡ true)
      × (call_client listing env 5 (codes "8") call idle
          ≡ some (
            (rpc_call listing env p call idle).0,
            if (rpc_call listing env p call idle).1 then sz_success else agent_call_fail,
          ))
call_client-serves_example = call_client-serves listing env 5 (codes "8") call idle (λ n h. h)
