-- ===== src/Node/Manager/Dispatch.antt =====
-- The dispatch of calls: `DispatchReq`, `DispatchRsp`, `EntryCheck`, `NodeList`. `intn n` is what
-- `rand.Intn` gives for `n` nodes, `pick` the choice of a connection, and `checksum` the CRC-32.
pub mod Choice
pub mod Return
use nbagent.Base.{
  ℕ, suc, ◌+◌, ◌%◌, ◌^◌, Bool, true, false, not, Option, none, some, List, [], ◌∷◌, ◌++◌, Text,
  Dict, find, put, text_eq, nat_beq, nat_eq, text_beq, keep, values, map, length, get_elem?,
  if◌then◌else◌,
}
use nbagent.Caller.{
  Caller, Json, caller_node, push_stack, pop_stack, get_top_stack, gen_node_caller,
}
use nbagent.Node.Entry.{EntryType, get_uri2}
use nbagent.Node.Info.{Info, entry_exist2, is_alive}
use nbagent.Node.Manager.State.{
  NodeInfo, Manager, Msg, rpc_req, rpc_resp, RpcCallReq, RpcCallResp, ResultCode, success, error,
  entry_not_found, call_your_self, node_not_exist, stack_empty, RequestMode, default_mode,
  local_force, local_better, other_mode, name_of, cast,
}
use nbagent.Node.Manager.Routes.{routes}
use nbagent.Node.Manager.Timers.{gossip, node_info_of}

-- `int` has 64 bits, so the checksum is never negative.
unfoldable pub string2_hash_code : (Text → ℕ) → Text → ℕ
string2_hash_code checksum input = checksum input

-- The index into a list of nodes: random for an empty key, by the hash of the key otherwise.
unfoldable pub choose : (ℕ → ℕ) → (Text → ℕ) → Text → List ℕ → Option ℕ
unfolding string2_hash_code
choose intn checksum key nodes =
    if text_beq key []
    then get_elem? nodes (intn (length nodes))
    else get_elem? nodes (string2_hash_code checksum key % length nodes)

unfoldable pub get_remote_node_by_uri : Text → Manager → List ℕ
get_remote_node_by_uri key m =
    keep (λ p. not (text_beq (name_of m p) (name_of m m.self))) (routes key m)

-- The node pushes itself on the stack of callers and sends the request on.
unfoldable pub forward : Json → ℕ → Text → ℕ → RpcCallReq → Manager → Manager
forward json pick request_id p req m =
    cast pick request_id p
      (rpc_req
        (record req { caller = push_stack (gen_node_caller json (name_of m m.self)) req.caller }))
      m

-- A choice of `none` is an index out of range, which panics.
unfoldable pub forward_to :
    Json → (ℕ → ℕ) → Text → Option ℕ → RpcCallReq → Manager → Option (Manager × ResultCode)
unfolding forward
forward_to json pick request_id none req m = none
forward_to json pick request_id (some p) req m =
    some (forward json (pick p) request_id p req m, success)

-- One of the nodes, or none if there are none.
unfoldable pub dispatch_to :
    Json
    → (ℕ → ℕ)
    → (Text → ℕ)
    → (ℕ → ℕ)
    → Text
    → List ℕ
    → RpcCallReq
    → Manager
    → Option (Manager × ResultCode)
dispatch_to json intn checksum pick request_id [] req m = some (m, entry_not_found)
dispatch_to json intn checksum pick request_id (p ∷ ps) req m =
    forward_to json pick request_id (choose intn checksum req.key (p ∷ ps)) req m

unfoldable pub dispatch_mode :
    RequestMode
    → Json
    → (ℕ → ℕ)
    → (Text → ℕ)
    → (ℕ → ℕ)
    → Text
    → RpcCallReq
    → Manager
    → Option (Manager × ResultCode)
dispatch_mode local_force json intn checksum pick request_id req m =
    if entry_exist2 req.uri req.entry_type true (m.infos m.self)
    then some (m, call_your_self)
    else some (m, entry_not_found)
dispatch_mode local_better json intn checksum pick request_id req m =
    if entry_exist2 req.uri req.entry_type false (m.infos m.self)
    then some (m, call_your_self)
    else dispatch_to json intn checksum pick request_id
        (get_remote_node_by_uri (get_uri2 req.uri req.entry_type) m) req m
dispatch_mode default_mode json intn checksum pick request_id req m =
    dispatch_to json intn checksum pick request_id (routes (get_uri2 req.uri req.entry_type) m) req
      m
dispatch_mode (other_mode n) json intn checksum pick request_id req m = some (m, entry_not_found)

unfoldable pub dispatch_req :
    Json
    → (ℕ → ℕ)
    → (Text → ℕ)
    → (ℕ → ℕ)
    → Text
    → RpcCallReq
    → Manager
    → Option (Manager × ResultCode)
dispatch_req json intn checksum pick request_id req m =
    dispatch_mode req.request_mode json intn checksum pick request_id req m

-- The caller on top decides: a node of the map gets the response, with itself taken off the stack.
unfoldable pub dispatch_rsp : Json → (ℕ → ℕ) → Text → RpcCallResp → Manager → Manager × ResultCode
dispatch_rsp json pick request_id rsp m = elim (get_top_stack rsp.caller) [
  | none ↦ (m, stack_empty)
  | some top ↦ elim (json.unmarshal top) [
    | none ↦ (m, error)
    | some c ↦
        if not (nat_beq c.type caller_node)
        then (m, call_your_self)
        else elim (find c.node m.node_info) [
          | none ↦ (m, node_not_exist)
          | some p ↦ (
            cast (pick p) request_id p (rpc_resp (record rsp { caller = (pop_stack rsp.caller).1 }))
                m,
            success,
          )
        ]
  ]
]

unfoldable pub entry_check : Text → EntryType → Manager → ResultCode
entry_check uri entry_type m = elim (routes (get_uri2 uri entry_type) m) [
  | [] ↦ entry_not_found
  | p ∷ ps ↦ success
]

-- No nodes give the empty list here: the code tests for it before it draws.
unfoldable pub node_list : ℕ → Manager → Option (List NodeInfo)
unfolding gossip
node_list start m =
    elim (map (λ p. node_info_of (m.infos p))
      (keep (λ p. is_alive (m.infos p)) (values m.node_info))) [
        | [] ↦ some []
        | x ∷ xs ↦ gossip start (x ∷ xs)
      ]
