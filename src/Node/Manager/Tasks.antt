-- ===== src/Node/Manager/Tasks.antt =====
-- The tasks that dial a node and that greet a new one: node/node.go `reconnect`, and the task of
-- `handleSayHello` in node/manager.go. `none` is a panic.
pub mod Joining
use nbagent.Base.{
  [], ℕ, suc, ◌+◌, ◌%◌, ◌^◌, Bool, true, false, not, Option, none, some, List, Text, map, text_beq,
  nat_beq, values, if◌then◌else◌,
}
use nbagent.Node.Info.{Info, get_connection, is_alive, connection_available, set_instance_id}
use nbagent.Node.Manager.State.{
  Manager, Task, spawn, NodeInfo, SayHelloRsp, ResultCode, success, keep_alive, set_info, close,
  cast, get_node_by_connection,
}
use nbagent.Rpc.{CallContext, new_call, request_id}
use nbagent.Node.Manager.Handlers.{join}
use nbagent.Node.Manager.Timers.{gossip, all_node_info}

abbrev pub is_success : ResultCode → Bool
is_success success = true
is_success _ = false

-- `atomic.AddUint32(&ptrNode.nSequence, 1)`, for the request id of the call.
abbrev pub next_request : ℕ → Manager → Manager
next_request p m =
    set_info p (record (m.infos p) { sequence = ((m.infos p).sequence + 1) % 2 ^ 32 }) m

-- The node has proved that it is the one dialled.
unfoldable pub joined : ℕ → ℕ → ℕ → NodeInfo → Manager → Manager
joined max conn p peer m =
    let m' = join max conn p m in
    let n = m'.infos p in
    if nat_beq peer.instance_id n.instance_id
    then m'
    else set_info p (set_instance_id peer.instance_id n) m'

-- The response to the hello; without one the connection stays open and unused.
unfoldable pub answered : (Text → ℕ → Text) → ℕ → ℕ → ℕ → Option SayHelloRsp → Manager → Manager
answered sign max conn p none m = m
answered sign max conn p (some rsp) m =
    if not (is_success rsp.result) then close conn m else elim rsp.node_info [
      | none ↦ close conn m
      | some peer ↦
          if not (text_beq (sign peer.name rsp.time_stamp) rsp.sign)
          then close conn m
          else if not (text_beq peer.name (m.infos p).name)
          then close conn m
          else joined max conn p peer m
    ]

-- `dialled` is the connection that `network.NewClient` gives; without one the code calls `Close` on
-- a nil pointer.
unfoldable pub reconnect :
    (Text → ℕ → Text) → ℕ → ℕ → Option ℕ → Option SayHelloRsp → Manager → Option Manager
reconnect sign max p dialled rsp m =
    if not (is_alive (m.infos p))
    then some m
    else if connection_available max (m.infos p)
    then some m
    else elim dialled [
      | none ↦ none
      | some conn ↦ some (answered sign max conn p rsp (next_request p m))
    ]

-- The nodes that the greeting tells of have no agent port.
abbrev pub greeting_info : NodeInfo → NodeInfo
greeting_info n = record n { agent_port = 0 }

-- Without nodes `rand.Intn` panics, and without a node on the connection `cast` of a nil pointer.
unfoldable pub greet : (ℕ → ℕ) → ℕ → Text → ℕ → Manager → Option Manager
greet pick start request_id conn m = elim (gossip start (map greeting_info (all_node_info m))) [
  | none ↦ none
  | some nodes ↦ elim (get_node_by_connection conn m) [
    | none ↦ none
    | some p ↦ some (cast (pick p) request_id p (keep_alive (m.infos m.self).data_version nodes) m)
  ]
]

-- `Info.call`: the context that it returns has the id of the request context, also where that is
-- empty and a number was used up for another one. `pick` is what `rand.Intn` gives.
unfoldable pub call : ℕ → Text → Text → Text → List ℕ → ℕ → Manager → CallContext × Manager
unfolding get_connection
call pick uuid id uri req p m =
    let m' = spawn (Task.reconnect p) m in
    (
      request_id id (new_call uuid uri req (get_connection pick (m.infos p))),
      if text_beq id [] then next_request p m' else m',
    )
