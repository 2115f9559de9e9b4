-- ===== src/Node/Manager/Timers.antt =====
-- The timers of the node manager and the tasks that its handlers start. `pick p` is what `rand.Intn`
-- gives where a connection of the node `p` is chosen, and `start` what it gives where the gossip
-- starts.
pub mod Gossip
pub mod Cleaning
use nbagent.Base.{
  ℕ, zero, suc, ◌+◌, ◌%◌, ◌^◌, Bool, true, false, not, ◌&&◌, Option, none, some, List, [], ◌∷◌,
  ◌++◌, Text, Dict, find, put, text_eq, nat_beq, nat_eq, text_beq, ltb, update, keep, map, values,
  min, length, get_elem?, for_each, has, if◌then◌else◌,
}
use nbagent.Node.Info.{Info, new_node, timeout}
use nbagent.Node.Manager.State.{
  NodeInfo, Neighbour, Manager, Msg, keep_alive, Task, reconnect, close, spawn, name_of, cast,
  get_node_by_connection,
}
use nbagent.Node.Manager.Routes.{delete_node}
use nbagent.Node.Manager.Handlers.{connection_timeout}

abbrev pub node_timeout : ℕ
node_timeout = 15

abbrev pub goosip_size : ℕ
goosip_size = 5

-- The connections that have not said hello in time. They leave the map when they have closed.
unfoldable pub timeout_connection : ℕ → Dict ℕ ℕ → List ℕ
timeout_connection now [] = []
timeout_connection now ((conn, time) ∷ rest) =
    let later = timeout_connection now rest in
    if ltb (time + connection_timeout) now then conn ∷ later else later

unfoldable pub timeout_node : ℕ → Manager → List ℕ
timeout_node now m =
    keep (λ p. not (nat_beq p m.self) && timeout now node_timeout (m.infos p)) (values m.node_info)

unfoldable pub clean_timeout : ℕ → Manager → Manager
clean_timeout now m =
    let m' = for_each close (timeout_connection now m.temp_connection) m in
    for_each delete_node (timeout_node now m') m'

-- A node of this name, address and instance, unless the name is known.
unfoldable pub meet : ℕ → Text → Text → ℕ → ℕ → ℕ → Manager → Manager
meet now name ip instance_id port agent_port m =
    if has name m.node_info
    then m
    else spawn (reconnect m.next) (record m {
      infos = update m.infos m.next (new_node name ip instance_id port agent_port now);
      next = suc m.next;
      node_info = put name m.next m.node_info;
    })

unfoldable pub check_neighbour : ℕ → Manager → Manager
check_neighbour now m =
    for_each (λ (b : Neighbour). meet now b.name b.ip 0 b.port b.agent_port) m.neighbour m

-- The body of the task of `makefriends`. The first pass, under the read lock, only saves the lock
-- where no name is new: the second tests every name again.
unfoldable pub make_friends : ℕ → List NodeInfo → Manager → Manager
make_friends now nodes m =
    for_each
      (λ (b : NodeInfo).
        meet now b.name b.ip b.instance_id (b.port % 2 ^ 16) (b.agent_port % 2 ^ 16))
      (keep (λ (b : NodeInfo). not (has b.name m.node_info)) nodes) m

abbrev pub node_info_of : Info → NodeInfo
node_info_of n = record {
  name = n.name;
  ip = n.ip;
  port = n.port;
  instance_id = n.instance_id;
  agent_port = n.agent_port;
}

-- The loop `for ; nCount > 0; nCount--`: `size` is the length of the list, and an index out of range
-- is a fault.
unfoldable pub window {ℓ} : {A : Type ℓ} → ℕ → ℕ → ℕ → List A → Option (List A)
window zero start size xs = some []
window (suc count) start size xs = elim (get_elem? xs (start % size)) [
  | none ↦ none
  | some x ↦ elim (window count (suc start) size xs) [ none ↦ none | some ys ↦ some (x ∷ ys) ]
]

-- At most `goosip_size` of the nodes, cyclically from `start`. On no nodes at all `rand.Intn` panics.
unfoldable pub gossip : ℕ → List NodeInfo → Option (List NodeInfo)
unfolding window
gossip start [] = none
gossip start (x ∷ xs) = window (min goosip_size (length (x ∷ xs))) start (length (x ∷ xs)) (x ∷ xs)

abbrev pub all_node_info : Manager → List NodeInfo
all_node_info m = map (λ p. node_info_of (m.infos p)) (values m.node_info)

-- A cast to every node of the map whose name is not the node's own.
unfoldable pub cast_others : (ℕ → ℕ) → Text → Msg → Manager → Manager
cast_others pick request_id msg m =
    for_each
      (λ p m'.
        if text_beq (name_of m' p) (name_of m' m'.self)
        then m'
        else cast (pick p) request_id p msg m')
      (values m.node_info) m

unfoldable pub keepalive : (ℕ → ℕ) → ℕ → Manager → Option Manager
keepalive pick start m = elim (gossip start (all_node_info m)) [
  | none ↦ none
  | some nodes ↦ some (cast_others pick [] (keep_alive m.sequence nodes) m)
]
