-- ===== src/Examples/Managers.antt =====
-- The node manager at concrete inputs.
use nbagent.Base.{
  is_late, ℕ, ◌+◌, ◌%◌, ◌<◌, ◌≡◌, ◌≢◌, refl, ◌⊎◌, true, false, none, some, List, [], ◌∷◌, arith,
  Text, codes, find, has, length, text_beq, elem, nat_eq, nat_beq, text_eq, if◌then◌else◌, min,
  get_elem?,
}
use nbagent.Caller.{Json}
use nbagent.Node.Entry.{rpc, get_uri2}
use nbagent.Node.Info.{Info, new_node, is_alive, is_dead}
use nbagent.Node.Manager.State.{
  Manager, NodeInfo, started, RpcCallReq, SayHelloReq, default_mode, local_better, entry_not_found,
  success, get_node_by_connection, name_of,
}
use nbagent.Node.Manager.Routes.{routes, synced, bury}
use nbagent.Node.Manager.Routes.Known.{IsRouted}
use nbagent.Node.Manager.Routes.Change.{synced-IsRouted}
use nbagent.Node.Manager.Handlers.{handle_say_hello, handle_say_goodbye_notify, sz_success}
use nbagent.Node.Manager.Handlers.Hello.{refused_hello_changes_nothing, accepted_hello_joins}
use nbagent.Node.Manager.Handlers.Farewell.{goodbye-no_route}
use nbagent.Node.Manager.Timers.{gossip, goosip_size, clean_timeout}
use nbagent.Node.Manager.Timers.Gossip.{gossip_lem}
use nbagent.Node.Manager.Timers.Cleaning.{clean_timeout-no_route}
use nbagent.Node.Manager.Local.{add_entry, remove_entry}
use nbagent.Node.Manager.Local.Stale.{add_entry-registered, remove_entry-stale}
use nbagent.Node.Manager.Dispatch.{dispatch_req, forward, entry_check, get_remote_node_by_uri}
use nbagent.Node.Manager.Dispatch.Choice.{dispatch_req_serves, dispatch_req_local_better}
use nbagent.Node.Manager.Run.Steps.{Reach-IsRouted, later, here, cleaned}
use nbagent.Node.Manager.State.{RpcCallResp}
use nbagent.Examples.Nodes.{sum}

abbrev me : NodeInfo
me = record {
  name = codes "n0";
  ip = codes "10.0.0.0";
  port = 8800;
  instance_id = 3;
  agent_port = 8900;
}

abbrev node_at : ℕ → Info
unfolding new_node
node_at p =
    if nat_beq p 0
    then new_node (codes "n0") (codes "10.0.0.0") 3 8800 8900 100
    else new_node (codes "n1") (codes "10.0.0.1") 7 8800 8900 100

-- Two nodes, the first the node itself; the second has joined over the connection 5.
abbrev joined : Manager
joined = record {
  temp_connection = [];
  node_info = (codes "n0", 0) ∷ (codes "n1", 1) ∷ [];
  rpc_func2node = [];
  self = 0;
  sequence = 0;
  neighbour = [];
  status = started;
  my_info = me;
  infos = node_at;
  next = 2;
  connection_node = (5, 1) ∷ [];
  closed = [];
  tasks = [];
  outbox = [];
}

joined-IsRouted : IsRouted joined
unfolding find node_at
joined-IsRouted = record {
  known = λ key p e. absurd (ground arith);
  allocated = λ key p e. absurd (ground arith);
  keyed = λ p key entry e. absurd (ground arith);
}

-- The second node has sent its entry.
abbrev served : Manager
served = synced 1 (sum ∷ []) 1 joined

served-IsRouted : IsRouted served
served-IsRouted = synced-IsRouted 1 (sum ∷ []) 1 joined (refl, tt) (omega arith) joined-IsRouted

Reach-IsRouted_example : IsRouted (clean_timeout 500 served)
Reach-IsRouted_example = Reach-IsRouted served-IsRouted (later here (cleaned 500 served))

-- Any function at all.
abbrev json : Json
json = record { marshal = λ c. c.node; unmarshal = λ s. none }

abbrev call : RpcCallReq
call = record {
  payload = [];
  uri = codes "sum";
  caller = [];
  request_mode = default_mode;
  key = codes "k";
  entry_type = rpc;
}

abbrev intn : ℕ → ℕ
intn n = 0

dispatch_req_serves_example :
    ((routes (get_uri2 (codes "sum") rpc) served ≡ [])
      × (dispatch_req json intn (λ s. 9) (λ p. 0) (codes "1") call served
          ≡ some (served, entry_not_found)))
    ⊎ (p : ℕ) × (elem p (routes (get_uri2 (codes "sum") rpc) served) ≡ true)
      × (has (get_uri2 (codes "sum") rpc) (served.infos p).entry_info ≡ true)
      × (dispatch_req json intn (λ s. 9) (λ p. 0) (codes "1") call served
          ≡ some (forward json 0 (codes "1") p call served, success))
dispatch_req_serves_example =
    dispatch_req_serves json intn (λ s. 9) (λ p. 0) (codes "1") call served (λ n h. h) refl
      served-IsRouted

abbrev near_call : RpcCallReq
near_call = record call { request_mode = local_better }

dispatch_req_local_better_example :
    ((get_remote_node_by_uri (get_uri2 (codes "sum") rpc) joined ≡ [])
      × (dispatch_req json intn (λ s. 9) (λ p. 0) (codes "1") near_call joined
          ≡ some (joined, entry_not_found)))
    ⊎ (p : ℕ) × (elem p (routes (get_uri2 (codes "sum") rpc) joined) ≡ true)
      × (text_beq (name_of joined p) (name_of joined 0) ≡ false)
      × (dispatch_req json intn (λ s. 9) (λ p. 0) (codes "1") near_call joined
          ≡ some (forward json 0 (codes "1") p near_call joined, success))
unfolding nbagent.Node.Info.entry_exist2 node_at find
dispatch_req_local_better_example =
    dispatch_req_local_better json intn (λ s. 9) (λ p. 0) (codes "1") near_call joined (λ n h. h)
      refl refl

goodbye-no_route_example :
    ((handle_say_goodbye_notify 5 (some tt) served).1 ≡ sz_success)
    × (is_dead ((handle_say_goodbye_notify 5 (some tt) served).0.infos 1).status ≡ true)
    × (elem 1 (routes (codes "sum_RPC") (handle_say_goodbye_notify 5 (some tt) served).0) ≡ false)
    × ((handle_say_goodbye_notify 5 (some tt) served).0.node_info ≡ served.node_info)
unfolding get_node_by_connection find synced nbagent.Node.Manager.Routes.add_one
    nbagent.Node.Manager.Routes.delete_entry nbagent.Node.Info.get_all_entry node_at
goodbye-no_route_example = goodbye-no_route 5 1 tt (codes "sum_RPC") served served-IsRouted refl

clean_timeout-no_route_example :
    elem 1 (routes (codes "sum_RPC") (clean_timeout 500 served)) ≡ false
unfolding synced nbagent.Node.Manager.Routes.add_one nbagent.Node.Manager.Routes.delete_entry
    nbagent.Node.Info.get_all_entry node_at nbagent.Node.Info.timeout nbagent.Node.Info.sync_entry
clean_timeout-no_route_example =
    clean_timeout-no_route 500 served 1 (codes "sum_RPC") served-IsRouted refl refl refl

gossip_lem_example :
    (ys : List NodeInfo) × (gossip 7 (me ∷ me ∷ []) ≡ some ys)
    × (length ys ≡ min goosip_size 2)
    × ((i : ℕ) → i < length ys → get_elem? ys i ≡ get_elem? (me ∷ me ∷ []) ((7 + i) % 2))
gossip_lem_example = gossip_lem 7 me (me ∷ [])

abbrev sign : Text → ℕ → Text
sign name time = time ∷ name

abbrev greeting : SayHelloReq
greeting = record {
  node_info = record {
    name = codes "n2";
    ip = codes "10.0.0.2";
    port = 8800;
    instance_id = 9;
    agent_port = 8900;
  };
  sign = 100 ∷ codes "n2";
  time_stamp = 100;
  data_version = 0;
}

refused_hello_changes_nothing_example :
    ((handle_say_hello sign 10 6 200 (some (some greeting)) joined).1 ≢ sz_success)
    × (record (handle_say_hello sign 10 6 200 (some (some greeting)) joined).0 { outbox = [] }
        ≡ joined)
unfolding text_beq is_late
refused_hello_changes_nothing_example =
    refused_hello_changes_nothing sign 10 6 200 greeting joined refl

accepted_hello_joins_example :
    ((handle_say_hello sign 10 6 101 (some (some greeting)) joined).1 ≡ sz_success)
    × (find 6 (handle_say_hello sign 10 6 101 (some (some greeting)) joined).0.temp_connection
        ≡ none)
    × ((p : ℕ) × (find
            (codes "n2")
            (handle_say_hello sign 10 6 101 (some (some greeting)) joined).0.node_info
          ≡ some p)
        × (get_node_by_connection 6 (handle_say_hello sign 10 6 101 (some (some greeting)) joined).0
            ≡ some p)
        × (((handle_say_hello sign 10 6 101 (some (some greeting)) joined).0.infos p).instance_id
            ≡ 9))
unfolding is_late
accepted_hello_joins_example = accepted_hello_joins sign 10 6 101 greeting joined refl refl refl

remove_entry-stale_example :
    (find (codes "sum_RPC") ((remove_entry (codes "sum") rpc joined).infos 0).entry_info ≡ none)
    × (routes (codes "sum_RPC") (remove_entry (codes "sum") rpc joined)
        ≡ routes (codes "sum_RPC") joined)
unfolding node_at get_uri2
remove_entry-stale_example = remove_entry-stale (codes "sum") rpc joined refl refl

add_entry-registered_example :
    (find (codes "sum_RPC") ((add_entry (codes "sum") rpc joined).infos 0).entry_info ≡ some sum)
    × (elem 0 (routes (codes "sum_RPC") (add_entry (codes "sum") rpc joined)) ≡ true)
    × (entry_check (codes "sum") rpc (add_entry (codes "sum") rpc joined) ≡ success)
    × (((add_entry (codes "sum") rpc joined).infos 0).data_version
        ≡ (add_entry (codes "sum") rpc joined).sequence)
unfolding node_at nbagent.Node.Info.entry_exist find get_uri2
add_entry-registered_example = add_entry-registered (codes "sum") rpc joined refl refl refl

abbrev answer : RpcCallResp
answer = record {
  result = success;
  payload = 4 ∷ [];
  uri = codes "sum";
  caller = [];
  entry_type = rpc;
}
