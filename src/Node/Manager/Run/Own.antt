-- ===== src/Node/Manager/Run/Own.antt =====
-- What the node does by itself keeps the routing table and the entries of the nodes together.
use nbagent.Base.{
  ℕ, ◌%◌, ◌^◌, ◌<◌, ◌≡◌, refl, ap, subst, sym, inl, inr, Bool, true, false, not, ◌||◌, List, [],
  ◌∷◌, ◌++◌, arith, Text, has, values, for_each_inv, text_eq, nat_eq, keep, for_each, Bool-cases,
  if_cases,
}
use nbagent.Node.Entry.{EntryType, EntryInfo, get_uri}
use nbagent.Node.Info.{Info, new_node, is_alive, modify_entry, next_version, entry_exist}
use nbagent.Node.Info.Entries.{modify_entry_eq, modified}
use nbagent.Node.Manager.State.{
  Manager, Msg, notify_entry, Neighbour, NodeInfo, set_info, spawn, close, cast,
}
use nbagent.Node.Manager.Routes.{route_one, routes, set_routes, bury, delete_node}
use nbagent.Node.Manager.Routes.Known.{IsRouted, IsRouted-same, bury-IsRouted}
use nbagent.Node.Manager.Timers.{
  clean_timeout, timeout_connection, timeout_node, meet, check_neighbour, make_friends, cast_others,
}
use nbagent.Node.Manager.Local.{modify_self, add_entry}
use nbagent.Node.Manager.Run.Peers.{alloc-IsRouted, taken-IsRouted}

delete_node-IsRouted : (p : ℕ) (m : Manager) → IsRouted m → IsRouted (delete_node p m)
unfolding delete_node
delete_node-IsRouted p m h =
    IsRouted-same (bury p m) _ (bury-IsRouted p m h) refl (λ q. refl) (omega arith)

pub clean_timeout-IsRouted : (now : ℕ) (m : Manager) → IsRouted m → IsRouted (clean_timeout now m)
unfolding clean_timeout
clean_timeout-IsRouted now m h =
    for_each_inv IsRouted delete_node delete_node-IsRouted
      (timeout_node now (for_each close (timeout_connection now m.temp_connection) m)) _
      (for_each_inv IsRouted close (λ conn s k. IsRouted-same s _ k refl (λ q. refl) (omega arith))
        (timeout_connection now m.temp_connection) m h)

meet-IsRouted :
    (now : ℕ) (name ip : Text) (instance_id port agent_port : ℕ) (m : Manager)
    → IsRouted m
    → IsRouted (meet now name ip instance_id port agent_port m)
unfolding meet new_node
meet-IsRouted now name ip instance_id port agent_port m h =
    elim (Bool-cases (has name m.node_info)) [
      | inl e ↦ rw e h
      | inr e ↦ rw e (IsRouted-same _ _ (alloc-IsRouted _ m refl h) refl (λ q. refl) (omega arith))
    ]

pub check_neighbour-IsRouted :
    (now : ℕ) (m : Manager) → IsRouted m → IsRouted (check_neighbour now m)
unfolding check_neighbour
check_neighbour-IsRouted now m h =
    for_each_inv IsRouted _
      (λ (b : Neighbour) s k. meet-IsRouted now b.name b.ip 0 b.port b.agent_port s k) m.neighbour m
      h

pub make_friends-IsRouted :
    (now : ℕ) (nodes : List NodeInfo) (m : Manager)
    → IsRouted m
    → IsRouted (make_friends now nodes m)
unfolding make_friends
make_friends-IsRouted now nodes m h =
    for_each_inv IsRouted
      (λ (b : NodeInfo).
        meet now b.name b.ip b.instance_id (b.port % 2 ^ 16) (b.agent_port % 2 ^ 16))
      (λ (b : NodeInfo) s k.
        meet-IsRouted now b.name b.ip b.instance_id (b.port % 2 ^ 16) (b.agent_port % 2 ^ 16) s k)
      (keep (λ (b : NodeInfo). not (has b.name m.node_info)) nodes) m h

pub cast-IsRouted :
    (pick : ℕ) (request_id : Text) (p : ℕ) (msg : Msg) (m : Manager)
    → IsRouted m
    → IsRouted (cast pick request_id p msg m)
unfolding cast
cast-IsRouted pick request_id p msg m h =
    IsRouted-same m _ h (ground arith) (λ q. ground arith) (ground arith)

pub cast_others-IsRouted :
    (pick : ℕ → ℕ) (request_id : Text) (msg : Msg) (m : Manager)
    → IsRouted m
    → IsRouted (cast_others pick request_id msg m)
unfolding cast_others
cast_others-IsRouted pick request_id msg m h =
    for_each_inv IsRouted _
      (λ p s k.
        if_cases IsRouted _ s (cast (pick p) request_id p msg s) (λ e. k)
          (λ e. cast-IsRouted (pick p) request_id p msg s k))
      (values m.node_info) m h

abbrev pub settled : EntryInfo → Manager → Manager
settled entry m = spawn (notify_entry entry) (
    set_info m.self (modified (entry ∷ []) (m.infos m.self))
      (record m { sequence = next_version m.sequence }))

-- A live node in step with its own sequence takes its own entry and tells its peers.
pub modify_self_eq :
    (entry : EntryInfo) (m : Manager)
    → (m.infos m.self).data_version ≡ m.sequence
    → is_alive (m.infos m.self) ≡ true
    → modify_self entry m ≡ settled entry m
unfolding modify_self
modify_self_eq entry m step lives =
    let e =
      subst
        (λ v.
          modify_entry (entry ∷ []) (next_version v) (m.infos m.self)
          ≡ (modified (entry ∷ []) (m.infos m.self), false, entry ∷ []))
        step (modify_entry_eq (entry ∷ []) (m.infos m.self) lives) in
    let after = λ (n : Info).
      spawn (notify_entry entry)
        (set_info m.self n (record m { sequence = next_version m.sequence })) in
    rw (modify_self, e) (ap (λ (r : Info × Bool × List EntryInfo). after r.0) e)

modify_self-IsRouted :
    (entry : EntryInfo) (m : Manager)
    → entry.is_new ≡ true
    → (m.infos m.self).data_version ≡ m.sequence
    → m.self < m.next
    → is_alive (m.infos m.self) ≡ true
    → IsRouted m
    → IsRouted (
        modify_self entry
          (set_routes (get_uri entry) (routes (get_uri entry) m ++ (m.self ∷ [])) m))
unfolding route_one
modify_self-IsRouted entry m new step small lives h =
    subst IsRouted
      (sym (
        modify_self_eq entry
          (set_routes (get_uri entry) (routes (get_uri entry) m ++ (m.self ∷ [])) m) step lives))
      (IsRouted-same _ _ (taken-IsRouted m.self (entry ∷ []) m small h) (rw new refl)
        (λ q. rw new refl) (rw new (omega arith)))

-- The route and the entry come together, if the node's version is that of its sequence.
pub add_entry-IsRouted :
    (uri : Text) (t : EntryType) (m : Manager)
    → (m.infos m.self).data_version ≡ m.sequence
    → m.self < m.next
    → IsRouted m
    → IsRouted (add_entry uri t m)
unfolding add_entry
add_entry-IsRouted uri t m step small h =
    let entry : EntryInfo = record { uri = uri; entry_type = t; is_new = true } in
    elim (Bool-cases (entry_exist entry (m.infos m.self) || not (is_alive (m.infos m.self)))) [
      | inl e ↦ rw e h
      | inr e ↦ rw e (modify_self-IsRouted entry m refl step small (ground arith) h)
    ]
