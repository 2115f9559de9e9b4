-- ===== src/Node/Manager/Handlers/Farewell.antt =====
-- The end of a node, node/manager.go `handleSayGoodbyeNotify` and `Stop`.
use nbagent.Base.{
  ℕ, ◌≡◌, refl, true, false, some, List, [], ◌∷◌, arith, Text, values, elem, nat_eq, text_eq,
}
use nbagent.Node.Entry.{EntryInfo}
use nbagent.Node.Info.{is_dead}
use nbagent.Node.Manager.State.{Manager, get_node_by_connection}
use nbagent.Node.Manager.Routes.{routes, delete_entry, delete_one}
use nbagent.Node.Manager.Routes.Known.{
  IsRouted, bury-no_route, bury-eq, infos-delete_entry, set_dead,
}
use nbagent.Node.Manager.Handlers.{handle_say_goodbye_notify, sz_success}

node_info-delete_entry :
    (p : ℕ) (entries : List EntryInfo) (m : Manager)
    → (delete_entry p entries m).node_info ≡ m.node_info
unfolding delete_entry delete_one
node_info-delete_entry p [] m = refl
node_info-delete_entry p (entry ∷ entries) m =
    node_info-delete_entry p entries (delete_one p entry m)

-- In a state whose routes fit the entries, on a connection that belongs to the node `p`: after its
-- goodbye the node is dead, no route of any key leads to it, and it stays in the map of nodes.
pub goodbye-no_route :
    (conn p : ℕ) (notify : Unit {0}) (key : Text) (m : Manager)
    → IsRouted m
    → get_node_by_connection conn m ≡ some p
    → let (m', result) = handle_say_goodbye_notify conn (some notify) m in
      (result ≡ sz_success)
      × (is_dead (m'.infos p).status ≡ true)
      × (elem p (routes key m') ≡ false)
      × (m'.node_info ≡ m.node_info)
unfolding handle_say_goodbye_notify get_node_by_connection
goodbye-no_route conn p notify key m h e =
    rw (e, handle_say_goodbye_notify)
      (
        refl,
        rw (bury-eq p m, infos-delete_entry p (values (m.infos p).entry_info) (set_dead p m))
            (ground arith),
        bury-no_route p m key h,
        rw (bury-eq p m) (node_info-delete_entry p (values (m.infos p).entry_info) (set_dead p m)),
      )
