-- ===== src/Examples/Replicas.antt =====
-- A node and its copy at a peer, at concrete inputs.
use nbagent.Base.{
  ◌≡◌, refl, false, for_each, some, true, [], ◌∷◌, arith, codes, has, find, text_eq, text_beq, put,
  remove, nat_eq,
}
use mathlib.Core.List.{Memᴰ}
use nbagent.Node.Entry.{EntryInfo, rpc, get_uri, get_uri2, entry_type_name}
use nbagent.Node.Manager.State.{Manager, SayHelloReq, get_node_by_connection}
use nbagent.Node.Info.{
  alive, get_all_entry, modify_entry, modify_one, entry_exist, need_sync_all, sync_one, sync_entry,
}
use nbagent.Node.Manager.Local.{add_entry, modify_self}
use nbagent.Node.Manager.Handlers.{handle_node_entry_notify, try_sync_all, hello_accept}
use nbagent.Node.Manager.Routes.{synced, add_one, delete_entry, delete_one, route_one}
use nbagent.Server.Entries.{has_own}
use nbagent.Replica.{
  Pair, changed, answer, Reach, here, later, added, asked, noticed, fetched, compared, version_of,
  entry_of,
}
use nbagent.Replica.Follows.{copy_follows}
use nbagent.Replica.Restart.{restart_keeps_entries}
use nbagent.Examples.Servers.{home, hello}

abbrev pair : Pair
pair = record { origin = home; peer = record home { connection_node = (4, 1) ∷ [] }; mail = [] }

-- The notification of "sum" is taken, that of "max" is lost, and a keep-alive makes the peer ask.
abbrev sum : EntryInfo
sum = entry_of (codes "sum") rpc true

abbrev max : EntryInfo
max = entry_of (codes "max") rpc true

abbrev told_sum : Pair
told_sum = changed sum (add_entry (codes "sum") rpc pair.origin) pair

abbrev took_sum : Pair
took_sum = record told_sum {
  peer = (handle_node_entry_notify 4 (some (sum ∷ [], 1)) told_sum.peer).0;
}

abbrev told_max : Pair
told_max = changed max (add_entry (codes "max") rpc took_sum.origin) took_sum

abbrev heard : Pair
heard = record told_max { peer = (try_sync_all 1 2 told_max.peer).0 }

abbrev told_all : Pair
told_all = record heard {
  mail =
      answer (get_all_entry (heard.origin.infos heard.origin.self)) (version_of heard.origin)
      ∷ heard.mail;
}

abbrev took_all : Pair
took_all = record told_all { peer = synced 1 (sum ∷ max ∷ []) 2 told_all.peer }

run : Reach 1 pair took_all
unfolding entry_exist find get_node_by_connection get_all_entry put remove modify_entry modify_self
    add_entry handle_node_entry_notify try_sync_all need_sync_all get_uri get_uri2 modify_one
    route_one text_beq entry_type_name
run =
    later
      (later
        (later
          (later
            (later (later here (added (codes "sum") rpc pair refl (omega arith)))
              (noticed 4 (sum ∷ []) 1 told_sum refl (Memᴰ.head refl)))
            (added (codes "max") rpc took_sum refl (omega arith)))
          (compared 2 told_max))
        (asked heard))
      (fetched (sum ∷ max ∷ []) 2 told_all (Memᴰ.head refl))

copy_follows_example :
    has (codes "max_RPC") (took_all.peer.infos 1).entry_info
    ≡ has_own (codes "max_RPC") took_all.origin
unfolding synced add_one delete_entry get_all_entry try_sync_all need_sync_all
    handle_node_entry_notify find modify_entry modify_one route_one put delete_one sync_entry
    add_entry entry_exist modify_self remove text_beq entry_type_name get_uri get_uri2 sync_one
    get_node_by_connection
copy_follows_example =
    copy_follows (record { lives = refl; step = refl }) refl refl refl refl refl run refl refl
      (codes "max_RPC")

abbrev known : Manager
known = record home {
  infos = λ p. record (home.infos p) { entry_info = (codes "sum_RPC", sum) ∷ [] };
}

abbrev returned : SayHelloReq
returned = record hello { node_info = record hello.node_info { instance_id = 8 } }

restart_keeps_entries_example :
    let (greeted, asks) = try_sync_all 1 0 (hello_accept 10 9 102 returned known) in
    let n = (handle_node_entry_notify 9 (some (max ∷ [], 1)) greeted).0.infos 1 in
    (asks ≡ false)
    × (n.status ≡ alive)
    × (n.data_version ≡ 1)
    × (n.entry_info ≡ for_each sync_one (max ∷ []) ((codes "sum_RPC", sum) ∷ []))
unfolding find text_beq
restart_keeps_entries_example =
    restart_keeps_entries 10 9 102 1 (max ∷ []) returned known refl refl refl refl
