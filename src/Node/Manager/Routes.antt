-- ===== src/Node/Manager/Routes.antt =====
-- The routing table `mRpcFunc2Node`: `deleteEntry`, `deleteNode` and the loops that add routes.
pub mod Known
pub mod Change
use nbagent.Base.{
  ℕ, suc, ◌+◌, Bool, true, false, not, Option, none, some, List, [], ◌∷◌, ◌++◌, Text, Dict, find,
  put, remove, get_or_empty, text_eq, nat_beq, nat_eq, text_beq, update, keep, for_each,
  if◌then◌else◌,
}
use nbagent.Node.Entry.{EntryInfo, get_uri}
use nbagent.Node.Info.{Info, mark_dead, sync_entry, get_all_entry}
use nbagent.Node.Manager.State.{Manager, set_info, name_of}

-- A missing key reads as the nil slice.
abbrev pub routes : Text → Manager → List ℕ
routes key m = get_or_empty (find key m.rpc_func2node)

abbrev pub set_routes : Text → List ℕ → Manager → Manager
set_routes key ps m = record m { rpc_func2node = put key ps m.rpc_func2node }

-- The body of the loop of `deleteEntry`: nodes are told apart by name.
unfoldable pub delete_one : ℕ → EntryInfo → Manager → Manager
delete_one p entry m =
    set_routes (get_uri entry)
      (keep (λ q. not (text_beq (name_of m q) (name_of m p))) (routes (get_uri entry) m)) m

unfoldable pub delete_entry : ℕ → List EntryInfo → Manager → Manager
delete_entry p entries m = for_each (delete_one p) entries m

-- `markDead`, and `deleteEntry` of what it returns.
unfoldable pub bury : ℕ → Manager → Manager
bury p m = let (n, entries) = mark_dead (m.infos p) in delete_entry p entries (set_info p n m)

unfoldable pub delete_node : ℕ → Manager → Manager
delete_node p m = let m' = bury p m in record m' { node_info = remove (name_of m p) m'.node_info }

-- The loop of `handleNodeEntryNotify`: a new entry adds the node, also where it stands already; any
-- other takes the node out, by pointer.
unfoldable pub route_one : ℕ → EntryInfo → Manager → Manager
route_one p entry m =
    if entry.is_new
    then set_routes (get_uri entry) (routes (get_uri entry) m ++ (p ∷ [])) m
    else set_routes (get_uri entry) (keep (λ q. not (nat_beq q p)) (routes (get_uri entry) m)) m

-- The last loop of `trySyncAll`: entries that are not new are only logged.
unfoldable pub add_one : ℕ → EntryInfo → Manager → Manager
add_one p entry m =
    if entry.is_new then set_routes (get_uri entry) (routes (get_uri entry) m ++ (p ∷ [])) m else m

-- What `trySyncAll` does with the response of the peer.
unfoldable pub synced : ℕ → List EntryInfo → ℕ → Manager → Manager
synced p entries version m =
    let old = get_all_entry (m.infos p) in
    let m' = set_info p (sync_entry entries version (m.infos p)) m in
    for_each (add_one p) entries (delete_entry p old m')
