-- ===== src/Node/Info.antt =====
-- node/node.go: what a node knows of one peer, or of itself. A method of `*Info` takes the record
-- and returns the new one. A connection is a number; times are Unix seconds, arguments of the calls.
pub mod Entries
pub mod Versions
pub mod Connections
use nbagent.Base.{
  ℕ, suc, ◌+◌, ◌/◌, ◌%◌, ◌^◌, Bool, true, false, not, ◌&&◌, Option, none, some, List, [], ◌∷◌, ◌++◌,
  Text, Dict, find, put, remove, values, has, text_eq, nat_beq, ltb, leb, length, get_elem?, keep,
  for_each, if◌then◌else◌,
}
use nbagent.Node.Entry.{EntryType, EntryInfo, get_uri, get_uri2}

pub data NodeStatus : Type 0 where
  dead alive syncing : NodeStatus

pub record Info : Type 0 where
  pub name : Text
  pub ip : Text
  pub port : ℕ
  pub agent_port : ℕ
  pub connection_list : List ℕ
  pub sequence : ℕ  -- uint32
  pub status : NodeStatus
  pub entry_info : Dict Text EntryInfo
  pub data_version : ℕ  -- uint64
  pub last_keep_alive_time : ℕ
  pub instance_id : ℕ

unfoldable pub new_node : Text → Text → ℕ → ℕ → ℕ → ℕ → Info
new_node name ip instance_id port agent_port now = record {
  name = name;
  ip = ip;
  port = port;
  agent_port = agent_port;
  connection_list = [];
  sequence = 0;
  status = alive;
  entry_info = [];
  data_version = 0;
  last_keep_alive_time = now;
  instance_id = instance_id;
}

-- The second part is the number of connections left.
unfoldable pub remove_connection : ℕ → Info → Info × ℕ
remove_connection conn n =
    let left = keep (λ c. not (nat_beq c conn)) n.connection_list in
    (record n { connection_list = left }, length left)

abbrev pub is_dead : NodeStatus → Bool
is_dead dead = true
is_dead _ = false

abbrev pub is_syncing : NodeStatus → Bool
is_syncing syncing = true
is_syncing _ = false

abbrev pub is_alive : Info → Bool
is_alive n = not (is_dead n.status)

-- The tests of `addConnection`; `max` is `NeighbourMaxConnection`. The size is read under one lock, and
-- the connection appended under a later one.
abbrev pub has_room : ℕ → Info → Bool
has_room max n = is_alive n && not (ltb max (length n.connection_list))

abbrev pub append_connection : ℕ → Info → Info
append_connection conn n = record n { connection_list = n.connection_list ++ (conn ∷ []) }

-- `addConnection` where nothing comes between the two locks; `Connections.Adding` takes them apart.
-- The second part is true if the connection is closed.
unfoldable pub add_connection : ℕ → ℕ → Info → Info × Bool
add_connection max conn n = if has_room max n then (append_connection conn n, false) else (n, true)

unfoldable pub get_all_entry : Info → List EntryInfo
get_all_entry n = values n.entry_info

unfoldable pub mark_dead : Info → Info × List EntryInfo
unfolding get_all_entry
mark_dead n = (record n { status = dead }, get_all_entry n)

unfoldable pub connection_available : ℕ → Info → Bool
connection_available max n = leb (max / 2) (length n.connection_list)

-- `pick` is the index that `rand.Intn` gives for the number of connections. The reconnect task that
-- the code starts first is `Reconnect.reconnect`.
unfoldable pub get_connection : ℕ → Info → Option ℕ
get_connection pick n = get_elem? n.connection_list pick

-- The body of the loop of `syncEntry`.
unfoldable pub sync_one : EntryInfo → Dict Text EntryInfo → Dict Text EntryInfo
sync_one entry m = if entry.is_new then put (get_uri entry) entry m else remove (get_uri entry) m

unfoldable pub sync_entry : List EntryInfo → ℕ → Info → Info
sync_entry entries version n = record n {
  data_version = version;
  status = alive;
  entry_info = for_each sync_one entries [];
}

unfoldable pub entry_exist2 : Text → EntryType → Bool → Info → Bool
entry_exist2 uri entry_type tolerate_dead_node n =
    if not tolerate_dead_node && not (is_alive n)
    then false
    else has (get_uri2 uri entry_type) n.entry_info

unfoldable pub entry_exist : EntryInfo → Info → Bool
entry_exist entry n = has (get_uri entry) n.entry_info

-- The body of the loop of `modifyEntry`: the map and the entries that changed it.
unfoldable pub modify_one :
    Bool → EntryInfo → Dict Text EntryInfo × List EntryInfo → Dict Text EntryInfo × List EntryInfo
modify_one lives entry (m, changed) =
    if entry.is_new && lives
    then (put (get_uri entry) entry m, changed ++ (entry ∷ []))
    else if not entry.is_new
    then (remove (get_uri entry) m, changed ++ (entry ∷ []))
    else (m, changed)

abbrev pub next_version : ℕ → ℕ
next_version version = (version + 1) % 2 ^ 64

-- True asks for a full synchronisation.
unfoldable pub modify_entry : List EntryInfo → ℕ → Info → Info × Bool × List EntryInfo
modify_entry entries version n =
    if not (nat_beq version (next_version n.data_version))
    then (record n { status = syncing }, true, [])
    else (
      record n {
        data_version = version;
        entry_info = (for_each (modify_one (is_alive n)) entries (n.entry_info, [])).0;
      },
      false,
      (for_each (modify_one (is_alive n)) entries (n.entry_info, [])).1,
    )

unfoldable pub need_sync_all : ℕ → Info → Info × Bool
need_sync_all version n =
    if not (nat_beq n.data_version version)
    then (record n { status = syncing }, true)
    else (n, false)

unfoldable pub refresh_keep_live_time : ℕ → Info → Info
refresh_keep_live_time now n = record n { last_keep_alive_time = now }

unfoldable pub timeout : ℕ → ℕ → Info → Bool
timeout now limit n = ltb (n.last_keep_alive_time + limit) now

unfoldable pub set_instance_id : ℕ → Info → Info
set_instance_id instance_id n = record n { data_version = 0; instance_id = instance_id }
