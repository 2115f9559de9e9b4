-- ===== src/CliAgent/Client.antt =====
-- cli_agent/agent.go: what the agent knows of a client. Connections are numbers; `pick` is what
-- `rand.Intn` gives.
use nbagent.Base.{
  ℕ, ◌+◌, ◌/◌, Bool, true, false, not, Option, none, some, List, [], ◌∷◌, ◌++◌, Text, Dict, put,
  values, text_eq, text_beq, nat_eq, nat_beq, ltb, leb, keep, elem, length, get_elem?, for_each,
  if◌then◌else◌,
}
use nbagent.Node.Entry.{EntryType, get_uri2}

-- `agent.EntryInfo`; its enumeration has the names of the node's.
pub record AgentEntry : Type 0 where
  pub uri : Text
  pub entry_type : EntryType

pub data ClientStatus : Type 0 where
  dead alive : ClientStatus

pub record ClientInfo : Type 0 where
  pub instance_id : Text
  pub connection_list : List ℕ
  pub entry_info : Dict Text AgentEntry
  pub status : ClientStatus
  pub last_keep_alive_time : ℕ

unfoldable pub get_uri : AgentEntry → Text
get_uri entry = get_uri2 entry.uri entry.entry_type

unfoldable pub new_client : Text → ℕ → ClientInfo
new_client instance_id now = record {
  instance_id = instance_id;
  connection_list = [];
  entry_info = [];
  status = alive;
  last_keep_alive_time = now;
}

abbrev pub is_alive : ClientStatus → Bool
is_alive dead = false
is_alive alive = true

-- The number is that of the connections left.
unfoldable pub on_close_connection : ℕ → ClientInfo → ClientInfo × ℕ
on_close_connection conn n =
    let left = keep (λ c. not (nat_beq c conn)) n.connection_list in
    (record n { connection_list = left }, length left)

-- `max` is `AgentClientMaxConnection`. The second part is true if the connection is closed.
unfoldable pub add_connection : ℕ → ℕ → ClientInfo → ClientInfo × Bool
add_connection max conn n =
    if not (is_alive n.status)
    then (n, true)
    else if elem conn n.connection_list
    then (n, false)
    else if ltb max (length n.connection_list)
    then (n, true)
    else (record n { connection_list = n.connection_list ++ (conn ∷ []) }, false)

unfoldable pub get_all_entry : ClientInfo → List AgentEntry
get_all_entry n = values n.entry_info

-- The client, the connections that are closed, and the entries.
unfoldable pub mark_dead : ClientInfo → ClientInfo × List ℕ × List AgentEntry
unfolding get_all_entry
mark_dead n = (record n { status = dead }, n.connection_list, get_all_entry n)

unfoldable pub connection_available : ℕ → ClientInfo → Bool
connection_available max n = leb (max / 2) (length n.connection_list)

unfoldable pub get_connection : ℕ → ClientInfo → Option ℕ
get_connection pick n = get_elem? n.connection_list pick

abbrev pub find_id : (ℕ → Text) → Text → List ℕ → Option ℕ
find_id id_of id [] = none
find_id id_of id (c ∷ cs) =
    let rest = find_id id_of id cs in if text_beq (id_of c) id then some c else rest

-- The connection that the request came over, or any if that is gone. `id_of` is `getConnectionID`.
unfoldable pub get_resp_connection : (ℕ → Text) → ℕ → Text → ClientInfo → Option ℕ
get_resp_connection id_of pick id n = elim (find_id id_of id n.connection_list) [
  | none ↦ get_elem? n.connection_list pick
  | some c ↦ some c
]

unfoldable pub sync_one : AgentEntry → Dict Text AgentEntry → Dict Text AgentEntry
sync_one entry m = put (get_uri entry) entry m

unfoldable pub sync_entry : List AgentEntry → ClientInfo → ClientInfo
sync_entry entries n = record n { entry_info = for_each sync_one entries []; status = alive }

unfoldable pub refresh_keep_live_time : ℕ → ClientInfo → ClientInfo
refresh_keep_live_time now n = record n { last_keep_alive_time = now }

unfoldable pub timeout : ℕ → ℕ → ClientInfo → Bool
timeout now limit n = ltb (n.last_keep_alive_time + limit) now
