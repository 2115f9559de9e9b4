-- ===== src/CliAgent/Uris.antt =====
-- `mUri2Client`: the clients that serve each key, `AddEntry` and `RemoveEntry` of
-- cli_agent/agent_manager.go.
pub mod Listed
pub mod Synced
pub mod Told
use nbagent.Base.{
  ℕ, Bool, true, false, not, Option, none, some, List, [], ◌∷◌, ◌++◌, Text, Dict, find, put, remove,
  text_eq, text_beq, nat_eq, nat_beq, keep, elem, for_each, length, get_elem?, ◌%◌, if◌then◌else◌,
  has,
}
use nbagent.Node.Entry.{EntryType, get_uri2}
use nbagent.Node.Manager.State.{RpcCallReq}
use nbagent.Node.Manager.Dispatch.{choose}
use nbagent.CliAgent.Client.{AgentEntry, get_uri}
use nbagent.CliAgent.Handler.{NodeHandler}
use nbagent.CliAgent.State.{ClientManager, clients}

module _ {N : Type 0} (h : NodeHandler N) where
  -- The body of the loop of `AddEntry`.
  unfoldable pub add_one : ℕ → AgentEntry → ClientManager N → ClientManager N
  add_one p entry m = elim (find (get_uri entry) m.uri2client) [
    | none ↦ record m {
      uri2client = put (get_uri entry) (p ∷ []) m.uri2client;
      node = h.add_entry entry.uri entry.entry_type m.node;
    }
    | some ps ↦ record m {
      uri2client = put (get_uri entry) (if elem p ps then ps else ps ++ (p ∷ [])) m.uri2client;
    }
  ]

  unfoldable pub add_entry : List AgentEntry → ℕ → ClientManager N → ClientManager N
  add_entry entries p m = for_each (add_one p) entries m

  unfoldable pub put_left : AgentEntry → List ℕ → ClientManager N → ClientManager N
  put_left entry [] m = record m {
    uri2client = remove (get_uri entry) m.uri2client;
    node = h.remove_entry entry.uri entry.entry_type m.node;
  }
  put_left entry (q ∷ qs) m = record m { uri2client = put (get_uri entry) (q ∷ qs) m.uri2client }

  -- The body of the loop of `RemoveEntry`.
  unfoldable pub remove_one : ℕ → AgentEntry → ClientManager N → ClientManager N
  unfolding put_left
  remove_one p entry m =
      put_left entry (keep (λ q. not (nat_beq q p)) (clients (get_uri entry) m)) m

  unfoldable pub remove_entry : List AgentEntry → ℕ → ClientManager N → ClientManager N
  remove_entry entries p m = for_each (remove_one p) entries m

-- `getClient4RpcCallReq`: no client has the key (the outer option), or the one chosen, which is
-- `none` where an index out of range would panic.
unfoldable pub get_client4rpc_call_req :
    {N : Type 0} → (ℕ → ℕ) → (Text → ℕ) → RpcCallReq → ClientManager N → Option (Option ℕ)
get_client4rpc_call_req intn checksum req m = elim (clients (get_uri2 req.uri req.entry_type) m) [
  | [] ↦ none
  | p ∷ ps ↦ some (choose intn checksum req.key (p ∷ ps))
]

-- `CheckAgentUri`
unfoldable pub check_agent_uri : {N : Type 0} → AgentEntry → ClientManager N → Bool
check_agent_uri entry m = has (get_uri entry) m.uri2client
