-- ===== src/Server/Entries.antt =====
-- The entries of the node and the keys that clients serve.
use nbagent.Base.{
  ℕ, ◌≡◌, refl, ◌∙◌, inl, inr, Bool, true, false, not, ◌||◌, [], ◌∷◌, ◌++◌, arith, Text, find, has,
  keep, text_eq, text_beq, text_beq_iff, nat_beq, nat_eq, if◌then◌else◌, Bool-cases, find-put,
  find-remove,
}
use nbagent.Caller.{Json}
use nbagent.Node.Entry.{EntryType, EntryInfo, get_uri, get_uri2}
use nbagent.Node.Info.{is_alive, entry_exist, sync_one}
use nbagent.Node.Manager.State.{Manager, name_of}
use nbagent.Node.Manager.Routes.{routes, set_routes}
use nbagent.Node.Manager.Local.{add_entry, remove_entry}
use nbagent.Node.Manager.Run.Own.{modify_self_eq, settled}
use nbagent.CliAgent.Handler.{Laws}
use nbagent.CliAgent.State.{ClientManager}
use nbagent.CliAgent.Uris.Told.{IsServed}
use nbagent.CliAgent.Manager.Steps.{Reach, Reach-IsServed}
use nbagent.Node.Info.{new_node}
use nbagent.Node.Manager.Start.{new_manager}
use nbagent.CliAgent.Manager.Start.{new_client_manager}
use nbagent.Server.{node_handler, new_nb_server, ServerConf}

-- The node is not dead, and its version is that of its sequence.
pub record IsInStep (m : Manager) : Type 0 where
  pub lives : is_alive (m.infos m.self) ≡ true
  pub step : (m.infos m.self).data_version ≡ m.sequence

abbrev pub has_own : Text → Manager → Bool
has_own key m = has key (m.infos m.self).entry_info

-- What `modify_self` makes of a node in step.
pub settled-IsInStep : (entry : EntryInfo) (m : Manager) → IsInStep m → IsInStep (settled entry m)
settled-IsInStep entry m s =
    let same : nat_beq m.self m.self ≡ true = ground arith in
    record { lives = rw same s.lives; step = rw (same, s.step) }

pub has_own-settled :
    (entry : EntryInfo) (key : Text) (m : Manager)
    → has_own key (settled entry m)
      ≡ (if text_beq (get_uri entry) key then entry.is_new else has_own key m)
unfolding sync_one
has_own-settled entry key m =
    let same : nat_beq m.self m.self ≡ true = ground arith in
    rw same (
      ground (
        arith,
        find-put key (get_uri entry) entry (m.infos m.self).entry_info,
        find-remove key (get_uri entry) (m.infos m.self).entry_info,
      ))

pub add_entry_eq :
    (uri : Text) (t : EntryType) (m : Manager)
    → let entry : EntryInfo = record { uri = uri; entry_type = t; is_new = true } in
      entry_exist entry (m.infos m.self) ≡ false
      → IsInStep m
      → add_entry uri t m
        ≡ settled entry (set_routes (get_uri entry) (routes (get_uri entry) m ++ (m.self ∷ [])) m)
unfolding add_entry
add_entry_eq uri t m e s =
    let entry : EntryInfo = record { uri = uri; entry_type = t; is_new = true } in
    let added = set_routes (get_uri entry) (routes (get_uri entry) m ++ (m.self ∷ [])) m in
    simp (e, s.lives) (modify_self_eq entry added s.step s.lives)

pub remove_entry_eq :
    (uri : Text) (t : EntryType) (m : Manager)
    → IsInStep m
    → remove_entry uri t m
      ≡ settled
          (record { uri = uri; entry_type = t; is_new = false })
          (set_routes uri
            (keep (λ p. not (text_beq (name_of m p) (name_of m m.self))) (routes uri m))
            m)
unfolding remove_entry
remove_entry_eq uri t m s =
    let entry : EntryInfo = record { uri = uri; entry_type = t; is_new = false } in
    let others = keep (λ p. not (text_beq (name_of m p) (name_of m m.self))) (routes uri m) in
    modify_self_eq entry (set_routes uri others m) s.step s.lives

-- `AddEntry` of a node in step: it has the entry, what it had, and nothing else.
pub add_entry-own :
    (uri : Text) (t : EntryType) (m : Manager)
    → IsInStep m
    → IsInStep (add_entry uri t m)
      × ((key : Text)
          → has_own key (add_entry uri t m) ≡ (text_beq (get_uri2 uri t) key || has_own key m))
unfolding add_entry entry_exist get_uri
add_entry-own uri t m s =
    let entry : EntryInfo = record { uri = uri; entry_type = t; is_new = true } in
    let added = set_routes (get_uri entry) (routes (get_uri entry) m ++ (m.self ∷ [])) m in
    elim (Bool-cases (entry_exist entry (m.infos m.self))) [
      | inl e ↦ simp e (s, λ key. ground (arith, text_beq_iff (get_uri entry) key, e))
      | inr e ↦ rw (add_entry_eq uri t m e s) (
        settled-IsInStep entry added (record { lives = s.lives; step = s.step }),
        λ key. has_own-settled entry key added ∙ ground arith,
      )
    ]

pub remove_entry-own :
    (uri : Text) (t : EntryType) (m : Manager)
    → IsInStep m
    → IsInStep (remove_entry uri t m)
      × ((key : Text)
          → has_own key (remove_entry uri t m)
            ≡ (if text_beq (get_uri2 uri t) key then false else has_own key m))
unfolding remove_entry get_uri
remove_entry-own uri t m s =
    let entry : EntryInfo = record { uri = uri; entry_type = t; is_new = false } in
    let others = keep (λ p. not (text_beq (name_of m p) (name_of m m.self))) (routes uri m) in
    rw (remove_entry_eq uri t m s) (
      settled-IsInStep entry (set_routes uri others m) (record { lives = s.lives; step = s.step }),
      λ key. has_own-settled entry key (set_routes uri others m),
    )

module _ (json : Json) (intn : ℕ → ℕ) (checksum : Text → ℕ) (pick : ℕ → ℕ) (start : ℕ) where
  -- The node manager keeps the laws of the client manager's interface.
  unfoldable node_laws : Laws (node_handler json intn checksum pick start)
  unfolding node_handler
  node_laws = record {
    IsReady = IsInStep;
    has_entry = has_own;
    add_ready = λ uri t n r. (add_entry-own uri t n r).0;
    remove_ready = λ uri t n r. (remove_entry-own uri t n r).0;
    has_add = λ uri key t n r. (add_entry-own uri t n r).1 key;
    has_remove = λ uri key t n r. (remove_entry-own uri t n r).1 key;
  }

  -- A process whose node is not dead, is in step with its sequence and has no entries, and whose table
  -- of clients is empty: after any steps of the client manager over the node manager, the node has an
  -- entry of a key exactly if the key stands in the table, and it is in step.
  pub clients_served :
      {m m' : ClientManager Manager}
      → IsInStep m.node
      → ((key : Text) → has_own key m.node ≡ false)
      → m.uri2client ≡ []
      → Reach (node_handler json intn checksum pick start) m m'
      → IsInStep m'.node × ((key : Text) → has_own key m'.node ≡ has key m'.uri2client)
  unfolding find node_laws
  clients_served {m} s none_own empty r =
      let served : IsServed node_laws m = record {
        full = λ key. rw empty refl;
        once = λ key p. rw empty (omega arith);
        told = λ key. rw empty (none_own key);
        ready = s;
      } in
      let after = Reach-IsServed _ node_laws served r in (after.ready, after.told)

  -- From the start of the server on: after any steps of the client manager over the node manager, the
  -- node has an entry of a key exactly if the key stands in the table, and its version is that of its
  -- sequence.
  served_since_start :
      (node_uuid agent_uuid : Text) (instance_id now : ℕ) (conf : ServerConf)
      (m : ClientManager Manager)
      → Reach
          (node_handler json intn checksum pick start)
          (new_nb_server node_uuid agent_uuid instance_id now conf)
          m
      → IsInStep m.node × ((key : Text) → has_own key m.node ≡ has key m.uri2client)
  unfolding new_nb_server new_manager new_client_manager new_node find
  served_since_start node_uuid agent_uuid instance_id now conf m r =
      clients_served (record { lives = refl; step = refl }) (λ key. refl) refl r
