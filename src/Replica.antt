-- ===== src/Replica.antt =====
-- A node, and what another node knows of it: changes of the entries, notifications, full
-- synchronisations, and what is lost, late or twice.
pub mod Tidy
pub mod Copies
pub mod Truth
pub mod Follows
pub mod Restart
use nbagent.Base.{
  ℕ, suc, ◌+◌, ◌<◌, ◌≡◌, ◌^◌, Option, none, some, List, [], ◌∷◌, Text, Bool, true, false,
}
use mathlib.Core.List.{Memᴰ}
use nbagent.Node.Entry.{EntryType, EntryInfo}
use nbagent.Node.Info.{Info, get_all_entry, entry_exist}
use nbagent.Node.Manager.State.{Manager, get_node_by_connection}
use nbagent.Node.Manager.Routes.{synced, bury}
use nbagent.Node.Manager.Handlers.{handle_node_entry_notify, try_sync_all}
use nbagent.Node.Manager.Apart.{Same}
use nbagent.Node.Manager.Local.{add_entry, remove_entry}

-- What the node has ever told: the notification of a change, and the answer to a full
-- synchronisation.
pub data Letter : Type 0 where
  told answer : List EntryInfo → ℕ → Letter

-- `mail` is never emptied: a letter may arrive late, twice or never.
pub record Pair : Type 0 where
  pub origin : Manager
  pub peer : Manager
  pub mail : List Letter

abbrev pub version_of : Manager → ℕ
version_of m = (m.infos m.self).data_version

abbrev pub entry_of : Text → EntryType → Bool → EntryInfo
entry_of uri t is_new = record { uri = uri; entry_type = t; is_new = is_new }

-- The node after a change, and the notification that its task sends.
abbrev pub changed : EntryInfo → Manager → Pair → Pair
changed entry m s = record s { origin = m; mail = told (entry ∷ []) (version_of m) ∷ s.mail }

-- `p` is the node as its peer knows it. The task that notifies of a change runs before the next
-- change (a later one would send a later version), an answer is made of one state of the node (the
-- code reads the version and then copies the entries), and changes are fewer than versions. Whatever
-- else the node does leaves its own entries, and whatever else the peer does leaves the status, the
-- version and the entries of its copy; a hello with another instance is not among the steps, since
-- `setInstanceID` puts the version to 0 and keeps the entries.
pub data Step (p : ℕ) : Pair → Pair → Type 0 where
  added :
      (uri : Text) (t : EntryType) (s : Pair)
      → entry_exist (entry_of uri t true) (s.origin.infos s.origin.self) ≡ false
      → s.origin.sequence + 1 < 2 ^ 64
      → Step p s (changed (entry_of uri t true) (add_entry uri t s.origin) s)
  removed :
      (uri : Text) (t : EntryType) (s : Pair)
      → s.origin.sequence + 1 < 2 ^ 64
      → Step p s (changed (entry_of uri t false) (remove_entry uri t s.origin) s)
  asked :
      (s : Pair)
      → Step p s (record s {
        mail = answer (get_all_entry (s.origin.infos s.origin.self)) (version_of s.origin) ∷ s.mail;
      })
  noticed :
      (conn : ℕ) (entries : List EntryInfo) (version : ℕ) (s : Pair)
      → get_node_by_connection conn s.peer ≡ some p
      → Memᴰ (told entries version) s.mail
      → Step p s
          (record s { peer = (handle_node_entry_notify conn (some (entries, version)) s.peer).0 })
  fetched :
      (entries : List EntryInfo) (version : ℕ) (s : Pair)
      → Memᴰ (answer entries version) s.mail
      → Step p s (record s { peer = synced p entries version s.peer })
  compared :
      (version : ℕ) (s : Pair) → Step p s (record s { peer = (try_sync_all p version s.peer).0 })
  stirred :
      (m : Manager) (s : Pair)
      → m.self ≡ s.origin.self
      → m.sequence ≡ s.origin.sequence
      → Same (m.infos m.self) (s.origin.infos s.origin.self)
      → Step p s (record s { origin = m })
  aside :
      (m : Manager) (s : Pair)
      → Same (m.infos p) (s.peer.infos p)
      → Step p s (record s { peer = m })
  buried : (s : Pair) → Step p s (record s { peer = bury p s.peer })

pub data Reach (p : ℕ) (s : Pair) : Pair → Type 0 where
  here : Reach p s s
  later : {s' s'' : Pair} → Reach p s s' → Step p s' s'' → Reach p s s''
