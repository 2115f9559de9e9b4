-- ===== src/Node/Manager/Local.antt =====
-- The entries of the node itself: `AddEntry`, `RemoveEntry` and `Stop`.
pub mod Stale
use nbagent.Base.{
  ℕ, suc, ◌+◌, ◌%◌, ◌^◌, Bool, true, false, not, ◌||◌, Option, none, some, List, [], ◌∷◌, ◌++◌,
  Text, Dict, find, put, text_eq, nat_beq, nat_eq, text_beq, update, keep, values, for_each,
  if◌then◌else◌,
}
use nbagent.Node.Entry.{EntryType, EntryInfo, get_uri}
use nbagent.Node.Info.{Info, is_alive, entry_exist, modify_entry, next_version}
use nbagent.Node.Manager.State.{
  Manager, Msg, entry_notify, say_goodbye, Task, notify_entry, stoped, spawn, set_info, name_of,
}
use nbagent.Node.Manager.Routes.{bury, routes, set_routes}
use nbagent.Node.Manager.Timers.{cast_others}

-- `modifyEntry` of the node itself with the next number of its sequence, and the task that tells
-- the peers if that changed anything.
unfoldable pub modify_self : EntryInfo → Manager → Manager
modify_self entry m =
    let sequence = next_version m.sequence in
    let (n, need_sync, changed) = modify_entry (entry ∷ []) sequence (m.infos m.self) in
    let m' = set_info m.self n (record m { sequence = sequence }) in
    elim changed [ [] ↦ m' | e ∷ es ↦ spawn (notify_entry entry) m' ]

unfoldable pub add_entry : Text → EntryType → Manager → Manager
add_entry uri entry_type m =
    let entry : EntryInfo = record { uri = uri; entry_type = entry_type; is_new = true } in
    let n = m.infos m.self in
    if entry_exist entry n || not (is_alive n)
    then m
    else modify_self entry
        (set_routes (get_uri entry) (routes (get_uri entry) m ++ (m.self ∷ [])) m)

-- The routing table is read and written under the bare uri.
unfoldable pub remove_entry : Text → EntryType → Manager → Manager
remove_entry uri entry_type m =
    let entry : EntryInfo = record { uri = uri; entry_type = entry_type; is_new = false } in
    modify_self entry (
      set_routes uri (keep (λ p. not (text_beq (name_of m p) (name_of m m.self))) (routes uri m)) m)

-- The task of `add_entry` and `remove_entry`.
unfoldable pub notify : (ℕ → ℕ) → EntryInfo → Manager → Manager
notify pick entry m =
    cast_others pick [] (entry_notify (entry ∷ []) (m.infos m.self).data_version) m

unfoldable pub stop : (ℕ → ℕ) → Manager → Manager
stop pick m = cast_others pick [] say_goodbye (bury m.self (record m { status = stoped }))
