-- ===== src/Node/Info/Entries.antt =====
-- What a list of changes makes of the entries of a node.
use mathlib.Core.List.{append-nil, append_assoc}
use nbagent.Base.{
  ℕ, ◌≡◌, ◌≢◌, refl, ap, ◌∙◌, true, false, Option, none, some, List, [], ◌∷◌, ◌++◌, arith, Text,
  Dict, find, text_eq, text_beq, nat_beq, for_each, if◌then◌else◌, find-put, find-remove, find-nil,
}
use nbagent.Node.Entry.{EntryInfo, get_uri}
use nbagent.Node.Info.{
  Info, alive, syncing, is_alive, sync_one, sync_entry, modify_one, modify_entry, next_version,
}

-- The specification: for each key the last entry with that key decides, and an entry that is not
-- new takes the key away.
abbrev pub decide : EntryInfo → Option EntryInfo
decide entry = if entry.is_new then some entry else none

abbrev pub last_word : Text → List EntryInfo → Option EntryInfo → Option EntryInfo
last_word key [] old = old
last_word key (entry ∷ entries) old =
    last_word key entries (if text_beq (get_uri entry) key then decide entry else old)

sync_loop :
    (key : Text) (entries : List EntryInfo) (m : Dict Text EntryInfo)
    → find key (for_each sync_one entries m) ≡ last_word key entries (find key m)
unfolding sync_one
sync_loop key [] m = refl
sync_loop key (entry ∷ entries) m =
    sync_loop key entries (sync_one entry m)
    ∙ ap (last_word key entries)
        (ground (arith, find-put key (get_uri entry) entry m, find-remove key (get_uri entry) m))

-- After a full synchronisation the node is alive, at the version given, and has exactly the entries
-- of the list, whatever it had before.
pub sync_entry_lem :
    (entries : List EntryInfo) (version : ℕ) (n : Info) (key : Text)
    → ((sync_entry entries version n).status ≡ alive)
      × ((sync_entry entries version n).data_version ≡ version)
      × (find key (sync_entry entries version n).entry_info ≡ last_word key entries none)
unfolding sync_entry
sync_entry_lem entries version n key =
    (refl, refl, sync_loop key entries [] ∙ ap (last_word key entries) (find-nil key))

modify_one_alive :
    (entry : EntryInfo) (m : Dict Text EntryInfo) (changed : List EntryInfo)
    → modify_one true entry (m, changed) ≡ (sync_one entry m, changed ++ (entry ∷ []))
unfolding modify_one sync_one
modify_one_alive entry m changed = ground arith

-- On a live node the loop of `modifyEntry` does what that of `syncEntry` does, and reports every
-- entry.
modify_loop :
    (entries : List EntryInfo) (m : Dict Text EntryInfo) (changed : List EntryInfo)
    → for_each (modify_one true) entries (m, changed)
      ≡ (for_each sync_one entries m, changed ++ entries)
modify_loop [] m changed = rw append-nil
modify_loop (entry ∷ entries) m changed =
    ap (for_each (modify_one true) entries) (modify_one_alive entry m changed)
    ∙ modify_loop entries (sync_one entry m) (changed ++ (entry ∷ []))
    ∙ rw append_assoc

abbrev pub modified : List EntryInfo → Info → Info
modified entries n = record n {
  data_version = next_version n.data_version;
  entry_info = for_each sync_one entries n.entry_info;
}

pub modify_entry_eq :
    (entries : List EntryInfo) (n : Info)
    → is_alive n ≡ true
    → modify_entry entries (next_version n.data_version) n ≡ (modified entries n, false, entries)
unfolding modify_entry
modify_entry_eq entries n lives =
    let same : nat_beq (next_version n.data_version) (next_version n.data_version) ≡ true =
      ground arith in
    rw same (rw lives (rw (modify_loop entries n.entry_info [])))

-- A notification that carries the next version, to a live node: every entry is reported as a
-- change, the last entry for a key decides, other keys keep their entry, and the version moves on.
modify_entry_next :
    (entries : List EntryInfo) (n : Info) (key : Text)
    → is_alive n ≡ true
    → let (n', need_sync, changed) = modify_entry entries (next_version n.data_version) n in
      (need_sync ≡ false)
      × (changed ≡ entries)
      × (n'.data_version ≡ next_version n.data_version)
      × (n'.status ≡ n.status)
      × (find key n'.entry_info ≡ last_word key entries (find key n.entry_info))
modify_entry_next entries n key lives =
    rw (modify_entry_eq entries n lives)
      (refl, refl, refl, refl, sync_loop key entries n.entry_info)

-- Any other version: nothing but the status changes, and that asks for a full synchronisation.
pub modify_entry_gap :
    (entries : List EntryInfo) (version : ℕ) (n : Info)
    → version ≢ next_version n.data_version
    → modify_entry entries version n ≡ (record n { status = syncing }, true, [])
unfolding modify_entry
modify_entry_gap entries version n h = ground arith
