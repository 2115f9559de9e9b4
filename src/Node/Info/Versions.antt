-- ===== src/Node/Info/Versions.antt =====
-- The versions of a node's entries: when notifications are taken, and when everything is fetched.
use nbagent.Base.{
  ℕ, zero, suc, ◌≡◌, ◌≢◌, refl, ap, subst, sym, ◌∙◌, inl, inr, Bool, true, false, ◌||◌, List, [],
  ◌∷◌, ◌++◌, arith, Text, Dict, length, for_each, if◌then◌else◌, Bool-cases,
}
use nbagent.Node.Entry.{EntryInfo}
use nbagent.Node.Info.{
  Info, NodeStatus, alive, is_alive, sync_one, sync_entry, modify_entry, next_version, mark_dead,
  need_sync_all, is_syncing, is_dead,
}
use nbagent.Node.Info.Entries.{modify_entry_eq, modified, modify_entry_gap}

-- What changes the status or the entries of a node: `handleNodeEntryNotify` with its test of the
-- status, the comparison of versions, a full synchronisation, and `markDead`.
pub data Change : Type 0 where
  notified : List EntryInfo → ℕ → Change
  compared : ℕ → Change
  synced : List EntryInfo → ℕ → Change
  died : Change

unfoldable pub change : Change → Info → Info
change (notified entries version) n =
    if is_syncing n.status || is_dead n.status then n else (modify_entry entries version n).0
change (compared version) n = (need_sync_all version n).0
change (synced entries version) n = sync_entry entries version n
change died n = (mark_dead n).0

abbrev pub is_sync : Change → Bool
is_sync (synced entries version) = true
is_sync _ = false

abbrev pub is_status_alive : NodeStatus → Bool
is_status_alive alive = true
is_status_alive _ = false

-- One change without a full synchronisation never makes a node alive that was not.
change-not_alive :
    (c : Change) (n : Info)
    → is_sync c ≡ false
    → is_status_alive n.status ≡ false
    → is_status_alive (change c n).status ≡ false
unfolding change modify_entry need_sync_all mark_dead
change-not_alive (notified entries version) n s h = ground arith
change-not_alive (compared version) n s h = ground arith
change-not_alive (synced entries version) n s h = cc
change-not_alive died n s h = ground arith

abbrev pub has_sync : List Change → Bool
has_sync [] = false
has_sync (c ∷ cs) = if is_sync c then true else has_sync cs

-- A node that is dead or out of step becomes alive only through a full synchronisation.
pub alive_needs_sync :
    (cs : List Change) (n : Info)
    → is_status_alive n.status ≡ false
    → is_status_alive (for_each change cs n).status ≡ true
    → has_sync cs ≡ true
alive_needs_sync [] n h a = cc
alive_needs_sync (c ∷ cs) n h a = elim (Bool-cases (is_sync c)) [
  | inl e ↦ rw e
  | inr e ↦ rw e (alive_needs_sync cs (change c n) (change-not_alive c n e h) a)
]

-- Notifications as a live node gets them from a peer, each with the version behind the one before.
abbrev pub in_step : ℕ → List (List EntryInfo) → List Change
in_step version [] = []
in_step version (es ∷ ess) = notified es (next_version version) ∷ in_step (next_version version) ess

abbrev pub flat : List (List EntryInfo) → List EntryInfo
flat [] = []
flat (es ∷ ess) = es ++ flat ess

abbrev pub advance : ℕ → ℕ → ℕ
advance zero version = version
advance (suc k) version = advance k (next_version version)

change-notified :
    (es : List EntryInfo) (n : Info)
    → n.status ≡ alive
    → change (notified es (next_version n.data_version)) n ≡ modified es n
unfolding change
change-notified es n lives =
    let not_dead : is_alive n ≡ true = ground (arith, lives) in
    let taken : (is_syncing n.status || is_dead n.status) ≡ false = ground (arith, lives) in
    rw taken (ap {A = Info × Bool × List EntryInfo} (λ r. r.0) (modify_entry_eq es n not_dead))

for_each-append :
    (xs ys : List EntryInfo) (m : Dict Text EntryInfo)
    → for_each sync_one (xs ++ ys) m ≡ for_each sync_one ys (for_each sync_one xs m)
for_each-append [] ys m = refl
for_each-append (x ∷ xs) ys m = for_each-append xs ys (sync_one x m)

abbrev TookAll : List (List EntryInfo) → Info → Info → Type 0
TookAll ess n n' =
    (n'.status ≡ n.status)
    × (n'.data_version ≡ advance (length ess) n.data_version)
    × (n'.entry_info ≡ for_each sync_one (flat ess) n.entry_info)

-- Notifications in step, to a node that is alive, neither dead nor out of step, are all taken: its status stays, its version counts them,
-- and its entries are what all their entries in order make of the ones before.
pub change-in_step :
    (ess : List (List EntryInfo)) (n : Info)
    → n.status ≡ alive
    → let n' = for_each change (in_step n.data_version ess) n in
      (n'.status ≡ n.status)
      × (n'.data_version ≡ advance (length ess) n.data_version)
      × (n'.entry_info ≡ for_each sync_one (flat ess) n.entry_info)
change-in_step [] n lives = (refl, refl, refl)
change-in_step (es ∷ ess) n lives =
    let (s, v, e) = change-in_step ess (modified es n) lives in
    subst
      (λ m. TookAll (es ∷ ess) n (for_each change (in_step (next_version n.data_version) ess) m))
      (sym (change-notified es n lives))
      (s, v, e ∙ sym (for_each-append es (flat ess) n.entry_info))

out_of_step :
    (es : List EntryInfo) (version : ℕ) (n : Info)
    → version ≢ next_version n.data_version
    → is_status_alive (change (notified es version) n).status ≡ false
unfolding change
out_of_step es version n h = ground (arith, modify_entry_gap es version n h)

-- After one notification out of step nothing but a full synchronisation makes the node alive again:
-- no notifications behind it, whatever they carry, no comparison of versions, and no death.
pub gap_stays :
    (es : List EntryInfo) (version : ℕ) (n : Info) (cs : List Change)
    → version ≢ next_version n.data_version
    → has_sync cs ≡ false
    → is_status_alive (for_each change (notified es version ∷ cs) n).status ≡ false
gap_stays es version n cs h s =
    elim (Bool-cases (is_status_alive (for_each change (notified es version ∷ cs) n).status)) [
      | inl back ↦
          cc
            (alive_needs_sync cs (change (notified es version) n) (out_of_step es version n h) back)
      | inr stays ↦ stays
    ]
