-- ===== src/Replica/Copies.antt =====
-- What the steps of the peer make of its copy of the node.
use nbagent.Base.{
  ℕ, ◌≡◌, refl, ap, ◌∙◌, ◌⊎◌, inl, inr, true, false, ◌||◌, some, List, arith, nat_eq, nat_beq,
  nat_beq_iff, for_each, for_each_inv, Bool-cases, values,
}
use nbagent.Node.Entry.{EntryInfo}
use nbagent.Node.Info.{
  Info, NodeStatus, alive, dead, syncing, is_alive, is_dead, is_syncing, need_sync_all,
  next_version, sync_entry, get_all_entry,
}
use nbagent.Node.Info.Entries.{modify_entry_eq, modified, modify_entry_gap}
use nbagent.Node.Manager.State.{Manager, set_info, get_node_by_connection}
use nbagent.Node.Manager.Routes.{route_one, add_one, synced, bury, delete_entry}
use nbagent.Node.Manager.Routes.Known.{bury-eq, infos-delete_entry, set_dead}
use nbagent.Node.Manager.Handlers.{handle_node_entry_notify, try_sync_all}

infos-routes :
    (p : ℕ) (entries : List EntryInfo) (m : Manager)
    → (for_each (route_one p) entries m).infos ≡ m.infos
unfolding route_one
infos-routes p entries m =
    for_each_inv (λ (s : Manager). s.infos ≡ m.infos) (route_one p) (λ entry s e. ground arith)
      entries m refl

infos-add :
    (p : ℕ) (entries : List EntryInfo) (m : Manager)
    → (for_each (add_one p) entries m).infos ≡ m.infos
unfolding add_one
infos-add p entries m =
    for_each_inv (λ (s : Manager). s.infos ≡ m.infos) (add_one p) (λ entry s e. ground arith)
      entries m refl

itself : (p : ℕ) (n : Info) (m : Manager) → (set_info p n m).infos p ≡ n
itself p n m = ground arith

pub copy_synced :
    (p : ℕ) (entries : List EntryInfo) (version : ℕ) (m : Manager)
    → (synced p entries version m).infos p ≡ sync_entry entries version (m.infos p)
unfolding synced
copy_synced p entries version m =
    let m' = set_info p (sync_entry entries version (m.infos p)) m in
    let old = get_all_entry (m.infos p) in
    ap (λ f. f p) (infos-add p entries (delete_entry p old m') ∙ infos-delete_entry p old m')
    ∙ itself p (sync_entry entries version (m.infos p)) m

pub copy_buried : (p : ℕ) (m : Manager) → ((bury p m).infos p).status ≡ dead
copy_buried p m =
    rw (bury-eq p m, infos-delete_entry p (values (m.infos p).entry_info) (set_dead p m))
      (ground arith)

-- A comparison of versions leaves the copy, or puts it out of step.
pub copy_compared :
    (p version : ℕ) (m : Manager)
    → let n = (try_sync_all p version m).0.infos p in (n ≡ m.infos p) ⊎ (n.status ≡ syncing)
unfolding try_sync_all need_sync_all
copy_compared p version m =
    let same : nat_beq p p ≡ true = ground arith in
    elim (Bool-cases (nat_beq (m.infos p).data_version version)) [
      | inl e ↦ inl (rw (same, e) refl)
      | inr e ↦ inr (rw (same, e) refl)
    ]

alive_status :
    (status : NodeStatus) → (is_syncing status || is_dead status) ≡ false → status ≡ alive
alive_status alive e = refl
alive_status dead e = cc
alive_status syncing e = cc

-- A live copy takes the notification of the next version.
pub notified_next :
    (conn p : ℕ) (entries : List EntryInfo) (m : Manager)
    → get_node_by_connection conn m ≡ some p
    → (m.infos p).status ≡ alive
    → (handle_node_entry_notify conn
          (some (entries, next_version (m.infos p).data_version))
          m).0.infos
        p
      ≡ modified entries (m.infos p)
unfolding handle_node_entry_notify get_node_by_connection
notified_next conn p entries m e lives =
    let n = m.infos p in
    let f : (is_syncing n.status || is_dead n.status) ≡ false = ground (arith, lives) in
    let live : is_alive n ≡ true = ground (arith, lives) in
    rw (e, handle_node_entry_notify, f, modify_entry_eq entries n live)
      (ap (λ h. h p) (infos-routes p entries (set_info p (modified entries n) m))
        ∙ itself p (modified entries n) m)

-- A notification leaves the copy, puts it out of step, or is the next one for a live copy.
pub copy_noticed :
    (conn p : ℕ) (entries : List EntryInfo) (version : ℕ) (m : Manager)
    → get_node_by_connection conn m ≡ some p
    → let n = (handle_node_entry_notify conn (some (entries, version)) m).0.infos p in
      (n ≡ m.infos p)
      ⊎ (n.status ≡ syncing)
      ⊎ (version ≡ next_version (m.infos p).data_version)
        × ((m.infos p).status ≡ alive)
        × (n ≡ modified entries (m.infos p))
unfolding handle_node_entry_notify get_node_by_connection
copy_noticed conn p entries version m e =
    let n = m.infos p in
    elim (Bool-cases (is_syncing n.status || is_dead n.status)) [
      | inl f ↦ inl (rw (e, handle_node_entry_notify, f) refl)
      | inr f ↦
          let lives = alive_status n.status f in
          elim (Bool-cases (nat_beq version (next_version n.data_version))) [
            | inl g ↦
                let is : version ≡ next_version n.data_version = (nat_beq_iff _ _).0 g in
                inr (
                  inr (
                    is,
                    lives,
                    ap (λ v. (handle_node_entry_notify conn (some (entries, v)) m).0.infos p) is
                        ∙ notified_next conn p entries m e lives,
                  ))
            | inr g ↦ inr (
                inl (
                  rw
                    (
                      e,
                      handle_node_entry_notify,
                      f,
                      modify_entry_gap entries version n (λ h. cc (g, (nat_beq_iff _ _).1 h)),
                    )
                    (ap (λ (k : Info). k.status) (itself p (record n { status = syncing }) m))))
          ]
    ]
