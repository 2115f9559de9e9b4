-- ===== src/Node/Manager/Local/Stale.antt =====
-- What the routing table has of the node's own entries, node/manager.go `AddEntry` and `RemoveEntry`.
use nbagent.Base.{
  ℕ, ◌≡◌, ◌≢◌, ap, ◌∙◌, true, false, not, none, some, [], ◌∷◌, ◌++◌, arith, Text, find, length,
  length-append, nat_beq, text_beq, text_beq_iff, text_eq, nat_eq, elem, keep, find-put_same,
  find-remove_same, eq_self, codes,
}
use nbagent.Node.Entry.{
  EntryType, EntryInfo, http, rpc, invalidate, entry_type_name, get_uri, get_uri2,
}
use nbagent.Node.Info.{is_alive, entry_exist, sync_one}
use nbagent.Node.Manager.State.{Manager, name_of, success}
use nbagent.Node.Manager.Routes.{routes, set_routes}
use nbagent.Node.Manager.Routes.Known.{routes-set}
use nbagent.Node.Manager.Routes.Change.{elem-add_route}
use nbagent.Node.Manager.Local.{add_entry, remove_entry}
use nbagent.Node.Manager.Dispatch.{entry_check}
use nbagent.Node.Manager.Run.Own.{modify_self_eq, settled}

longer : (uri : Text) (t : EntryType) → uri ≢ get_uri2 uri t
unfolding get_uri2 entry_type_name
longer uri invalidate h = omega (arith, ap length h, length-append uri (codes "_INVALIDATE"))
longer uri http h = omega (arith, ap length h, length-append uri (codes "_HTTP"))
longer uri rpc h = omega (arith, ap length h, length-append uri (codes "_RPC"))

-- A live node in step with its sequence that removes an entry: the entry is gone from the node, and
-- the routes of its key are all kept, those to the node itself too, since they are sought under the
-- bare uri.
pub remove_entry-stale :
    (uri : Text) (t : EntryType) (m : Manager)
    → (m.infos m.self).data_version ≡ m.sequence
    → is_alive (m.infos m.self) ≡ true
    → let m' = remove_entry uri t m in
      (find (get_uri2 uri t) (m'.infos m.self).entry_info ≡ none)
      × (routes (get_uri2 uri t) m' ≡ routes (get_uri2 uri t) m)
unfolding remove_entry get_uri sync_one
remove_entry-stale uri t m step lives =
    let entry : EntryInfo = record { uri = uri; entry_type = t; is_new = false } in
    let others = keep (λ p. not (text_beq (name_of m p) (name_of m m.self))) (routes uri m) in
    let e : remove_entry uri t m ≡ settled entry (set_routes uri others m) =
      modify_self_eq entry (set_routes uri others m) step lives in
    let same : nat_beq m.self m.self ≡ true = ground arith in
    let apart : text_beq uri (get_uri2 uri t) ≡ false =
      ground (arith, text_beq_iff uri (get_uri2 uri t), longer uri t) in
    rw e (
      rw same (find-remove_same (get_uri2 uri t) _),
      routes-set uri (get_uri2 uri t) others m ∙ rw apart,
    )

entry_check_routed :
    (uri : Text) (t : EntryType) (p : ℕ) (m : Manager)
    → elem p (routes (get_uri2 uri t) m) ≡ true
    → entry_check uri t m ≡ success
unfolding entry_check
entry_check_routed uri t p m h = ground arith

-- A live node in step with its sequence that adds an entry which it has not: the entry is found, the
-- node is on the routes of its key, and the node is in step again.
pub add_entry-registered :
    (uri : Text) (t : EntryType) (m : Manager)
    → (m.infos m.self).data_version ≡ m.sequence
    → is_alive (m.infos m.self) ≡ true
    → entry_exist (record { uri = uri; entry_type = t; is_new = true }) (m.infos m.self) ≡ false
    → let m' = add_entry uri t m in
      (find (get_uri2 uri t) (m'.infos m.self).entry_info
        ≡ some (record { uri = uri; entry_type = t; is_new = true }))
      × (elem m.self (routes (get_uri2 uri t) m') ≡ true)
      × (entry_check uri t m' ≡ success)
      × ((m'.infos m.self).data_version ≡ m'.sequence)
unfolding add_entry get_uri sync_one
add_entry-registered uri t m step lives absent =
    let entry : EntryInfo = record { uri = uri; entry_type = t; is_new = true } in
    let added = set_routes (get_uri entry) (routes (get_uri entry) m ++ (m.self ∷ [])) m in
    let e : add_entry uri t m ≡ settled entry added =
      simp (absent, lives) (modify_self_eq entry added step lives) in
    let same : nat_beq m.self m.self ≡ true = ground arith in
    let routed : elem m.self (routes (get_uri2 uri t) added) ≡ true = ground (
      arith,
      elem-add_route m.self m.self (get_uri entry) (get_uri2 uri t) m,
      eq_self (get_uri2 uri t),
    ) in
    rw e (
      rw same (find-put_same (get_uri2 uri t) entry _),
      routed,
      entry_check_routed uri t m.self _ routed,
      rw (same, step),
    )
