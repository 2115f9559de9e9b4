-- ===== src/Replica/Restart.antt =====
-- What a peer makes of a node that was started again.
use nbagent.Base.{
  ℕ, ◌≡◌, refl, sym, ap, ◌∙◌, true, false, some, List, arith, find, text_eq, nat_eq, nat_beq,
  for_each, find-put_same,
}
use nbagent.Node.Entry.{EntryInfo}
use nbagent.Node.Info.{
  alive, sync_one, next_version, add_connection, set_instance_id, need_sync_all, Info,
}
use nbagent.Node.Info.Entries.{modified}
use nbagent.Node.Manager.State.{Manager, SayHelloReq, get_node_by_connection}
use nbagent.Node.Manager.Handlers.{
  hello_accept, hello_known, join, try_sync_all, handle_node_entry_notify,
}
use nbagent.Replica.Copies.{notified_next}

-- The object after the hello, but for its connections.
hello-restarted :
    (max conn now p : ℕ) (req : SayHelloReq) (m : Manager)
    → find req.node_info.name m.node_info ≡ some p
    → nat_beq (m.infos p).instance_id req.node_info.instance_id ≡ false
    → (m.infos p).status ≡ alive
    → let m' = hello_accept max conn now req m in
      (get_node_by_connection conn m' ≡ some p)
      × ((m'.infos p).status ≡ alive)
      × ((m'.infos p).data_version ≡ 0)
      × ((m'.infos p).entry_info ≡ (m.infos p).entry_info)
unfolding hello_accept hello_known join add_connection set_instance_id get_node_by_connection
hello-restarted max conn now p req m known other lives =
    rw (known, hello_accept) (find-put_same conn _ _, ground arith, ground arith, ground arith)

-- A peer that knows a node, has it alive and sees it return with another instance, with a hello that
-- bears version 0: it does not ask for the entries, and takes the first notification of the new
-- instance on top of the entries of the old one.
pub restart_keeps_entries :
    (max conn now p : ℕ) (entries : List EntryInfo) (req : SayHelloReq) (m : Manager)
    → find req.node_info.name m.node_info ≡ some p
    → nat_beq (m.infos p).instance_id req.node_info.instance_id ≡ false
    → req.data_version ≡ 0
    → (m.infos p).status ≡ alive
    → let (greeted, asks) = try_sync_all p req.data_version (hello_accept max conn now req m) in
      let n = (handle_node_entry_notify conn (some (entries, 1)) greeted).0.infos p in
      (asks ≡ false)
      × (n.status ≡ alive)
      × (n.data_version ≡ 1)
      × (n.entry_info ≡ for_each sync_one entries (m.infos p).entry_info)
unfolding try_sync_all need_sync_all get_node_by_connection
restart_keeps_entries max conn now p entries req m known other zero lives =
    let m' = hello_accept max conn now req m in
    let (marked, lives', version, kept) = hello-restarted max conn now p req m known other lives in
    let greeted = (try_sync_all p req.data_version m').0 in
    let calm : nat_beq (m'.infos p).data_version req.data_version ≡ true =
      ground (arith, version, zero) in
    let same : nat_beq p p ≡ true = ground arith in
    let copy : greeted.infos p ≡ m'.infos p = rw (try_sync_all, calm, same) refl in
    let next : 1 ≡ next_version (greeted.infos p).data_version =
      sym (ap next_version (ap (λ (k : Info). k.data_version) copy ∙ version)) in
    let took =
      ap (λ v. (handle_node_entry_notify conn (some (entries, v)) greeted).0.infos p) next
      ∙ notified_next conn p entries greeted marked (ap (λ (k : Info). k.status) copy ∙ lives') in
    (
      rw calm refl,
      ap (λ (k : Info). k.status) (took ∙ ap (modified entries) copy) ∙ lives',
      ap (λ (k : Info). k.data_version) took ∙ sym next,
      ap (λ (k : Info). k.entry_info) (took ∙ ap (modified entries) copy)
          ∙ ap (λ d. for_each sync_one entries d) kept,
    )
