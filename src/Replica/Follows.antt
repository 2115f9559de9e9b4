-- ===== src/Replica/Follows.antt =====
-- The copy of a node at a peer follows the entries of the node, through every step of the two.
use nbagent.Base.{
  ℕ, ◌^◌, ◌<◌, ◌≡◌, refl, sym, subst, ap, ◌∙◌, inl, inr, Bool, true, false, not, some, List, [],
  ◌∷◌, ◌++◌, arith, Text, find, has, values, All-mem, keep, text_eq, text_beq, nat_eq, for_each,
}
use nbagent.Node.Entry.{EntryInfo, get_uri}
use nbagent.Node.Info.{Info, alive, sync_one, sync_entry, get_all_entry}
use nbagent.Node.Manager.State.{Manager, get_node_by_connection, name_of}
use nbagent.Node.Manager.Routes.{routes, set_routes}
use nbagent.Node.Manager.Handlers.{handle_node_entry_notify, try_sync_all}
use nbagent.Node.Manager.Apart.{Same}
use nbagent.Server.Entries.{IsInStep, has_own, add_entry_eq, remove_entry_eq}
use nbagent.Replica.{
  told, answer, Pair, version_of, entry_of, Step, added, removed, asked, noticed, fetched, compared,
  stirred, aside, buried, Reach, here, later,
}
use nbagent.Replica.Copies.{copy_synced, copy_buried, copy_compared, copy_noticed}
use nbagent.Replica.Truth.{
  IsTold, IsTrue, IsCopy, changed-IsTold, peer-IsTold, out_of_step-IsCopy, taken-IsCopy,
}
use nbagent.Replica.Tidy.{has-fetched}

-- The same for the status, version and entries that a copy has.
Same-IsCopy :
    (past : ℕ → Text → Bool) (now : ℕ) (k n : Info)
    → Same k n
    → IsCopy past now n
    → IsCopy past now k
Same-IsCopy past now k n (name, entries, version, status) h lives =
    rw (entries, version) (h (sym status ∙ lives))

fetched-IsCopy :
    (past : ℕ → Text → Bool) (now : ℕ) (entries : List EntryInfo) (version : ℕ) (n : Info)
    → IsTrue past now (answer entries version)
    → IsCopy past now (sync_entry entries version n)
unfolding sync_entry
fetched-IsCopy past now entries version n h lives = h

noticed-IsCopy :
    (conn p : ℕ) (past : ℕ → Text → Bool) (now : ℕ) (entries : List EntryInfo) (version : ℕ)
    (m : Manager)
    → get_node_by_connection conn m ≡ some p
    → now < 2 ^ 64
    → IsTrue past now (told entries version)
    → IsCopy past now (m.infos p)
    → IsCopy past now ((handle_node_entry_notify conn (some (entries, version)) m).0.infos p)
noticed-IsCopy conn p past now entries version m e small true_letter h =
    let n = (handle_node_entry_notify conn (some (entries, version)) m).0.infos p in
    elim (copy_noticed conn p entries version m e) [
      | inl same ↦ subst (IsCopy past now) (sym same) h
      | inr (inl out) ↦ out_of_step-IsCopy past now n out
      | inr (inr (next, lives, new)) ↦
          subst (IsCopy past now) (sym new)
            (taken-IsCopy past now version entries (m.infos p) small true_letter next lives h)
    ]

compared-IsCopy :
    (p : ℕ) (past : ℕ → Text → Bool) (now version : ℕ) (m : Manager)
    → IsCopy past now (m.infos p)
    → IsCopy past now ((try_sync_all p version m).0.infos p)
compared-IsCopy p past now version m h = elim (copy_compared p version m) [
  | inl same ↦ subst (IsCopy past now) (sym same) h
  | inr out ↦ out_of_step-IsCopy past now ((try_sync_all p version m).0.infos p) out
]

abbrev Told : ℕ → Pair → Type 0
Told p s = (past : ℕ → Text → Bool) × IsTold p past s

Step-Told : {p : ℕ} {s s' : Pair} → Step p s s' → Told p s → Told p s'
unfolding get_all_entry find
Step-Told {p} (added uri t s new fits) (past, h) =
    let entry = entry_of uri t true in
    let x =
      set_routes (get_uri entry) (routes (get_uri entry) s.origin ++ (s.origin.self ∷ []))
        s.origin in
    rw (add_entry_eq uri t s.origin new h.ready)
      (_, changed-IsTold p past entry x s refl refl refl fits h)
Step-Told {p} (removed uri t s fits) (past, h) =
    let m = s.origin in
    let x =
      set_routes uri (keep (λ q. not (text_beq (name_of m q) (name_of m m.self))) (routes uri m))
        m in
    rw (remove_entry_eq uri t m h.ready)
      (_, changed-IsTold p past (entry_of uri t false) x s refl refl refl fits h)
Step-Told {p} (asked s) (past, h) =
    let d = (s.origin.infos s.origin.self).entry_info in
    let version : version_of s.origin ≡ s.origin.sequence = h.ready.step in
    let same : (key : Text)
        → has key (for_each sync_one (values d) []) ≡ past (version_of s.origin) key =
      λ key.
        has-fetched key d [] h.tidy
        ∙ ground arith
        ∙ h.now key
        ∙ ap (λ v. past v key) (sym version) in
    (
      past,
      record {
        ready = h.ready;
        small = h.small;
        tidy = h.tidy;
        now = h.now;
        letters = ((omega (arith, version), same), h.letters);
        copy = h.copy;
      },
    )
Step-Told {p} (noticed conn entries version s e mem) (past, h) = (
  past,
  peer-IsTold p past _ s
      (noticed-IsCopy conn p past s.origin.sequence entries version s.peer e h.small
        (All-mem (IsTrue past s.origin.sequence) s.mail h.letters mem) h.copy)
      h,
)
Step-Told {p} (fetched entries version s mem) (past, h) = (
  past,
  peer-IsTold p past _ s
      (subst (IsCopy past s.origin.sequence) (sym (copy_synced p entries version s.peer)) (
        fetched-IsCopy past s.origin.sequence entries version (s.peer.infos p)
          (All-mem (IsTrue past s.origin.sequence) s.mail h.letters mem)))
      h,
)
Step-Told {p} (compared version s) (past, h) = (
  past,
  peer-IsTold p past _ s (compared-IsCopy p past s.origin.sequence version s.peer h.copy) h,
)
Step-Told {p} (stirred m s self sequence (name, entries, version, status)) (past, h) = (
  past,
  record {
    ready = record {
      lives = rw status h.ready.lives;
      step = version ∙ h.ready.step ∙ sym sequence;
    };
    small = rw sequence h.small;
    tidy = rw entries h.tidy;
    now = λ key. rw (entries, sequence) (h.now key);
    letters = rw sequence h.letters;
    copy = rw sequence h.copy;
  },
)
Step-Told {p} (aside m s same) (past, h) = (
  past,
  peer-IsTold p past m s
      (Same-IsCopy past s.origin.sequence (m.infos p) (s.peer.infos p) same h.copy) h,
)
Step-Told {p} (buried s) (past, h) =
    (past, peer-IsTold p past _ s (λ lives. absurd (ground (arith, copy_buried p s.peer, lives))) h)

Reach-Told : {p : ℕ} {s s' : Pair} → Reach p s s' → Told p s → Told p s'
Reach-Told here h = h
Reach-Told (later r step) h = Step-Told step (Reach-Told r h)

-- A node that is not dead, has no entries, the sequence 0 and its version, and has told nothing yet,
-- and whose peer has a copy of it without entries at the version 0: after any steps of the two, where
-- a change is told before the next one, the node stays the same instance and changes are fewer than
-- versions, with letters late, twice or never, a copy that is alive at the version of the node has
-- exactly the keys that the node has.
pub copy_follows :
    {p : ℕ} {s s' : Pair}
    → IsInStep s.origin
    → s.origin.sequence ≡ 0
    → (s.origin.infos s.origin.self).entry_info ≡ []
    → (s.peer.infos p).entry_info ≡ []
    → (s.peer.infos p).data_version ≡ 0
    → s.mail ≡ []
    → Reach p s s'
    → (s'.peer.infos p).status ≡ alive
    → (s'.peer.infos p).data_version ≡ version_of s'.origin
    → (key : Text) → has key (s'.peer.infos p).entry_info ≡ has_own key s'.origin
unfolding find
copy_follows {p} {s} {s'} ready zero none_own none_copied version none_sent r lives same key =
    let nothing : ℕ → Text → Bool = λ v k. false in
    let start : IsTold p nothing s = record {
      ready = ready;
      small = omega (arith, zero);
      tidy = rw none_own tt;
      now = λ k. rw none_own refl;
      letters = rw none_sent tt;
      copy = λ e. (omega (arith, version), λ k. rw none_copied refl);
    } in
    let (past, h) = Reach-Told r (nothing, start) in
    (h.copy lives).1 key ∙ ap (λ v. past v key) (same ∙ h.ready.step) ∙ sym (h.now key)
