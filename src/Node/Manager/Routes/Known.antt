-- ===== src/Node/Manager/Routes/Known.antt =====
-- The routing table and the entries of the nodes fit together.
use nbagent.Base.{
  ℕ, ◌<◌, ◌≤◌, ◌≡◌, refl, ◌∙◌, inl, inr, Bool, true, false, not, ◌&&◌, ◌||◌, some, List, [], ◌∷◌,
  arith, Text, Dict, find, has, values, text_eq, nat_eq, text_beq, text_beq_iff, keep, elem,
  elem-keep, if◌then◌else◌, find-put, Bool-cases, Option-cases, eq_self,
}
use nbagent.Node.Entry.{EntryInfo, get_uri}
use nbagent.Node.Info.{dead, Info, mark_dead, get_all_entry}
use nbagent.Node.Manager.State.{Manager, set_info, name_of}
use nbagent.Node.Manager.Routes.{routes, set_routes, delete_one, delete_entry, bury}

pub routes-set :
    (key j : Text) (ps : List ℕ) (m : Manager)
    → routes j (set_routes key ps m) ≡ (if text_beq key j then ps else routes j m)
routes-set key j ps m = ground (arith, find-put j key ps m.rpc_func2node)

-- What one deletion does to the routes; nothing else changes.
elem-delete_one :
    (p q : ℕ) (key : Text) (entry : EntryInfo) (m : Manager)
    → elem q (routes key (delete_one p entry m)) ≡ (
        if text_beq (get_uri entry) key && text_beq (name_of m q) (name_of m p)
        then false
        else elem q (routes key m))
unfolding delete_one
elem-delete_one p q key entry m = ground (
  arith,
  routes-set (get_uri entry) key
      (keep (λ r. not (text_beq (name_of m r) (name_of m p))) (routes (get_uri entry) m)) m,
  elem-keep q (λ r. not (text_beq (name_of m r) (name_of m p))) (routes (get_uri entry) m),
  text_beq_iff (get_uri entry) key,
)

infos-delete_one :
    (p : ℕ) (entry : EntryInfo) (m : Manager) → (delete_one p entry m).infos ≡ m.infos
unfolding delete_one
infos-delete_one p entry m = refl

abbrev pub has_key : Text → List EntryInfo → Bool
has_key key [] = false
has_key key (entry ∷ entries) = text_beq (get_uri entry) key || has_key key entries

-- `deleteEntry` takes every node of that name out of the routes of the entries' keys, and nothing
-- else.
pub elem-delete_entry :
    (p q : ℕ) (key : Text) (entries : List EntryInfo) (m : Manager)
    → elem q (routes key (delete_entry p entries m)) ≡ (
        if has_key key entries && text_beq (name_of m q) (name_of m p)
        then false
        else elem q (routes key m))
unfolding delete_entry
elem-delete_entry p q key [] m = ground arith
elem-delete_entry p q key (entry ∷ entries) m = ground (
  arith,
  elem-delete_entry p q key entries (delete_one p entry m),
  elem-delete_one p q key entry m,
  infos-delete_one p entry m,
)

pub infos-delete_entry :
    (p : ℕ) (entries : List EntryInfo) (m : Manager) → (delete_entry p entries m).infos ≡ m.infos
unfolding delete_entry
infos-delete_entry p [] m = refl
infos-delete_entry p (entry ∷ entries) m =
    infos-delete_entry p entries (delete_one p entry m) ∙ infos-delete_one p entry m

-- Every route leads to a node that exists and has an entry of that key, and the entries of a node
-- stand under their keys.
pub record IsRouted (m : Manager) : Type 0 where
  pub known :
      (key : Text) (p : ℕ) → elem p (routes key m) ≡ true → has key (m.infos p).entry_info ≡ true
  pub allocated : (key : Text) (p : ℕ) → elem p (routes key m) ≡ true → p < m.next
  pub keyed :
      (p : ℕ) (key : Text) (entry : EntryInfo)
      → find key (m.infos p).entry_info ≡ some entry
      → get_uri entry ≡ key

pub has_key-values :
    (key : Text) (d : Dict Text EntryInfo) (entry : EntryInfo)
    → find key d ≡ some entry
    → get_uri entry ≡ key
    → has_key key (values d) ≡ true
unfolding find
has_key-values key [] entry h e = cc
has_key-values key ((k, v) ∷ d) entry h e =
    ground (arith, has_key-values key d entry, text_beq_iff (get_uri entry) key)

abbrev pub set_dead : ℕ → Manager → Manager
set_dead p m = set_info p (record (m.infos p) { status = dead }) m

name_of-set_dead : (p q : ℕ) (m : Manager) → name_of (set_dead p m) q ≡ name_of m q
name_of-set_dead p q m = ground arith

pub entry_info-set_dead :
    (p q : ℕ) (m : Manager) → ((set_dead p m).infos q).entry_info ≡ (m.infos q).entry_info
entry_info-set_dead p q m = ground arith

pub bury-eq :
    (p : ℕ) (m : Manager) → bury p m ≡ delete_entry p (values (m.infos p).entry_info) (set_dead p m)
unfolding bury mark_dead get_all_entry
bury-eq p m = refl

pub elem-bury :
    (p q : ℕ) (key : Text) (m : Manager)
    → elem q (routes key (bury p m)) ≡ (
        if has_key key (values (m.infos p).entry_info) && text_beq (name_of m q) (name_of m p)
        then false
        else elem q (routes key m))
elem-bury p q key m = rw (bury-eq p m) (
    elem-delete_entry p q key (values (m.infos p).entry_info) (set_dead p m)
    ∙ rw (name_of-set_dead p q m, name_of-set_dead p p m))

-- A node that has been buried has no route left.
pub bury-no_route :
    (p : ℕ) (m : Manager) (key : Text) → IsRouted m → elem p (routes key (bury p m)) ≡ false
bury-no_route p m key h = elim (Bool-cases (elem p (routes key m))) [
  | inl routed ↦ elim (Option-cases (find key (m.infos p).entry_info)) [
    | inl e ↦ absurd (ground (arith, h.known key p routed))
    | inr (entry, e) ↦
        rw
          (
            elem-bury p p key m,
            has_key-values key (m.infos p).entry_info entry e (h.keyed p key entry e),
          )
          (rw (eq_self (name_of m p)))
  ]
  | inr free ↦ ground (arith, elem-bury p p key m)
]

infos-bury : (p q : ℕ) (m : Manager) → ((bury p m).infos q).entry_info ≡ (m.infos q).entry_info
infos-bury p q m =
    rw (bury-eq p m, infos-delete_entry p (values (m.infos p).entry_info) (set_dead p m))
      (entry_info-set_dead p q m)

pub next-delete_entry :
    (p : ℕ) (entries : List EntryInfo) (m : Manager) → (delete_entry p entries m).next ≡ m.next
unfolding delete_entry delete_one
next-delete_entry p [] m = refl
next-delete_entry p (entry ∷ entries) m = next-delete_entry p entries (delete_one p entry m)

-- A step that adds no route and changes no entry keeps the table.
pub IsRouted-mono :
    (m m' : Manager)
    → IsRouted m
    → ((q : ℕ) (key : Text) → elem q (routes key m') ≡ true → elem q (routes key m) ≡ true)
    → ((q : ℕ) → (m'.infos q).entry_info ≡ (m.infos q).entry_info)
    → m.next ≤ m'.next
    → IsRouted m'
IsRouted-mono m m' h fewer same grows = record {
  known = λ key q e. rw (same q) (h.known key q (fewer q key e));
  allocated = λ key q e. omega (arith, h.allocated key q (fewer q key e));
  keyed = λ q key entry e. h.keyed q key entry (rw (same q) at e);
}

pub bury-IsRouted : (p : ℕ) (m : Manager) → IsRouted m → IsRouted (bury p m)
bury-IsRouted p m h =
    IsRouted-mono m (bury p m) h (λ q key e. ground (arith, elem-bury p q key m))
      (λ q. infos-bury p q m)
      (rw (bury-eq p m, next-delete_entry p (values (m.infos p).entry_info) (set_dead p m))
        (omega arith))

-- A step that leaves the table and the entries alone keeps it.
pub IsRouted-same :
    (m m' : Manager)
    → IsRouted m
    → m'.rpc_func2node ≡ m.rpc_func2node
    → ((q : ℕ) → (m'.infos q).entry_info ≡ (m.infos q).entry_info)
    → m.next ≤ m'.next
    → IsRouted m'
IsRouted-same m m' h table same grows = IsRouted-mono m m' h (λ q key e. ground arith) same grows

-- `n` takes the place of the node at `p`, with the same entries.
pub set_info-IsRouted :
    (p : ℕ) (n : Info) (m : Manager)
    → n.entry_info ≡ (m.infos p).entry_info
    → IsRouted m
    → IsRouted (set_info p n m)
set_info-IsRouted p n m e h =
    IsRouted-same m (set_info p n m) h refl (λ q. ground arith) (omega arith)
