-- ===== src/Node/Manager/Routes/Change.antt =====
-- The loops that change the routes of one node together with its entries.
use nbagent.Base.{
  ℕ, ◌<◌, ◌≤◌, ◌≡◌, ◌≢◌, refl, ap, subst, sym, ◌∙◌, inl, inr, true, false, not, ◌&&◌, ◌||◌, none,
  some, List, [], ◌∷◌, ◌++◌, arith, Text, Dict, find, has, values, All, text_eq, nat_beq, nat_eq,
  text_beq, text_beq_iff, nat_beq_iff, update, keep, elem, elem-keep, elem-append, for_each,
  if◌then◌else◌, find-put, find-remove, find-nil, Bool-cases, Option-cases, eq_self,
}
use nbagent.Node.Entry.{EntryInfo, get_uri}
use nbagent.Node.Info.{Info, sync_entry, get_all_entry, sync_one}
use nbagent.Node.Manager.State.{Manager, set_info, name_of}
use nbagent.Node.Manager.Routes.{routes, set_routes, delete_entry, route_one, add_one, synced}
use nbagent.Node.Manager.Routes.Known.{
  IsRouted, routes-set, elem-delete_entry, infos-delete_entry, next-delete_entry, has_key-values,
}

-- The routes to `p` lead to entries of `d`, which stand under their keys.
pub record Agrees (p : ℕ) (d : Dict Text EntryInfo) (m : Manager) : Type 0 where
  pub known : (key : Text) → elem p (routes key m) ≡ true → has key d ≡ true
  pub keyed : (key : Text) (entry : EntryInfo) → find key d ≡ some entry → get_uri entry ≡ key

-- What a loop body keeps of everything but the routes to `p`.
pub record Frame (p : ℕ) (m m' : Manager) : Type 0 where
  pub other : (q : ℕ) (key : Text) → p ≢ q → elem q (routes key m') ≡ elem q (routes key m)
  pub infos : m'.infos ≡ m.infos
  pub next : m'.next ≡ m.next

Frame-refl : (p : ℕ) (m : Manager) → Frame p m m
Frame-refl p m = record { other = λ q key h. refl; infos = refl; next = refl }

Frame-trans : (p : ℕ) (m m' m'' : Manager) → Frame p m m' → Frame p m' m'' → Frame p m m''
Frame-trans p m m' m'' f g = record {
  other = λ q key h. g.other q key h ∙ f.other q key h;
  infos = g.infos ∙ f.infos;
  next = g.next ∙ f.next;
}

pub elem-add_route :
    (p q : ℕ) (key j : Text) (m : Manager)
    → elem q (routes j (set_routes key (routes key m ++ (p ∷ [])) m))
      ≡ (if text_beq key j then elem q (routes j m) || nat_beq p q else elem q (routes j m))
elem-add_route p q key j m = ground (
  arith,
  routes-set key j (routes key m ++ (p ∷ [])) m,
  elem-append q (routes key m) (p ∷ []),
  text_beq_iff key j,
)

elem-drop_route :
    (p q : ℕ) (key j : Text) (m : Manager)
    → elem q (routes j (set_routes key (keep (λ r. not (nat_beq r p)) (routes key m)) m))
      ≡ (if text_beq key j && nat_beq q p then false else elem q (routes j m))
elem-drop_route p q key j m = ground (
  arith,
  routes-set key j (keep (λ r. not (nat_beq r p)) (routes key m)) m,
  elem-keep q (λ r. not (nat_beq r p)) (routes key m),
  text_beq_iff key j,
)

route_one-Frame : (p : ℕ) (entry : EntryInfo) (m : Manager) → Frame p m (route_one p entry m)
unfolding route_one
route_one-Frame p entry m = record {
  other = λ q key h.
      ground (
        arith,
        elem-add_route p q (get_uri entry) key m,
        elem-drop_route p q (get_uri entry) key m,
      );
  infos = ground arith;
  next = ground arith;
}

sync_one-find :
    (key : Text) (entry : EntryInfo) (d : Dict Text EntryInfo)
    → find key (sync_one entry d) ≡ (
        if text_beq (get_uri entry) key
        then (if entry.is_new then some entry else none)
        else find key d)
unfolding sync_one
sync_one-find key entry d =
    ground (arith, find-put key (get_uri entry) entry d, find-remove key (get_uri entry) d)

route_one-Agrees :
    (p : ℕ) (d : Dict Text EntryInfo) (entry : EntryInfo) (m : Manager)
    → Agrees p d m
    → Agrees p (sync_one entry d) (route_one p entry m)
unfolding route_one
route_one-Agrees p d entry m h = record {
  known = λ key e. ground (
    arith,
    elem-add_route p p (get_uri entry) key m,
    elem-drop_route p p (get_uri entry) key m,
    sync_one-find key entry d,
    h.known key,
  );
  keyed = λ key other e.
      ground
        (arith, sync_one-find key entry d, h.keyed key other, text_beq_iff (get_uri entry) key);
}

pub route_loop :
    (p : ℕ) (entries : List EntryInfo) (d : Dict Text EntryInfo) (m : Manager)
    → Agrees p d m
    → Agrees p (for_each sync_one entries d) (for_each (route_one p) entries m)
      × Frame p m (for_each (route_one p) entries m)
route_loop p [] d m h = (h, Frame-refl p m)
route_loop p (entry ∷ entries) d m h =
    let (agrees, frame) =
      route_loop p entries (sync_one entry d) (route_one p entry m)
        (route_one-Agrees p d entry m h) in
    (agrees, Frame-trans p m (route_one p entry m) _ (route_one-Frame p entry m) frame)

abbrev pub AllNew : List EntryInfo → Type 0
AllNew = All (λ entry. entry.is_new ≡ true)

-- On new entries the loop of `trySyncAll` is that of the notification.
add_loop :
    (p : ℕ) (entries : List EntryInfo) (m : Manager)
    → AllNew entries
    → for_each (add_one p) entries m ≡ for_each (route_one p) entries m
unfolding add_one route_one
add_loop p [] m h = refl
add_loop p (entry ∷ entries) m h =
    simp h.0
      (add_loop p entries (set_routes (get_uri entry) (routes (get_uri entry) m ++ (p ∷ [])) m) h.1)

-- A change of the entries of one node, with the routes to it.
pub IsRouted-at :
    (p : ℕ) (n : Info) (m m' : Manager)
    → IsRouted m
    → ((q : ℕ) (key : Text) → p ≢ q → elem q (routes key m') ≡ true → elem q (routes key m) ≡ true)
    → m'.infos ≡ update m.infos p n
    → m.next ≤ m'.next
    → p < m'.next
    → Agrees p n.entry_info m'
    → IsRouted m'
IsRouted-at p n m m' h fewer infos grows small a = record {
  known = λ key q e. elim (Bool-cases (nat_beq p q)) [
    | inl same ↦ rw (here q same) (
        a.known key (subst (λ r. elem r (routes key m') ≡ true) (sym ((nat_beq_iff p q).0 same)) e))
    | inr apart ↦ rw (there q apart) (h.known key q (fewer q key (ground arith) e))
  ];
  allocated = λ key q e. elim (Bool-cases (nat_beq p q)) [
    | inl same ↦ ground arith
    | inr apart ↦ ground (arith, h.allocated key q (fewer q key (ground arith) e))
  ];
  keyed = λ q key entry e. elim (Bool-cases (nat_beq p q)) [
    | inl same ↦ a.keyed key entry (rw (here q same) at e)
    | inr apart ↦ h.keyed q key entry (rw (there q apart) at e)
  ];
}
  where
    here : (q : ℕ) → nat_beq p q ≡ true → m'.infos q ≡ n
    here q same = ap (λ (f : ℕ → Info). f q) infos ∙ rw same

    there : (q : ℕ) → nat_beq p q ≡ false → m'.infos q ≡ m.infos q
    there q apart = ap (λ (f : ℕ → Info). f q) infos ∙ rw apart

-- The routes of the entries that the node had are taken away.
abbrev clear : ℕ → Info → Manager → Manager
clear p n m = delete_entry p (values (m.infos p).entry_info) (set_info p n m)

clear-fewer :
    (p q : ℕ) (n : Info) (key : Text) (m : Manager)
    → elem q (routes key (clear p n m)) ≡ true
    → elem q (routes key m) ≡ true
clear-fewer p q n key m e =
    ground (arith, elem-delete_entry p q key (values (m.infos p).entry_info) (set_info p n m))

clear-no_route :
    (p : ℕ) (n : Info) (key : Text) (m : Manager)
    → IsRouted m
    → elem p (routes key (clear p n m)) ≡ false
clear-no_route p n key m h = elim (Bool-cases (elem p (routes key m))) [
  | inl routed ↦ elim (Option-cases (find key (m.infos p).entry_info)) [
    | inl e ↦ absurd (ground (arith, h.known key p routed))
    | inr (entry, e) ↦
        elem-delete_entry p p key (values (m.infos p).entry_info) (set_info p n m)
        ∙ rw (has_key-values key (m.infos p).entry_info entry e (h.keyed p key entry e))
            (rw (eq_self (name_of (set_info p n m) p)))
  ]
  | inr free ↦
      ground (arith, elem-delete_entry p p key (values (m.infos p).entry_info) (set_info p n m))
]

clear-Agrees : (p : ℕ) (n : Info) (m : Manager) → IsRouted m → Agrees p [] (clear p n m)
clear-Agrees p n m h = record {
  known = λ key e. cc (clear-no_route p n key m h);
  keyed = λ key entry e. cc (find-nil {V = EntryInfo} key);
}

next-clear : (p : ℕ) (n : Info) (m : Manager) → (clear p n m).next ≡ m.next
next-clear p n m = next-delete_entry p (values (m.infos p).entry_info) (set_info p n m)

-- The table fits after a full synchronisation with a peer that sends new entries only.
pub synced-IsRouted :
    (p : ℕ) (entries : List EntryInfo) (version : ℕ) (m : Manager)
    → AllNew entries
    → p < m.next
    → IsRouted m
    → IsRouted (synced p entries version m)
unfolding synced get_all_entry sync_entry
synced-IsRouted p entries version m new small h =
    let n = sync_entry entries version (m.infos p) in
    let (agrees, frame) = route_loop p entries [] (clear p n m) (clear-Agrees p n m h) in
    rw (add_loop p entries (clear p n m) new) (
      IsRouted-at p n m (for_each (route_one p) entries (clear p n m)) h
        (λ q key apart e. clear-fewer p q n key m (sym (frame.other q key apart) ∙ e))
        (frame.infos ∙ infos-delete_entry p (values (m.infos p).entry_info) (set_info p n m))
        (omega (arith, frame.next, next-clear p n m)) (omega (arith, frame.next, next-clear p n m))
        agrees)
