-- ===== src/Replica/Tidy.antt =====
-- The entries that a node has, and what a peer makes of all of them.
use nbagent.Base.{
  ◌≡◌, refl, ◌∙◌, inl, inr, true, ◌||◌, [], ◌∷◌, arith, Text, Dict, find, has, put, remove, values,
  All, text_eq, text_beq, nat_eq, for_each, if◌then◌else◌, find-put, find-remove, Bool-cases,
  if_cases,
}
use nbagent.Node.Entry.{EntryInfo, get_uri}
use nbagent.Node.Info.{sync_one}

-- The entries of the node itself stand under their keys, and are marked as new.
abbrev pub IsTidy : Dict Text EntryInfo → Type 0
IsTidy d = All (λ (r : Text × EntryInfo). (get_uri r.1 ≡ r.0) × (r.1.is_new ≡ true)) d

put-IsTidy :
    (entry : EntryInfo) (d : Dict Text EntryInfo)
    → entry.is_new ≡ true
    → IsTidy d
    → IsTidy (put (get_uri entry) entry d)
unfolding put
put-IsTidy entry [] new h = ((refl, new), tt)
put-IsTidy entry ((k, e) ∷ d) new (h, hs) = elim (Bool-cases (text_beq k (get_uri entry))) [
  | inl same ↦ rw same ((refl, new), hs)
  | inr other ↦ rw other (h, put-IsTidy entry d new hs)
]

remove-IsTidy : (key : Text) (d : Dict Text EntryInfo) → IsTidy d → IsTidy (remove key d)
unfolding remove
remove-IsTidy key [] h = tt
remove-IsTidy key ((k, e) ∷ d) (h, hs) = elim (Bool-cases (text_beq k key)) [
  | inl same ↦ rw same (remove-IsTidy key d hs)
  | inr other ↦ rw other (h, remove-IsTidy key d hs)
]

pub sync_one-IsTidy :
    (entry : EntryInfo) (d : Dict Text EntryInfo) → IsTidy d → IsTidy (sync_one entry d)
unfolding sync_one
sync_one-IsTidy entry d h =
    if_cases IsTidy entry.is_new (put (get_uri entry) entry d) (remove (get_uri entry) d)
      (λ new. put-IsTidy entry d new h) (λ old. remove-IsTidy (get_uri entry) d h)

pub has-sync_one :
    (key : Text) (entry : EntryInfo) (d : Dict Text EntryInfo)
    → has key (sync_one entry d)
      ≡ (if text_beq (get_uri entry) key then entry.is_new else has key d)
unfolding sync_one
has-sync_one key entry d =
    ground (arith, find-put key (get_uri entry) entry d, find-remove key (get_uri entry) d)

-- What a peer makes of all entries of the node are the entries of the node.
pub has-fetched :
    (key : Text) (d d' : Dict Text EntryInfo)
    → IsTidy d
    → has key (for_each sync_one (values d) d') ≡ (has key d || has key d')
unfolding find
has-fetched key [] d' h = refl
has-fetched key ((k, e) ∷ d) d' ((same, new), hs) =
    has-fetched key d (sync_one e d') hs ∙ ground (arith, has-sync_one key e d', same, new)
