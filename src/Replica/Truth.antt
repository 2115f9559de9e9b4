-- ===== src/Replica/Truth.antt =====
-- A copy that is alive has the entries that the node had at the version of the copy.
use nbagent.Base.{
  ℕ, suc, ◌+◌, ◌^◌, ◌<◌, ◌≤◌, ◌≡◌, refl, sym, subst, ap, ◌∙◌, Bool, true, List, [], ◌∷◌, arith,
  Text, has, All, text_eq, text_beq, nat_beq, nat_eq, for_each, if◌then◌else◌,
}
use nbagent.Node.Entry.{EntryInfo, get_uri}
use nbagent.Node.Info.{Info, alive, syncing, next_version, sync_one}
use nbagent.Node.Info.Entries.{modified}
use nbagent.Node.Manager.State.{Manager}
use nbagent.Node.Manager.Run.Own.{settled}
use nbagent.Server.Entries.{IsInStep, has_own, settled-IsInStep, has_own-settled}
use nbagent.Replica.Tidy.{IsTidy, sync_one-IsTidy, has-sync_one}
use nbagent.Replica.{Letter, told, answer, Pair, version_of, changed}

-- `past v` tells which entries the node had at the version `v`.
abbrev pub IsTrue : (ℕ → Text → Bool) → ℕ → Letter → Type 0
IsTrue past now (told entries version) =
    (entry : EntryInfo) × (before : ℕ) × (entries ≡ entry ∷ [])
    × (version ≡ suc before)
    × (version ≤ now)
    × ((key : Text)
        → past version key
          ≡ (if text_beq (get_uri entry) key then entry.is_new else past before key))
IsTrue past now (answer entries version) =
    (version ≤ now) × ((key : Text) → has key (for_each sync_one entries []) ≡ past version key)

abbrev pub IsCopy : (ℕ → Text → Bool) → ℕ → Info → Type 0
IsCopy past now n =
    n.status ≡ alive
    → (n.data_version ≤ now) × ((key : Text) → has key n.entry_info ≡ past n.data_version key)

pub record IsTold (p : ℕ) (past : ℕ → Text → Bool) (s : Pair) : Type 0 where
  pub ready : IsInStep s.origin
  pub small : s.origin.sequence < 2 ^ 64
  pub tidy : IsTidy (s.origin.infos s.origin.self).entry_info
  pub now : (key : Text) → has_own key s.origin ≡ past s.origin.sequence key
  pub letters : All (IsTrue past s.origin.sequence) s.mail
  pub copy : IsCopy past s.origin.sequence (s.peer.infos p)

-- The past with one version more.
abbrev pub extend : (ℕ → Text → Bool) → ℕ → (Text → Bool) → ℕ → Text → Bool
extend past version present v = if nat_beq v version then present else past v

extend_old :
    (past : ℕ → Text → Bool) (now : ℕ) (present : Text → Bool) (v : ℕ)
    → v ≤ now
    → extend past (suc now) present v ≡ past v
extend_old past now present v le = ground (arith, le)

extend_new :
    (past : ℕ → Text → Bool) (v : ℕ) (present : Text → Bool) (key : Text)
    → extend past v present v key ≡ present key
extend_new past v present key = ground arith

IsTrue-extend :
    (past : ℕ → Text → Bool) (now : ℕ) (present : Text → Bool) (letter : Letter)
    → IsTrue past now letter
    → IsTrue (extend past (suc now) present) (suc now) letter
IsTrue-extend past now present (told entries version) (entry, before, es, vs, le, t) = (
  entry,
  before,
  es,
  vs,
  omega (arith, le),
  λ key.
      ap (λ f. f key) (extend_old past now present version le)
      ∙ t key
      ∙ ap (λ (f : Text → Bool). if text_beq (get_uri entry) key then entry.is_new else f key)
          (sym (extend_old past now present before (omega (arith, vs, le)))),
)
IsTrue-extend past now present (answer entries version) (le, t) = (
  omega (arith, le),
  λ key. t key ∙ sym (ap (λ f. f key) (extend_old past now present version le)),
)

IsCopy-extend :
    (past : ℕ → Text → Bool) (now : ℕ) (present : Text → Bool) (n : Info)
    → IsCopy past now n
    → IsCopy (extend past (suc now) present) (suc now) n
IsCopy-extend past now present n h lives =
    let (le, t) = h lives in
    (
      omega (arith, le),
      λ key. t key ∙ sym (ap (λ f. f key) (extend_old past now present n.data_version le)),
    )

All-extend :
    (past : ℕ → Text → Bool) (now : ℕ) (present : Text → Bool) (mail : List Letter)
    → All (IsTrue past now) mail
    → All (IsTrue (extend past (suc now) present) (suc now)) mail
All-extend past now present [] h = tt
All-extend past now present (letter ∷ mail) (h, hs) =
    (IsTrue-extend past now present letter h, All-extend past now present mail hs)

-- A change of the node, and the letter that tells it.
pub changed-IsTold :
    (p : ℕ) (past : ℕ → Text → Bool) (entry : EntryInfo) (x : Manager) (s : Pair)
    → x.self ≡ s.origin.self
    → x.infos ≡ s.origin.infos
    → x.sequence ≡ s.origin.sequence
    → s.origin.sequence + 1 < 2 ^ 64
    → IsTold p past s
    → let now = suc s.origin.sequence in
      IsTold p
        (extend past now (λ key. has_own key (settled entry x)))
        (changed entry (settled entry x) s)
changed-IsTold p past entry x s self infos sequence fits h =
    let seq = s.origin.sequence in
    let m = settled entry x in
    let same : nat_beq s.origin.self s.origin.self ≡ true = ground arith in
    let present : Text → Bool = λ key. has_own key m in
    let past' : ℕ → Text → Bool = extend past (suc seq) present in
    let before : IsInStep x = record {
      lives = rw (self, infos) h.ready.lives;
      step = rw (self, infos, sequence) h.ready.step;
    } in
    let after : IsInStep m = settled-IsInStep entry x before in
    let count : m.sequence ≡ suc seq = omega (arith, sequence, fits) in
    let version : version_of m ≡ suc seq = after.step ∙ count in
    let own : (m.infos m.self).entry_info
        ≡ sync_one entry (s.origin.infos s.origin.self).entry_info =
      rw (self, infos) (rw same refl) in
    let had : (key : Text) → has_own key x ≡ has_own key s.origin = λ key. rw (self, infos) refl in
    let news : (key : Text) → past' (suc seq) key ≡ has_own key m =
      λ key. extend_new past (suc seq) present key in
    let letter : IsTrue past' (suc seq) (told (entry ∷ []) (suc seq)) = (
      entry,
      seq,
      refl,
      refl,
      omega arith,
      λ key.
          news key
          ∙ has_own-settled entry key x
          ∙ ap (λ (b : Bool). if text_beq (get_uri entry) key then entry.is_new else b)
              (had key
                ∙ h.now key
                ∙ ap (λ f. f key) (sym (extend_old past seq present seq (omega arith)))),
    ) in
    let all : All (IsTrue past' (suc seq)) (told (entry ∷ []) (suc seq) ∷ s.mail) =
      (letter, All-extend past seq present s.mail h.letters) in
    record {
      ready = after;
      small = omega (arith, count, fits);
      tidy = rw own (sync_one-IsTidy entry (s.origin.infos s.origin.self).entry_info h.tidy);
      now = λ key. rw count (sym (news key));
      letters =
          subst (λ now. All (IsTrue past' now) (told (entry ∷ []) (version_of m) ∷ s.mail))
            (sym count)
            (subst (λ v. All (IsTrue past' (suc seq)) (told (entry ∷ []) v ∷ s.mail)) (sym version)
              all);
      copy =
          subst (λ now. IsCopy past' now (s.peer.infos p)) (sym count)
            (IsCopy-extend past seq present (s.peer.infos p) h.copy);
    }

-- The steps of the peer leave the node and the mail.
pub peer-IsTold :
    (p : ℕ) (past : ℕ → Text → Bool) (m : Manager) (s : Pair)
    → IsCopy past s.origin.sequence (m.infos p)
    → IsTold p past s
    → IsTold p past (record s { peer = m })
peer-IsTold p past m s copy h = record {
  ready = h.ready;
  small = h.small;
  tidy = h.tidy;
  now = h.now;
  letters = h.letters;
  copy = copy;
}

pub out_of_step-IsCopy :
    (past : ℕ → Text → Bool) (now : ℕ) (n : Info) → n.status ≡ syncing → IsCopy past now n
out_of_step-IsCopy past now n e lives = absurd (ground (arith, e, lives))

-- The next notification for a live copy.
pub taken-IsCopy :
    (past : ℕ → Text → Bool) (now version : ℕ) (entries : List EntryInfo) (n : Info)
    → now < 2 ^ 64
    → IsTrue past now (told entries version)
    → version ≡ next_version n.data_version
    → n.status ≡ alive
    → IsCopy past now n
    → IsCopy past now (modified entries n)
taken-IsCopy past now version entries n small (entry, before, es, vs, le', t) next lives h alive' =
    let (le, same) = h alive' in
    let is : n.data_version ≡ before = omega (arith, vs, le, small, next) in
    let new : version ≡ next_version n.data_version = next in
    (
      subst (λ v. v ≤ now) new le',
      λ key.
          ap (λ (l : List EntryInfo). has key (for_each sync_one l n.entry_info)) es
          ∙ has-sync_one key entry n.entry_info
          ∙ ap (λ (b : Bool). if text_beq (get_uri entry) key then entry.is_new else b)
              (same key ∙ ap (λ v. past v key) is)
          ∙ sym (t key)
          ∙ ap (λ v. past v key) new,
    )
