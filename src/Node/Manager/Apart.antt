-- ===== src/Node/Manager/Apart.antt =====
-- What the other nodes cannot touch: the node's own entries, version, status and name, and that no
-- connection and no task for another node belongs to the node itself.
pub mod Peers
pub mod Own
pub mod Peaceful
pub mod Calls
use nbagent.Base.{
  ℕ, suc, ◌<◌, ◌≡◌, ◌≢◌, refl, sym, ◌∙◌, true, false, Bool-cases, inl, inr, Option, some, List, [],
  ◌∷◌, ◌++◌, arith, Text, Dict, find, put, remove, text_eq, nat_beq, nat_eq, nat_beq_iff, update,
  All, if◌then◌else◌, find-put, find-remove,
}
use nbagent.Node.Info.{Info}
use nbagent.Node.Manager.State.{Manager, Task, reconnect, sync_all, set_info, spawn}

-- The tasks that dial or synchronise a node; the others capture no node.
abbrev pub IsForOther : ℕ → Task → Type 0
IsForOther i (reconnect p) = p ≢ i
IsForOther i (sync_all p version) = p ≢ i
IsForOther i _ = Unit

-- What another node can change of the node is not among these.
abbrev pub Same : Info → Info → Type 0
Same k n =
    (k.name ≡ n.name)
    × (k.entry_info ≡ n.entry_info)
    × (k.data_version ≡ n.data_version)
    × (k.status ≡ n.status)

-- `i` is the node itself, with what it was in `n` and `seq`.
pub record KeepsOf (i : ℕ) (n : Info) (seq self sequence : ℕ) (k : Info) (next : ℕ)
    (marks : Dict ℕ ℕ) (names : Dict Text ℕ) (tasks : List Task) : Type 0 where
  pub itself : self ≡ i
  pub count : sequence ≡ seq
  pub same : Same k n
  pub small : i < next
  pub marked : (c p : ℕ) → find c marks ≡ some p → p ≢ i
  pub named : (name : Text) → find name names ≡ some i → name ≡ n.name
  pub tasked : All (IsForOther i) tasks

abbrev pub Keeps : ℕ → Info → ℕ → Manager → Type 0
Keeps i n seq m =
    KeepsOf i n seq m.self m.sequence (m.infos i) m.next m.connection_node m.node_info m.tasks

abbrev pub IsApart : Manager → Type 0
IsApart m = Keeps m.self (m.infos m.self) m.sequence m

Same-trans : (k l n : Info) → Same k l → Same l n → Same k n
Same-trans k l n (a, b, c, d) (a', b', c', d') = (a ∙ a', b ∙ b', c ∙ c', d ∙ d')

pub All-append {ℓ κ} :
    {A : Type ℓ} (P : A → Type κ) (x : A) (xs : List A) → P x → All P xs → All P (xs ++ (x ∷ []))
All-append P x [] p ps = (p, tt)
All-append P x (y ∷ ys) p (q, qs) = (q, All-append P x ys p qs)

module _ (i : ℕ) (n : Info) (seq : ℕ) where
  -- The same node with other tables and tasks.
  tables-Keeps :
      (m m' : Manager)
      → Keeps i n seq m
      → m'.self ≡ m.self
      → m'.sequence ≡ m.sequence
      → Same (m'.infos i) (m.infos i)
      → i < m'.next
      → ((c p : ℕ) → find c m'.connection_node ≡ some p → p ≢ i)
      → ((name : Text) → find name m'.node_info ≡ some i → name ≡ n.name)
      → All (IsForOther i) m'.tasks
      → Keeps i n seq m'
  tables-Keeps m m' h self sequence same small marked named tasked = record {
    itself = self ∙ h.itself;
    count = sequence ∙ h.count;
    same = Same-trans (m'.infos i) (m.infos i) n same h.same;
    small = small;
    marked = marked;
    named = named;
    tasked = tasked;
  }

  abbrev unchanged : (m : Manager) → Same (m.infos i) (m.infos i)
  unchanged m = (refl, refl, refl, refl)

  pub set_other-Keeps :
      (p : ℕ) (k : Info) (m : Manager) → p ≢ i → Keeps i n seq m → Keeps i n seq (set_info p k m)
  set_other-Keeps p k m apart h = let other : nat_beq p i ≡ false = ground arith in rw other h

  pub set_same-Keeps :
      (p : ℕ) (k : Info) (m : Manager)
      → Same k (m.infos p)
      → Keeps i n seq m
      → Keeps i n seq (set_info p k m)
  set_same-Keeps p k m s h = elim (Bool-cases (nat_beq p i)) [
    | inr other ↦ rw other h
    | inl e ↦
        let is : p ≡ i = (nat_beq_iff p i).0 e in
        tables-Keeps m (set_info p k m) h refl refl (rw (e, sym is) s) h.small h.marked h.named
          h.tasked
  ]

  pub spawn-Keeps :
      (t : Task) (m : Manager) → IsForOther i t → Keeps i n seq m → Keeps i n seq (spawn t m)
  spawn-Keeps t m other h =
      tables-Keeps m (spawn t m) h refl refl (unchanged m) h.small h.marked h.named
        (All-append (IsForOther i) t m.tasks other h.tasked)

  pub mark-Keeps :
      (conn p : ℕ) (m : Manager)
      → p ≢ i
      → Keeps i n seq m
      → Keeps i n seq (record m { connection_node = put conn p m.connection_node })
  mark-Keeps conn p m apart h =
      tables-Keeps m (record m { connection_node = put conn p m.connection_node }) h refl refl
        (unchanged m) h.small
        (λ c q e. ground (arith, find-put c conn p m.connection_node, h.marked c q)) h.named
        h.tasked

  pub list-Keeps :
      (name : Text) (p : ℕ) (m : Manager)
      → p ≢ i
      → Keeps i n seq m
      → Keeps i n seq (record m { node_info = put name p m.node_info })
  list-Keeps name p m apart h =
      tables-Keeps m (record m { node_info = put name p m.node_info }) h refl refl (unchanged m)
        h.small h.marked (λ k e. ground (arith, find-put k name p m.node_info, h.named k)) h.tasked

  pub unlist-Keeps :
      (name : Text) (m : Manager)
      → Keeps i n seq m
      → Keeps i n seq (record m { node_info = remove name m.node_info })
  unlist-Keeps name m h =
      tables-Keeps m (record m { node_info = remove name m.node_info }) h refl refl (unchanged m)
        h.small h.marked (λ k e. h.named k (ground (arith, find-remove k name m.node_info)))
        h.tasked

  pub alloc-Keeps :
      (k : Info) (m : Manager)
      → Keeps i n seq m
      → Keeps i n seq (record m { infos = update m.infos m.next k; next = suc m.next })
  alloc-Keeps k m h =
      let fresh : nat_beq m.next i ≡ false = ground (arith, h.small) in
      tables-Keeps m (record m { infos = update m.infos m.next k; next = suc m.next }) h refl refl
        (rw fresh (unchanged m)) (omega (arith, h.small)) h.marked h.named h.tasked
