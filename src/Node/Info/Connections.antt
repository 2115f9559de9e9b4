-- ===== src/Node/Info/Connections.antt =====
-- The connections of a node.
use nbagent.Base.{
  ℕ, ◌+◌, ◌≤◌, ◌≡◌, refl, true, false, not, List, [], ◌∷◌, ◌++◌, arith, nat_beq, nat_eq, ltb,
  length, length-append, length-keep-le, keep, elem, ◌<◌, sym, subst, Bool-cases, inl, inr,
  if◌then◌else◌, ◌||◌,
}
use nbagent.Node.Info.{
  Info, is_alive, has_room, append_connection, add_connection, remove_connection,
}

elem-append :
    (c conn : ℕ) (cs : List ℕ) → elem c (cs ++ (conn ∷ [])) ≡ (elem c cs || nat_beq conn c)
elem-append c conn [] = ground arith
elem-append c conn (d ∷ cs) = ground (arith, elem-append c conn cs)

elem-keep :
    (c conn : ℕ) (cs : List ℕ)
    → elem c (keep (λ d. not (nat_beq d conn)) cs) ≡ (if nat_beq c conn then false else elem c cs)
elem-keep c conn [] = ground arith
elem-keep c conn (d ∷ cs) = ground (arith, elem-keep c conn cs)

-- The list without the first of these.
abbrev drop_one : ℕ → List ℕ → List ℕ
drop_one conn [] = []
drop_one conn (c ∷ cs) = let rest = drop_one conn cs in if nat_beq c conn then cs else c ∷ rest

length-drop_one :
    (conn : ℕ) (cs : List ℕ) → elem conn cs ≡ true → length cs ≡ length (drop_one conn cs) + 1
length-drop_one conn [] h = absurd (ground arith)
length-drop_one conn (c ∷ cs) h = elim (Bool-cases (nat_beq c conn)) [
  | inl e ↦ rw e (omega arith)
  | inr e ↦ rw e (let rest = length-drop_one conn cs (ground (arith, h, e)) in omega (arith, rest))
]

-- What several tasks and the closing of connections make of a node, in any order. The list is that of
-- the connections whose `addConnection` has passed its tests and has not appended yet, at most `k` at
-- once.
pub data Adding (max k : ℕ) (n0 : Info) : Info → List ℕ → Type 0 where
  idle : Adding max k n0 n0 []
  tested :
      {n : Info} {waiting : List ℕ} (conn : ℕ)
      → Adding max k n0 n waiting
      → has_room max n ≡ true
      → length waiting < k
      → Adding max k n0 n (conn ∷ waiting)
  appended :
      {n : Info} {waiting : List ℕ} (conn : ℕ)
      → Adding max k n0 n waiting
      → elem conn waiting ≡ true
      → Adding max k n0 (append_connection conn n) (drop_one conn waiting)
  closed :
      {n : Info} {waiting : List ℕ} (conn : ℕ)
      → Adding max k n0 n waiting
      → Adding max k n0 (remove_connection conn n).0 waiting
  changed :
      {n : Info} {waiting : List ℕ} (n' : Info)
      → Adding max k n0 n waiting
      → n'.connection_list ≡ n.connection_list
      → Adding max k n0 n' waiting

adding_bound :
    {max k : ℕ} {n0 n : Info} {waiting : List ℕ}
    → length n0.connection_list ≤ max + k
    → Adding max k n0 n waiting
    → length n.connection_list + length waiting ≤ max + k
unfolding remove_connection
adding_bound h idle = omega (arith, h)
adding_bound {max} h (tested {n} conn r room few) =
    let under : length n.connection_list ≤ max = ground (arith, room) in omega (arith, under, few)
adding_bound h (appended {n} {waiting} conn r inside) = omega (
  arith,
  adding_bound h r,
  length-append n.connection_list (conn ∷ []),
  length-drop_one conn waiting inside,
)
adding_bound h (closed {n} conn r) =
    omega (arith, adding_bound h r, length-keep-le (λ c. not (nat_beq c conn)) n.connection_list)
adding_bound {max} {k} h (changed {n} {waiting} n' r same) =
    subst (λ cs. length cs + length waiting ≤ max + k) (sym same) (adding_bound h r)

-- Tasks add connections to a node, each by its tests under one lock and by the append under a later
-- one, and connections close, in any order: where at most `k` tasks are between the two at once, a node
-- that holds at most `k` connections more than the limit keeps to that.
pub connections_bounded :
    {max k : ℕ} {n0 n : Info} {waiting : List ℕ}
    → length n0.connection_list ≤ max + k
    → Adding max k n0 n waiting
    → length n.connection_list ≤ max + k
connections_bounded h r = omega (arith, adding_bound h r)

-- A connection is added exactly if it is not closed, and that is if the node is not dead and holds
-- no more connections than the limit. All other connections stay.
pub add_connection_lem :
    (max conn c : ℕ) (n : Info)
    → let (n', is_closed) = add_connection max conn n in
      (is_closed ≡ (if not (is_alive n) then true else ltb max (length n.connection_list)))
      × (elem c n'.connection_list ≡ (
          if is_closed
          then elem c n.connection_list
          else elem c n.connection_list || nat_beq conn c))
unfolding add_connection
add_connection_lem max conn c n = ground (arith, elem-append c conn n.connection_list)

-- A closed connection is gone, as often as it was there, and the others stay; the number returned
-- is that of the connections left.
pub remove_connection_lem :
    (conn c : ℕ) (n : Info)
    → let (n', left) = remove_connection conn n in
      (elem c n'.connection_list ≡ (if nat_beq c conn then false else elem c n.connection_list))
      × (left ≡ length n'.connection_list)
unfolding remove_connection
remove_connection_lem conn c n = (elem-keep c conn n.connection_list, refl)
