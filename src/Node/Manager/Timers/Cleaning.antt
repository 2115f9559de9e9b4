-- ===== src/Node/Manager/Timers/Cleaning.antt =====
-- What the timers take away, node/manager.go `cleanTimeout`.
use nbagent.Base.{
  ℕ, ◌≡◌, refl, subst, ◌∙◌, inl, inr, true, false, not, ◌&&◌, List, [], ◌∷◌, arith, Text, values,
  elem, elem-keep, for_each, for_each_inv, nat_beq, nat_beq_iff, nat_eq, text_eq, Bool-cases,
}
use nbagent.Node.Info.{timeout}
use nbagent.Node.Manager.State.{Manager, close}
use nbagent.Node.Manager.Routes.{routes, bury, delete_node}
use nbagent.Node.Manager.Routes.Known.{
  IsRouted, IsRouted-same, elem-bury, bury-no_route, bury-IsRouted,
}
use nbagent.Node.Manager.Timers.{clean_timeout, timeout_connection, timeout_node, node_timeout}

delete_node-fewer :
    (p q : ℕ) (key : Text) (m : Manager)
    → elem q (routes key m) ≡ false
    → elem q (routes key (delete_node p m)) ≡ false
unfolding delete_node
delete_node-fewer p q key m h = ground (arith, elem-bury p q key m)

delete_node-IsRouted' : (p : ℕ) (m : Manager) → IsRouted m → IsRouted (delete_node p m)
unfolding delete_node
delete_node-IsRouted' p m h =
    IsRouted-same (bury p m) _ (bury-IsRouted p m h) refl (λ q. refl) (omega arith)

-- Once each node of the list is deleted none of them has a route.
delete_nodes :
    (ps : List ℕ) (m : Manager) (q : ℕ) (key : Text)
    → IsRouted m
    → elem q ps ≡ true
    → elem q (routes key (for_each delete_node ps m)) ≡ false
unfolding delete_node
delete_nodes [] m q key h inside = absurd (ground arith)
delete_nodes (p ∷ ps) m q key h inside = elim (Bool-cases (nat_beq p q)) [
  | inl same ↦
      for_each_inv (λ s. elem q (routes key s) ≡ false) delete_node
        (λ p' s. delete_node-fewer p' q key s) ps _
        (subst (λ r. elem r (routes key (delete_node p m)) ≡ false) ((nat_beq_iff p q).0 same)
          (bury-no_route p m key h))
  | inr other ↦ delete_nodes ps (delete_node p m) q key (delete_node-IsRouted' p m h) (ground arith)
]

close_all :
    (conns : List ℕ) (m : Manager)
    → (IsRouted m → IsRouted (for_each close conns m))
      × ((for_each close conns m).infos ≡ m.infos)
      × ((for_each close conns m).node_info ≡ m.node_info)
      × ((for_each close conns m).self ≡ m.self)
close_all [] m = (λ h. h, refl, refl, refl)
close_all (conn ∷ conns) m =
    let (fits, infos, nodes, self) = close_all conns (close conn m) in
    (λ h. fits (IsRouted-same m _ h refl (λ q. refl) (omega arith)), infos, nodes, self)

-- In a state whose routes fit the entries, `cleanTimeout` leaves no route to a node of the map that
-- has been silent too long, unless it is the node itself.
pub clean_timeout-no_route :
    (now : ℕ) (m : Manager) (q : ℕ) (key : Text)
    → IsRouted m
    → elem q (values m.node_info) ≡ true
    → nat_beq q m.self ≡ false
    → timeout now node_timeout (m.infos q) ≡ true
    → elem q (routes key (clean_timeout now m)) ≡ false
unfolding clean_timeout timeout_node
clean_timeout-no_route now m q key h known other silent =
    let m' = for_each close (timeout_connection now m.temp_connection) m in
    let (fits, infos, nodes, self) = close_all (timeout_connection now m.temp_connection) m in
    delete_nodes (timeout_node now m') m' q key (fits h) (
      elem-keep q (λ p. not (nat_beq p m'.self) && timeout now node_timeout (m'.infos p))
        (values m'.node_info)
      ∙ rw (infos, nodes, self, other, silent) known)
