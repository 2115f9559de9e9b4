-- ===== src/Node/Manager/Apart/Own.antt =====
-- What the node does of its own leaves what it is alone, unless it adds or removes an entry.
use nbagent.Base.{
  ℕ, suc, ◌+◌, ◌%◌, ◌^◌, ◌≡◌, ◌≢◌, refl, ap, sym, ◌∙◌, inl, inr, Bool, true, not, ◌&&◌, Option,
  some, List, [], ◌∷◌, arith, Text, has, map, values, for_each_inv, text_eq, text_beq, text_beq_iff,
  nat_beq, nat_eq, keep, for_each, Bool-cases, if_cases, if◌then◌else◌, update, put, Option-cases,
}
use nbagent.Node.Info.{Info, new_node, set_instance_id, timeout, get_connection}
use nbagent.Node.Manager.State.{
  Manager, Msg, reconnect, Neighbour, NodeInfo, SayHelloRsp, keep_alive, set_info, spawn, close,
  cast, name_of, get_node_by_connection,
}
use nbagent.Node.Manager.Routes.{bury, delete_node}
use nbagent.Node.Manager.Handlers.{join}
use nbagent.Node.Manager.Timers.{
  clean_timeout, timeout_connection, timeout_node, node_timeout, meet, check_neighbour,
  make_friends, cast_others, gossip, all_node_info,
}
use nbagent.Node.Manager.Tasks
use nbagent.Node.Manager.Tasks.{joined, answered, greet, greeting_info, next_request}
use nbagent.Node.Manager.Tasks.Joining.{answered_cases, reconnect_cases}
use nbagent.Node.Manager.Apart.{
  Keeps, set_other-Keeps, set_same-Keeps, spawn-Keeps, list-Keeps, unlist-Keeps, alloc-Keeps,
}
use nbagent.Node.Manager.Apart.Peers.{join-Keeps, bury-Keeps}

-- A loop over what a test keeps: the test holds of each.
for_each_keep {ℓ κ ν} :
    {A : Type ℓ} {S : Type κ} (P : S → Type ν) (test : A → Bool) (f : A → S → S)
    → ((a : A) (s : S) → test a ≡ true → P s → P (f a s))
    → (xs : List A) (s : S) → P s
    → P (for_each f (keep test xs) s)
for_each_keep P test f keeps [] s h = h
for_each_keep P test f keeps (x ∷ xs) s h = elim (Bool-cases (test x)) [
  | inl e ↦ rw e (for_each_keep P test f keeps xs (f x s) (keeps x s e h))
  | inr e ↦ rw e (for_each_keep P test f keeps xs s h)
]

module _ (i : ℕ) (n : Info) (seq : ℕ) where
  delete_node-Keeps :
      (p : ℕ) (m : Manager) → p ≢ i → Keeps i n seq m → Keeps i n seq (delete_node p m)
  unfolding delete_node
  delete_node-Keeps p m apart h =
      unlist-Keeps i n seq (name_of m p) (bury p m) (bury-Keeps i n seq p m apart h)

  pub clean_timeout-Keeps :
      (now : ℕ) (m : Manager) → Keeps i n seq m → Keeps i n seq (clean_timeout now m)
  unfolding clean_timeout timeout_node
  clean_timeout-Keeps now m h =
      let m' = for_each close (timeout_connection now m.temp_connection) m in
      let h' : Keeps i n seq m' =
        for_each_inv (Keeps i n seq) close (λ conn s k. k)
          (timeout_connection now m.temp_connection) m h in
      for_each_keep (Keeps i n seq)
        (λ p. not (nat_beq p m'.self) && timeout now node_timeout (m'.infos p)) delete_node
        (λ p s e k. delete_node-Keeps p s (λ same. ground (arith, e, same, h'.itself)) k)
        (values m'.node_info) m' h'

  meet-Keeps :
      (now : ℕ) (name ip : Text) (instance_id port agent_port : ℕ) (m : Manager)
      → Keeps i n seq m
      → Keeps i n seq (meet now name ip instance_id port agent_port m)
  unfolding meet
  meet-Keeps now name ip instance_id port agent_port m h =
      let apart : m.next ≢ i = λ e. omega (arith, e, h.small) in
      let fresh = new_node name ip instance_id port agent_port now in
      let m0 : Manager = record m { infos = update m.infos m.next fresh; next = suc m.next } in
      let m1 : Manager = record m0 { node_info = put name m.next m.node_info } in
      if_cases (Keeps i n seq) (has name m.node_info) m (spawn (reconnect m.next) m1) (λ e. h)
        (λ e.
          spawn-Keeps i n seq (reconnect m.next) m1 apart
            (list-Keeps i n seq name m.next m0 apart (alloc-Keeps i n seq fresh m h)))

  pub check_neighbour-Keeps :
      (now : ℕ) (m : Manager) → Keeps i n seq m → Keeps i n seq (check_neighbour now m)
  unfolding check_neighbour
  check_neighbour-Keeps now m h =
      for_each_inv (Keeps i n seq) (λ (b : Neighbour). meet now b.name b.ip 0 b.port b.agent_port)
        (λ (b : Neighbour) s k. meet-Keeps now b.name b.ip 0 b.port b.agent_port s k) m.neighbour m
        h

  pub make_friends-Keeps :
      (now : ℕ) (nodes : List NodeInfo) (m : Manager)
      → Keeps i n seq m
      → Keeps i n seq (make_friends now nodes m)
  unfolding make_friends
  make_friends-Keeps now nodes m h =
      for_each_inv (Keeps i n seq)
        (λ (b : NodeInfo).
          meet now b.name b.ip b.instance_id (b.port % 2 ^ 16) (b.agent_port % 2 ^ 16))
        (λ (b : NodeInfo) s k.
          meet-Keeps now b.name b.ip b.instance_id (b.port % 2 ^ 16) (b.agent_port % 2 ^ 16) s k)
        (keep (λ (b : NodeInfo). not (has b.name m.node_info)) nodes) m h

  pub cast-Keeps :
      (pick : ℕ) (request_id : Text) (p : ℕ) (msg : Msg) (m : Manager)
      → p ≢ i
      → Keeps i n seq m
      → Keeps i n seq (cast pick request_id p msg m)
  unfolding cast
  cast-Keeps pick request_id p msg m apart h =
      let k = m.infos p in
      let k' : Info =
        if text_beq request_id [] then record k { sequence = (k.sequence + 1) % 2 ^ 32 } else k in
      let h' : Keeps i n seq (set_info p k' (spawn (reconnect p) m)) =
        set_other-Keeps i n seq p k' (spawn (reconnect p) m) apart
          (spawn-Keeps i n seq (reconnect p) m apart h) in
      elim (Option-cases (get_connection pick k)) [
        | inl e ↦ rw (e, cast) h'
        | inr (conn, e) ↦ rw (e, cast) h'
      ]

  -- A node of another name is another node.
  pub cast_others-Keeps :
      (pick : ℕ → ℕ) (request_id : Text) (msg : Msg) (m : Manager)
      → Keeps i n seq m
      → Keeps i n seq (cast_others pick request_id msg m)
  unfolding cast_others
  cast_others-Keeps pick request_id msg m h =
      for_each_inv (Keeps i n seq) _
        (λ p s k.
          if_cases (Keeps i n seq) (text_beq (name_of s p) (name_of s s.self)) s
            (cast (pick p) request_id p msg s) (λ e. k)
            (λ e.
              cast-Keeps (pick p) request_id p msg s
                (λ same. cc (
                  e,
                  (text_beq_iff (name_of s p) (name_of s s.self)).1
                      (ap (name_of s) (same ∙ sym k.itself)),
                ))
                k))
        (values m.node_info) m h

  next_request-Keeps : (p : ℕ) (m : Manager) → Keeps i n seq m → Keeps i n seq (next_request p m)
  next_request-Keeps p m h =
      set_same-Keeps i n seq p
        (record (m.infos p) { sequence = ((m.infos p).sequence + 1) % 2 ^ 32 }) m
        (refl, refl, refl, refl) h

  joined-Keeps :
      (max conn p : ℕ) (peer : NodeInfo) (m : Manager)
      → p ≢ i
      → Keeps i n seq m
      → Keeps i n seq (joined max conn p peer m)
  unfolding joined
  joined-Keeps max conn p peer m apart h =
      let m' = join max conn p m in
      let k = m'.infos p in
      let h' : Keeps i n seq m' = join-Keeps i n seq max conn p m apart h in
      if_cases (Keeps i n seq) (nat_beq peer.instance_id k.instance_id) m'
        (set_info p (set_instance_id peer.instance_id k) m') (λ e. h')
        (λ e. set_other-Keeps i n seq p (set_instance_id peer.instance_id k) m' apart h')

  pub reconnect-Keeps :
      (sign : Text → ℕ → Text) (max p : ℕ) (dialled : Option ℕ) (rsp : Option SayHelloRsp)
      (m m' : Manager)
      → Tasks.reconnect sign max p dialled rsp m ≡ some m'
      → p ≢ i
      → Keeps i n seq m
      → Keeps i n seq m'
  reconnect-Keeps sign max p dialled rsp m m' e apart h =
      elim (reconnect_cases sign max p dialled rsp m m' e) [
        | inl f ↦ rw f h
        | inr (conn, d, f) ↦
            let m0 = next_request p m in
            let h0 : Keeps i n seq m0 = next_request-Keeps p m h in
            rw f (elim (answered_cases sign max conn p rsp m0) [
              | inl g ↦ rw g h0
              | inr (inl g) ↦ rw g h0
              | inr (inr (peer, v, g)) ↦ rw g (joined-Keeps max conn p peer m0 apart h0)
            ])
      ]

  pub greet-Keeps :
      (pick : ℕ → ℕ) (start : ℕ) (request_id : Text) (conn : ℕ) (m m' : Manager)
      → greet pick start request_id conn m ≡ some m'
      → Keeps i n seq m
      → Keeps i n seq m'
  unfolding greet
  greet-Keeps pick start request_id conn m m' e h =
      elim (Option-cases (gossip start (map greeting_info (all_node_info m)))) [
        | inl f ↦ ground arith
        | inr (nodes, f) ↦ elim (Option-cases (get_node_by_connection conn m)) [
          | inl g ↦ ground arith
          | inr (p, g) ↦
              let msg = keep_alive (m.infos m.self).data_version nodes in
              let same : m' ≡ cast (pick p) request_id p msg m = ground arith in
              rw same (
                cast-Keeps (pick p) request_id p msg m
                  (h.marked conn p (unfold get_node_by_connection in g)) h)
        ]
      ]
