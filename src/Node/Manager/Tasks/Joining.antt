-- ===== src/Node/Manager/Tasks/Joining.antt =====
-- Whom a dialled connection is given to, and what that leaves alone.
use nbagent.Base.{
  ap, ℕ, ◌≡◌, refl, sym, ◌∙◌, ◌⊎◌, ◌||◌, inl, inr, true, not, Option, none, some, arith, Text, map,
  find-put, text_eq, nat_eq, text_beq, nat_beq, text_beq_iff, if◌then◌else◌, Bool-cases,
  Option-cases,
}
use nbagent.Node.Info.{is_alive, connection_available, set_instance_id}
use nbagent.Node.Manager.State.{
  Manager, NodeInfo, SayHelloRsp, keep_alive, close, cast, get_node_by_connection, name_of,
}
use nbagent.Node.Manager.Handlers.{join}
use nbagent.Node.Manager.Routes.Known.{IsRouted, IsRouted-same, set_info-IsRouted}
use nbagent.Node.Manager.Timers.{gossip, all_node_info}
use nbagent.Node.Manager.Tasks.{
  is_success, joined, answered, reconnect, greet, greeting_info, next_request,
}
use nbagent.Node.Manager.Run.Peers.{join-IsRouted}
use nbagent.Node.Manager.Run.Own.{cast-IsRouted}

joined-IsRouted :
    (max conn p : ℕ) (peer : NodeInfo) (m : Manager)
    → IsRouted m
    → IsRouted (joined max conn p peer m)
unfolding joined set_instance_id
joined-IsRouted max conn p peer m h =
    IsRouted-same (join max conn p m) _ (join-IsRouted max conn p m h) (ground arith)
      (λ q. ground arith) (ground arith)

-- The response says success, and it is signed with the name of the node dialled.
abbrev pub Vouched : (Text → ℕ → Text) → Text → Option SayHelloRsp → NodeInfo → Type 0
Vouched sign name rsp peer =
    (r : SayHelloRsp) × (rsp ≡ some r)
    × (is_success r.result ≡ true)
    × (r.node_info ≡ some peer)
    × (r.sign ≡ sign peer.name r.time_stamp)
    × (peer.name ≡ name)

pub answered_cases :
    (sign : Text → ℕ → Text) (max conn p : ℕ) (rsp : Option SayHelloRsp) (m : Manager)
    → (answered sign max conn p rsp m ≡ m)
      ⊎ (answered sign max conn p rsp m ≡ close conn m)
      ⊎ (peer : NodeInfo) × Vouched sign (name_of m p) rsp peer
        × (answered sign max conn p rsp m ≡ joined max conn p peer m)
unfolding answered
answered_cases sign max conn p none m = inl refl
answered_cases sign max conn p (some r) m = elim (Bool-cases (is_success r.result)) [
  | inr e ↦ inr (inl (rw e))
  | inl e ↦ elim (Option-cases r.node_info) [
    | inl f ↦ inr (inl (simp (answered, e, f)))
    | inr (peer, f) ↦ elim (Bool-cases (text_beq (sign peer.name r.time_stamp) r.sign)) [
      | inr g ↦ inr (inl (simp (answered, e, f, g)))
      | inl g ↦ elim (Bool-cases (text_beq peer.name (name_of m p))) [
        | inr k ↦ inr (inl (simp (answered, e, f, g, k)))
        | inl k ↦
            let signed = sym ((text_beq_iff (sign peer.name r.time_stamp) r.sign).0 g) in
            let named = (text_beq_iff peer.name (name_of m p)).0 k in
            inr (inr (peer, (r, refl, e, f, signed, named), simp (answered, e, f, g, k)))
      ]
    ]
  ]
]

answered-IsRouted :
    (sign : Text → ℕ → Text) (max conn p : ℕ) (rsp : Option SayHelloRsp) (m : Manager)
    → IsRouted m
    → IsRouted (answered sign max conn p rsp m)
answered-IsRouted sign max conn p rsp m h = elim (answered_cases sign max conn p rsp m) [
  | inl e ↦ rw e h
  | inr (inl e) ↦ rw e (IsRouted-same m _ h refl (λ q. refl) (omega arith))
  | inr (inr (peer, v, e)) ↦ rw e (joined-IsRouted max conn p peer m h)
]

-- What `reconnect` comes to when it does not panic: nothing, or an answer.
pub reconnect_cases :
    (sign : Text → ℕ → Text) (max p : ℕ) (dialled : Option ℕ) (rsp : Option SayHelloRsp)
    (m m' : Manager)
    → reconnect sign max p dialled rsp m ≡ some m'
    → (m' ≡ m)
      ⊎ (conn : ℕ) × (dialled ≡ some conn) × (m' ≡ answered sign max conn p rsp (next_request p m))
unfolding reconnect
reconnect_cases sign max p none rsp m m' h = inl (ground arith)
reconnect_cases sign max p (some conn) rsp m m' h =
    elim (Bool-cases (not (is_alive (m.infos p)) || connection_available max (m.infos p))) [
      | inl e ↦ inl (ground arith)
      | inr e ↦ inr (conn, refl, ground arith)
    ]

pub reconnect-IsRouted :
    (sign : Text → ℕ → Text) (max p : ℕ) (dialled : Option ℕ) (rsp : Option SayHelloRsp)
    (m m' : Manager)
    → reconnect sign max p dialled rsp m ≡ some m'
    → IsRouted m
    → IsRouted m'
reconnect-IsRouted sign max p dialled rsp m m' e h =
    elim (reconnect_cases sign max p dialled rsp m m' e) [
      | inl f ↦ rw f h
      | inr (conn, d, f) ↦ rw f (
          answered-IsRouted sign max conn p rsp (next_request p m) (set_info-IsRouted p _ m refl h))
    ]

marks-joined :
    (max conn p c : ℕ) (peer : NodeInfo) (m : Manager)
    → get_node_by_connection c (joined max conn p peer m)
      ≡ (if nat_beq conn c then some p else get_node_by_connection c m)
unfolding joined join get_node_by_connection
marks-joined max conn p c peer m = ground (arith, find-put c conn p m.connection_node)

answered_marks :
    (sign : Text → ℕ → Text) (max conn p : ℕ) (rsp : Option SayHelloRsp) (m : Manager) (c q : ℕ)
    → get_node_by_connection c (answered sign max conn p rsp m) ≡ some q
    → (get_node_by_connection c m ≡ some q)
      ⊎ (conn ≡ c) × (q ≡ p) × (peer : NodeInfo) × Vouched sign (name_of m p) rsp peer
unfolding get_node_by_connection
answered_marks sign max conn p rsp m c q marked = elim (answered_cases sign max conn p rsp m) [
  | inl e ↦ inl (rw e at marked)
  | inr (inl e) ↦ inl (rw e at marked)
  | inr (inr (peer, v, e)) ↦
      let now : (if nat_beq conn c then some p else get_node_by_connection c m) ≡ some q =
        sym (marks-joined max conn p c peer m) ∙ rw e at marked in
      elim (Bool-cases (nat_beq conn c)) [
        | inl same ↦ inr (ground arith, ground arith, peer, v)
        | inr apart ↦ inl (rw apart at now)
      ]
]

-- After dialling, without a panic, a connection belongs to the node it belonged to before, or it is
-- the one dialled, belongs to the node dialled, and the peer has answered the hello with success,
-- signed with the very name of that node.
pub reconnect-Vouched :
    (sign : Text → ℕ → Text) (max p : ℕ) (dialled : Option ℕ) (rsp : Option SayHelloRsp)
    (m m' : Manager) (c q : ℕ)
    → reconnect sign max p dialled rsp m ≡ some m'
    → get_node_by_connection c m' ≡ some q
    → (get_node_by_connection c m ≡ some q)
      ⊎ (dialled ≡ some c) × (q ≡ p) × (peer : NodeInfo) × Vouched sign (name_of m p) rsp peer
unfolding get_node_by_connection
reconnect-Vouched sign max p dialled rsp m m' c q e marked =
    elim (reconnect_cases sign max p dialled rsp m m' e) [
      | inl f ↦ inl (cc f)
      | inr (conn, d, f) ↦
          elim (answered_marks sign max conn p rsp (next_request p m) c q (rw f at marked)) [
            | inl before ↦ inl before
            | inr (same, node, peer, v) ↦
                let own : name_of (next_request p m) p ≡ name_of m p = ground arith in
                let dialled_c : dialled ≡ some c = d ∙ ap some same in
                inr (dialled_c, node, peer, rw own at v)
          ]
    ]

pub greet-IsRouted :
    (pick : ℕ → ℕ) (start : ℕ) (request_id : Text) (conn : ℕ) (m m' : Manager)
    → greet pick start request_id conn m ≡ some m'
    → IsRouted m
    → IsRouted m'
unfolding greet
greet-IsRouted pick start request_id conn m m' e h =
    elim (Option-cases (gossip start (map greeting_info (all_node_info m)))) [
      | inl f ↦ ground arith
      | inr (nodes, f) ↦ elim (Option-cases (get_node_by_connection conn m)) [
        | inl g ↦ ground arith
        | inr (p, g) ↦
            let same : m'
                ≡ cast (pick p) request_id p (keep_alive (m.infos m.self).data_version nodes) m =
              ground arith in
            rw same (cast-IsRouted (pick p) request_id p _ m h)
      ]
    ]
