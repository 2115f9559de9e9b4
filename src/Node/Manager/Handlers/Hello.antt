-- ===== src/Node/Manager/Handlers/Hello.antt =====
-- Who is let in, node/manager.go `handleSayHello`.
use nbagent.Base.{
  is_late, ℕ, ◌≡◌, ◌≢◌, refl, inl, inr, true, false, not, ◌||◌, some, none, arith, Text, find,
  find-put_same, find-remove_same, nat_eq, text_eq, text_beq, Option-cases, eq_self,
}
use nbagent.Node.Info.{new_node, add_connection, set_instance_id}
use nbagent.Node.Manager.State.{Manager, SayHelloReq, is_started, get_node_by_connection}
use nbagent.Node.Manager.Handlers.{
  handle_say_hello, hello_accept, hello_new, hello_known, join, sz_success, sign_timeout_seconds,
}

-- A hello that has a `NodeInfo`, and whose sign is wrong, or that is too old in the sums of `int64`, or
-- that reaches a stopped node, is not accepted, and changes nothing but what is sent.
pub refused_hello_changes_nothing :
    (sign : Text → ℕ → Text) (max conn now : ℕ) (req : SayHelloReq) (m : Manager)
    → (not (text_beq req.sign (sign req.node_info.name req.time_stamp))
        || (is_late sign_timeout_seconds req.time_stamp now || not (is_started m.status)))
      ≡ true
    → let (m', result) = handle_say_hello sign max conn now (some (some req)) m in
      (result ≢ sz_success) × (record m' { outbox = m.outbox } ≡ m)
unfolding handle_say_hello get_node_by_connection
refused_hello_changes_nothing sign max conn now req m h = ground arith

abbrev Joined : ℕ → SayHelloReq → Manager → Type 0
Joined conn req m =
    (find conn m.temp_connection ≡ none)
    × ((p : ℕ) × (find req.node_info.name m.node_info ≡ some p)
        × (get_node_by_connection conn m ≡ some p)
        × ((m.infos p).instance_id ≡ req.node_info.instance_id))

hello_accept-Joined :
    (max conn now : ℕ) (req : SayHelloReq) (m : Manager)
    → Joined conn req (hello_accept max conn now req m)
unfolding hello_accept hello_new hello_known join add_connection new_node set_instance_id
    get_node_by_connection
hello_accept-Joined max conn now req m = elim (Option-cases (find req.node_info.name m.node_info)) [
  | inl e ↦
      rw (e, hello_accept)
        (
          find-remove_same conn _,
          (m.next, find-put_same req.node_info.name _ _, find-put_same conn _ _, ground arith),
        )
  | inr (p, e) ↦
      rw (e, hello_accept)
        (find-remove_same conn _, (p, ground arith, find-put_same conn _ _, ground arith))
]

-- A hello that has a `NodeInfo` and its sign, that is not too old in the sums of `int64`, and that
-- reaches a started node, is accepted: the connection belongs to a node of the map under the name of the
-- hello, with the instance id of the hello, and is no longer among those that have not said hello.
pub accepted_hello_joins :
    (sign : Text → ℕ → Text) (max conn now : ℕ) (req : SayHelloReq) (m : Manager)
    → req.sign ≡ sign req.node_info.name req.time_stamp
    → is_late sign_timeout_seconds req.time_stamp now ≡ false
    → is_started m.status ≡ true
    → let (m', result) = handle_say_hello sign max conn now (some (some req)) m in
      (result ≡ sz_success)
      × (find conn m'.temp_connection ≡ none)
      × ((p : ℕ) × (find req.node_info.name m'.node_info ≡ some p)
          × (get_node_by_connection conn m' ≡ some p)
          × ((m'.infos p).instance_id ≡ req.node_info.instance_id))
unfolding handle_say_hello get_node_by_connection
accepted_hello_joins sign max conn now req m signed fresh running =
    let joined = hello_accept-Joined max conn now req m in
    simp (signed, eq_self (sign req.node_info.name req.time_stamp), fresh, running)
      (refl, joined.0, joined.1)
