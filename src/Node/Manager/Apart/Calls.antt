-- ===== src/Node/Manager/Apart/Calls.antt =====
-- Calls and responses that go to other nodes leave the node itself alone.
use nbagent.Base.{
  ℕ, zero, suc, ◌%◌, ◌≡◌, ◌≢◌, refl, sym, subst, ap, ◌∙◌, inl, inr, Bool-cases, true, false, not,
  Option, none, some, List, [], ◌∷◌, arith, Text, find, length, get_elem?, elem, elem-keep, eq_self,
  nat_beq, nat_eq, text_eq, text_beq, Option-cases,
}
use nbagent.Caller.{
  Caller, Json, caller_node, push_stack, pop_stack, get_top_stack, gen_node_caller,
}
use nbagent.Node.Entry.{get_uri2}
use nbagent.Node.Info.{Info, entry_exist2}
use nbagent.Node.Manager.State.{
  Manager, RpcCallReq, RpcCallResp, ResultCode, RequestMode, default_mode, local_better,
  local_force, other_mode, name_of, rpc_req, rpc_resp,
}
use nbagent.Node.Manager.Routes.{routes}
use nbagent.Node.Manager.Dispatch.{
  choose, string2_hash_code, get_remote_node_by_uri, forward, forward_to, dispatch_to,
  dispatch_mode, dispatch_req, dispatch_rsp,
}
use nbagent.Node.Manager.Apart.{Keeps}
use nbagent.Node.Manager.Apart.Own.{cast-Keeps}

-- In the default mode the node itself is not among the routes of the call.
abbrev pub IsRemoteCall : RpcCallReq → Manager → Type 0
IsRemoteCall req m =
    req.request_mode ≡ default_mode
    → elem m.self (routes (get_uri2 req.uri req.entry_type) m) ≡ false

-- The caller on top of the response is not the node itself.
abbrev pub IsRemoteRsp : Json → RpcCallResp → Manager → Type 0
IsRemoteRsp json rsp m =
    (top : Text) (c : Caller)
    → get_top_stack rsp.caller ≡ some top
    → json.unmarshal top ≡ some c
    → c.node ≢ name_of m m.self

get_elem?-inside : (xs : List ℕ) (k x : ℕ) → get_elem? xs k ≡ some x → elem x xs ≡ true
get_elem?-inside [] k x e = ground arith
get_elem?-inside (y ∷ xs) zero x e = ground arith
get_elem?-inside (y ∷ xs) (suc k) x e = ground (arith, get_elem?-inside xs k x e)

choose-inside :
    (intn : ℕ → ℕ) (checksum : Text → ℕ) (key : Text) (ps : List ℕ) (q : ℕ)
    → choose intn checksum key ps ≡ some q
    → elem q ps ≡ true
unfolding choose string2_hash_code
choose-inside intn checksum key ps q e = elim (Bool-cases (text_beq key [])) [
  | inl f ↦ get_elem?-inside ps (intn (length ps)) q (rw f at e)
  | inr f ↦ get_elem?-inside ps (checksum key % length ps) q (rw f at e)
]

module _ (i : ℕ) (n : Info) (seq : ℕ) where
  abbrev pub KeepsSome : Option (Manager × ResultCode) → Type 0
  KeepsSome none = Unit
  KeepsSome (some (m, code)) = Keeps i n seq m

  dispatch_to-Keeps :
      (json : Json) (intn : ℕ → ℕ) (checksum : Text → ℕ) (pick : ℕ → ℕ) (request_id : Text)
      (ps : List ℕ) (req : RpcCallReq) (m : Manager)
      → elem i ps ≡ false
      → Keeps i n seq m
      → KeepsSome (dispatch_to json intn checksum pick request_id ps req m)
  unfolding dispatch_to forward_to forward
  dispatch_to-Keeps json intn checksum pick request_id [] req m free h = h
  dispatch_to-Keeps json intn checksum pick request_id (p ∷ ps) req m free h =
      elim (Option-cases (choose intn checksum req.key (p ∷ ps))) [
        | inl e ↦ rw (e, forward_to) tt
        | inr (q, e) ↦
            let inside = choose-inside intn checksum req.key (p ∷ ps) q e in
            let apart : q ≢ i = λ same. cc (inside, free, ap (λ r. elem r (p ∷ ps)) same) in
            let msg = rpc_req (record req {
              caller = push_stack (gen_node_caller json (name_of m m.self)) req.caller;
            }) in
            rw (e, forward_to) (cast-Keeps i n seq (pick q) request_id q msg m apart h)
      ]

  -- The node itself is not among the remote nodes.
  elem-remote : (key : Text) (m : Manager) → elem m.self (get_remote_node_by_uri key m) ≡ false
  unfolding get_remote_node_by_uri
  elem-remote key m = ground (
    arith,
    elem-keep m.self (λ r. not (text_beq (name_of m r) (name_of m m.self))) (routes key m),
    eq_self (name_of m m.self),
  )

  dispatch_mode-Keeps :
      (mode : RequestMode) (json : Json) (intn : ℕ → ℕ) (checksum : Text → ℕ) (pick : ℕ → ℕ)
      (request_id : Text) (req : RpcCallReq) (m : Manager)
      → (mode ≡ default_mode → elem m.self (routes (get_uri2 req.uri req.entry_type) m) ≡ false)
      → Keeps i n seq m
      → KeepsSome (dispatch_mode mode json intn checksum pick request_id req m)
  unfolding dispatch_mode
  dispatch_mode-Keeps local_force json intn checksum pick request_id req m remote h =
      elim (Bool-cases (entry_exist2 req.uri req.entry_type true (m.infos m.self))) [
        | inl e ↦ rw e h
        | inr e ↦ rw e h
      ]
  dispatch_mode-Keeps local_better json intn checksum pick request_id req m remote h =
      let key = get_uri2 req.uri req.entry_type in
      elim (Bool-cases (entry_exist2 req.uri req.entry_type false (m.infos m.self))) [
        | inl e ↦ rw e h
        | inr e ↦ rw e (
            dispatch_to-Keeps json intn checksum pick request_id (get_remote_node_by_uri key m) req
              m
              (subst (λ x. elem x (get_remote_node_by_uri key m) ≡ false) h.itself
                (elem-remote key m))
              h)
      ]
  dispatch_mode-Keeps default_mode json intn checksum pick request_id req m remote h =
      let key = get_uri2 req.uri req.entry_type in
      dispatch_to-Keeps json intn checksum pick request_id (routes key m) req m
        (rw h.itself at remote refl) h
  dispatch_mode-Keeps (other_mode k) json intn checksum pick request_id req m remote h = h

  pub dispatch_req-Keeps :
      (json : Json) (intn : ℕ → ℕ) (checksum : Text → ℕ) (pick : ℕ → ℕ) (request_id : Text)
      (req : RpcCallReq) (m : Manager)
      → IsRemoteCall req m
      → Keeps i n seq m
      → KeepsSome (dispatch_req json intn checksum pick request_id req m)
  unfolding dispatch_req
  dispatch_req-Keeps json intn checksum pick request_id req m remote h =
      dispatch_mode-Keeps req.request_mode json intn checksum pick request_id req m remote h

  pub dispatch_rsp-Keeps :
      (json : Json) (pick : ℕ → ℕ) (request_id : Text) (rsp : RpcCallResp) (m : Manager)
      → IsRemoteRsp json rsp m
      → Keeps i n seq m
      → Keeps i n seq (dispatch_rsp json pick request_id rsp m).0
  unfolding dispatch_rsp
  dispatch_rsp-Keeps json pick request_id rsp m remote h =
      elim (Option-cases (get_top_stack rsp.caller)) [
        | inl e ↦ rw (e, dispatch_rsp) h
        | inr (top, e) ↦ elim (Option-cases (json.unmarshal top)) [
          | inl f ↦ rw (e, dispatch_rsp, f) h
          | inr (c, f) ↦ elim (Bool-cases (nat_beq c.type caller_node)) [
            | inr g ↦ rw (e, dispatch_rsp, f, g) h
            | inl g ↦ elim (Option-cases (find c.node m.node_info)) [
              | inl k ↦ rw (e, dispatch_rsp, f, g, k) h
              | inr (p, k) ↦
                  let own : name_of m m.self ≡ n.name = ap (name_of m) h.itself ∙ h.same.0 in
                  let apart : p ≢ i =
                    λ is. remote top c e f (h.named c.node (k ∙ ap some is) ∙ sym own) in
                  let msg = rpc_resp (record rsp { caller = (pop_stack rsp.caller).1 }) in
                  rw (e, dispatch_rsp, f, g, k)
                    (cast-Keeps i n seq (pick p) request_id p msg m apart h)
            ]
          ]
        ]
      ]
