-- ===== src/Node/Manager/Dispatch/Choice.antt =====
-- Which node a request goes to, node/manager.go `DispatchReq`.
use native.Mathlib.Nat.{mod-lt}
use nbagent.Base.{
  ℕ, ◌%◌, ◌<◌, ◌≡◌, refl, subst, ◌⊎◌, inl, inr, true, false, not, Option, some, List, [], ◌∷◌,
  arith, Text, has, length, get_elem?-elem, elem, elem-keep, Bool-cases, text_eq, text_beq, nat_eq,
}
use nbagent.Caller.{Json}
use nbagent.Node.Entry.{get_uri2}
use nbagent.Node.Info.{entry_exist2}
use nbagent.Node.Manager.State.{
  Manager, RpcCallReq, ResultCode, success, entry_not_found, default_mode, local_better, name_of,
}
use nbagent.Node.Manager.Routes.{routes}
use nbagent.Node.Manager.Routes.Known.{IsRouted}
use nbagent.Node.Manager.Dispatch.{
  choose, string2_hash_code, get_remote_node_by_uri, forward, forward_to, dispatch_to,
  dispatch_mode, dispatch_req,
}

-- What `rand.Intn` promises.
abbrev pub InRange : (ℕ → ℕ) → Type 0
InRange intn = (n : ℕ) → 0 < n → intn n < n

pub choose-elem :
    (intn : ℕ → ℕ) (checksum : Text → ℕ) (key : Text) (p : ℕ) (ps : List ℕ)
    → InRange intn
    → (q : ℕ) × (choose intn checksum key (p ∷ ps) ≡ some q) × (elem q (p ∷ ps) ≡ true)
unfolding choose string2_hash_code
choose-elem intn checksum key p ps h = elim (Bool-cases (text_beq key [])) [
  | inl e ↦
      rw e (get_elem?-elem (p ∷ ps) (intn (length (p ∷ ps))) (h (length (p ∷ ps)) (omega arith)))
  | inr e ↦ rw e (
      get_elem?-elem (p ∷ ps) (checksum key % length (p ∷ ps))
        (mod-lt (checksum key) (omega arith)))
]

-- What dispatching among `ps` comes to: there is no node and nothing changes, or the request is
-- forwarded to one of them.
abbrev Sent :
    Json → (ℕ → ℕ) → Text → List ℕ → RpcCallReq → Manager → Option (Manager × ResultCode) → Type 0
Sent json pick request_id ps req m outcome =
    ((ps ≡ []) × (outcome ≡ some (m, entry_not_found)))
    ⊎ (p : ℕ) × (elem p ps ≡ true)
      × (outcome ≡ some (forward json (pick p) request_id p req m, success))

module _ (json : Json) (intn : ℕ → ℕ) (checksum : Text → ℕ) (pick : ℕ → ℕ) (request_id : Text)
    (req : RpcCallReq) (m : Manager) (in_range : InRange intn) where
  dispatch_to-Sent :
      (ps : List ℕ)
      → Sent json pick request_id ps req m (dispatch_to json intn checksum pick request_id ps req m)
  unfolding dispatch_to forward_to
  dispatch_to-Sent [] = inl (refl, refl)
  dispatch_to-Sent (p ∷ ps) =
      let (q, chosen, inside) = choose-elem intn checksum req.key p ps in_range in
      inr (q, inside, rw (chosen, forward_to))

  remote-elem :
      (key : Text) (p : ℕ)
      → elem p (get_remote_node_by_uri key m) ≡ true
      → (elem p (routes key m) ≡ true) × (text_beq (name_of m p) (name_of m m.self) ≡ false)
  unfolding get_remote_node_by_uri
  remote-elem key p h =
      let kept =
        elem-keep p (λ q. not (text_beq (name_of m q) (name_of m m.self))) (routes key m) in
      elim (Bool-cases (text_beq (name_of m p) (name_of m m.self))) [
        | inl same ↦ absurd (ground arith)
        | inr other ↦ (ground arith, other)
      ]

  -- A request in the default mode, where `rand.Intn` stays in its range: the code never panics. With
  -- no route for the key of the request nothing changes and the entry is not found. Otherwise the
  -- request is forwarded to one node of the routes of that key.
  pub dispatch_req_default :
      req.request_mode ≡ default_mode
      → ((routes (get_uri2 req.uri req.entry_type) m ≡ [])
          × (dispatch_req json intn checksum pick request_id req m ≡ some (m, entry_not_found)))
        ⊎ (p : ℕ) × (elem p (routes (get_uri2 req.uri req.entry_type) m) ≡ true)
          × (dispatch_req json intn checksum pick request_id req m
              ≡ some (forward json (pick p) request_id p req m, success))
  unfolding dispatch_req dispatch_mode
  dispatch_req_default mode =
      subst (Sent json pick request_id (routes (get_uri2 req.uri req.entry_type) m) req m)
        (simp mode) (dispatch_to-Sent (routes (get_uri2 req.uri req.entry_type) m))

  -- In the default mode, where `rand.Intn` stays in its range, in a state whose routes fit the entries:
  -- the code never panics. With no route for the key of the request nothing changes and the entry is
  -- not found. Otherwise the request is forwarded to one node of the routes of that key, and that node
  -- has an entry of exactly the key.
  pub dispatch_req_serves :
      req.request_mode ≡ default_mode
      → IsRouted m
      → ((routes (get_uri2 req.uri req.entry_type) m ≡ [])
          × (dispatch_req json intn checksum pick request_id req m ≡ some (m, entry_not_found)))
        ⊎ (p : ℕ) × (elem p (routes (get_uri2 req.uri req.entry_type) m) ≡ true)
          × (has (get_uri2 req.uri req.entry_type) (m.infos p).entry_info ≡ true)
          × (dispatch_req json intn checksum pick request_id req m
              ≡ some (forward json (pick p) request_id p req m, success))
  dispatch_req_serves mode h = elim (dispatch_req_default mode) [
    | inl (empty, lost) ↦ inl (empty, lost)
    | inr (p, inside, sent) ↦ inr (p, inside, h.known _ p inside, sent)
  ]

  -- In the mode that prefers the node itself, where `rand.Intn` stays in its range, and the node is
  -- dead or has not the entry: with no other node on the routes of the key nothing changes and the
  -- entry is not found. Otherwise the request is forwarded to a node of the routes that has another
  -- name than the node itself.
  pub dispatch_req_local_better :
      req.request_mode ≡ local_better
      → entry_exist2 req.uri req.entry_type false (m.infos m.self) ≡ false
      → ((get_remote_node_by_uri (get_uri2 req.uri req.entry_type) m ≡ [])
          × (dispatch_req json intn checksum pick request_id req m ≡ some (m, entry_not_found)))
        ⊎ (p : ℕ) × (elem p (routes (get_uri2 req.uri req.entry_type) m) ≡ true)
          × (text_beq (name_of m p) (name_of m m.self) ≡ false)
          × (dispatch_req json intn checksum pick request_id req m
              ≡ some (forward json (pick p) request_id p req m, success))
  unfolding dispatch_req dispatch_mode
  dispatch_req_local_better mode lacks =
      let remote = get_remote_node_by_uri (get_uri2 req.uri req.entry_type) m in
      let sent_on : Sent json pick request_id remote req m
          (dispatch_req json intn checksum pick request_id req m) =
        subst (Sent json pick request_id remote req m) (simp (mode, lacks))
          (dispatch_to-Sent remote) in
      elim sent_on [
        | inl lost ↦ inl lost
        | inr (p, inside, sent) ↦
            let (routed, other) = remote-elem (get_uri2 req.uri req.entry_type) p inside in
            inr (p, routed, other, sent)
      ]
