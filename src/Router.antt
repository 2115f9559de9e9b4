-- ===== src/Router.antt =====
-- router/router.go: what becomes of one packet of a connection.
pub mod Dispatch
use nbagent.Base.{
  ℕ, ◌||◌, Bool, true, false, Option, none, some, List, [], ◌∷◌, Text, Dict, find, put, text_eq,
  nat_beq, has, if◌then◌else◌,
}
use nbagent.Wire.{read_u8, read_string, msg_type_request, msg_type_respone, msg_type_cast}
use nbagent.Network.Contexts.{Connection, RequestContext, get_rpc_context, set_request_id}

-- What `Process` does with a packet: it drops it, calls a handler with the rest of the packet and
-- the context, finds no handler, or sends the rest to the channel of a waiting call. A handler is a
-- value of `H`.
pub data Action {ℓ} (H : Type ℓ) : Type ℓ where
  drop : Action H
  handle : H → List ℕ → Option RequestContext → Action H
  not_found : Action H
  answer : ℕ → List ℕ → Action H

-- The result of `Process`, what it did, and the connection and the context after it.
pub record Outcome {ℓ} (H : Type ℓ) : Type ℓ where
  pub ok : Bool
  pub action : Action H
  pub connection : Connection
  pub context : Option RequestContext

module _ {ℓ} {H : Type ℓ} where
  -- `fnRouter2Handler`
  unfoldable pub router2_handler : Dict Text H → Text → List ℕ → Option RequestContext → Action H
  router2_handler router uri rest context = elim (find uri router) [
    | none ↦ not_found
    | some handler ↦ handle handler rest context
  ]

  -- A response: to the waiting call, or to the handler if no call waits under the id.
  unfoldable pub respond : Action H → Connection → Option RequestContext → Text → List ℕ → Outcome H
  unfolding get_rpc_context
  respond handled c context request_id rest =
      let (waiting, c') = get_rpc_context request_id c in
      let taken : Action H = elim waiting [ none ↦ handled | some p ↦ answer p rest ] in
      record { ok = true; action = taken; connection = c'; context = context }

  -- The `switch` on the message type.
  unfoldable pub switch_type :
      Dict Text H → Connection → Option RequestContext → Text → ℕ → Text → List ℕ → Outcome H
  unfolding router2_handler respond
  switch_type router c context uri msg_type request_id rest =
      let handled = router2_handler router uri rest context in
      if nat_beq msg_type msg_type_cast || nat_beq msg_type msg_type_request
      then record { ok = true; action = handled; connection = c; context = context }
      else if nat_beq msg_type msg_type_respone
      then respond handled c context request_id rest
      else record { ok = false; action = drop; connection = c; context = context }

  abbrev dropped : Connection → Option RequestContext → Outcome H
  dropped c context = record { ok = false; action = drop; connection = c; context = context }

  unfoldable pub process : Dict Text H → Connection → Option RequestContext → List ℕ → Outcome H
  unfolding switch_type set_request_id
  process router c none bytes = dropped c none
  process router c (some m) bytes = elim (read_string bytes) [
    | none ↦ dropped c (some m)
    | some (uri, rest) ↦ elim (read_u8 rest) [
      | none ↦ dropped c (some m)
      | some (msg_type, rest') ↦ elim (read_string rest') [
        | none ↦ dropped c (some m)
        | some (request_id, data') ↦
            switch_type router c (set_request_id request_id (some m)) uri msg_type request_id data'
      ]
    ]
  ]

  unfoldable pub register_router : Text → H → Dict Text H → Dict Text H × Bool
  register_router uri handler router =
      if has uri router then (router, false) else (put uri handler router, true)
