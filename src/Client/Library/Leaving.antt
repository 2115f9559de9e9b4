-- ===== src/Client/Library/Leaving.antt =====
-- client/client.go, `unregister`, against `handleAgentRegister` and `handleAgentUnRegister` of the agent.
use nbagent.Base.{
  ◌++◌, ℕ, ◌≡◌, false, ◌&&◌, some, List, [], ◌∷◌, Text, find, text_eq, nat_eq, nat_beq, elem,
  if◌then◌else◌,
}
use nbagent.CliAgent.Client.{AgentEntry}
use nbagent.CliAgent.Handler.{NodeHandler}
use nbagent.CliAgent.State.{ClientManager, clients, register_rsp, success}
use nbagent.CliAgent.Uris.Listed.{has_key}
use nbagent.CliAgent.Manager.{RegisterReq, SzResult, reply_packet}
use nbagent.Client.Library.{Client}

-- The request; `sign` is `makeSign` with the secret key. `handleAgentUnRegister` reads nothing of it.
unfoldable pub un_register_request {ℓ} :
    {H : Type ℓ} → (Text → ℕ → Text) → ℕ → Client H → RegisterReq
un_register_request sign now c = record {
  instance_id = c.instance_id;
  entries = c.entries;
  sign = sign c.instance_id now;
  time_stamp = now;
}

module _ {N : Type 0} (h : NodeHandler N) where
  abbrev IsLeft :
      (Text → ℕ → Text)
      → ℕ
      → Text
      → ℕ
      → ℕ
      → Text
      → List AgentEntry
      → ClientManager N
      → ClientManager N × SzResult
      → ClientManager N × SzResult
      → Type 0
  IsLeft sign conn request_id now q key entries m r left =
      (r.0.outbox
        ≡ m.outbox
          ++ (reply_packet conn request_id (register_rsp success (sign m.name now) now) ∷ []))
      × (left.0.outbox ≡ r.0.outbox)
      × ((p : ℕ) × (find conn r.0.connection_client ≡ some p)
          × (elem q (clients key left.0)
              ≡ (if has_key key entries && nat_beq p q then false else elem q (clients key m))))
