-- ===== src/Client/Library/Registers.antt =====
-- client/client.go, `register`, against `handleAgentRegister` of the agent.
use nbagent.Base.{
  ℕ, ◌≡◌, refl, ◌∙◌, inl, inr, some, List, arith, Text, find, remove, find-put_same, text_eq,
  nat_eq, for_each_inv, Option-cases,
}
use nbagent.CliAgent.Client.{AgentEntry, get_uri}
use nbagent.CliAgent.Handler.{NodeHandler}
use nbagent.CliAgent.State.{ClientManager}
use nbagent.CliAgent.Uris.{add_one, add_entry}
use nbagent.CliAgent.Manager.{RegisterReq, register_accept, register, join}
use nbagent.Client.Library.{Client}

-- The request; `sign` is `makeSign` with the secret key.
unfoldable pub register_request {ℓ} : {H : Type ℓ} → (Text → ℕ → Text) → ℕ → Client H → RegisterReq
register_request sign now c = record {
  instance_id = c.instance_id;
  entries = c.entries;
  sign = sign c.instance_id now;
  time_stamp = now;
}

module _ {N : Type 0} (h : NodeHandler N) where
  pub add_entry-connections :
      (entries : List AgentEntry) (p : ℕ) (m : ClientManager N)
      → (add_entry h entries p m).connection_client ≡ m.connection_client
  unfolding add_entry add_one
  add_entry-connections entries p m =
      for_each_inv (λ s. s.connection_client ≡ m.connection_client) (add_one h p)
        (λ entry s same. elim (Option-cases (find (get_uri entry) s.uri2client)) [
          | inl e ↦ rw (e, add_one) same
          | inr (ps, e) ↦ rw (e, add_one) same
        ])
        entries m refl

  add_entry-outbox :
      (entries : List AgentEntry) (p : ℕ) (m : ClientManager N)
      → (add_entry h entries p m).outbox ≡ m.outbox
  unfolding add_entry add_one
  add_entry-outbox entries p m =
      for_each_inv (λ s. s.outbox ≡ m.outbox) (add_one h p)
        (λ entry s same. elim (Option-cases (find (get_uri entry) s.uri2client)) [
          | inl e ↦ rw (e, add_one) same
          | inr (ps, e) ↦ rw (e, add_one) same
        ])
        entries m refl

  pub register_accept-outbox :
      (max conn now : ℕ) (req : RegisterReq) (m : ClientManager N)
      → (register_accept h max conn now req m).outbox ≡ m.outbox
  unfolding register_accept register join
  register_accept-outbox max conn now req m =
      let (p, m') = register h max conn now req m in
      let m1 = record m' { temp_connection = remove conn m'.temp_connection } in
      add_entry-outbox req.entries p m1 ∙ elim (Option-cases (find req.instance_id m.client_info)) [
        | inl e ↦ rw (e, register) (ground arith)
        | inr (q, e) ↦ rw (e, register) (ground arith)
      ]

  pub register-connection :
      (max conn now : ℕ) (req : RegisterReq) (m : ClientManager N)
      → find conn (register h max conn now req m).1.connection_client
        ≡ some (register h max conn now req m).0
  unfolding register join
  register-connection max conn now req m =
      elim (Option-cases (find req.instance_id m.client_info)) [
        | inl e ↦ rw (e, register) (find-put_same conn m.next _)
        | inr (p, e) ↦ rw (e, register) (find-put_same conn p _)
      ]
