-- ===== src/CliAgent/Manager/Serving.antt =====
-- The table of clients, the clients and the node, through the steps of the client manager.
use nbagent.Base.{
  ℕ, refl, inl, inr, Bool, true, false, Option, none, some, arith, Text, find, text_eq, text_beq,
  nat_eq, Option-cases, Bool-cases, is_late,
}
use nbagent.CliAgent.Client.{is_alive, refresh_keep_live_time}
use nbagent.CliAgent.Handler.{NodeHandler}
use nbagent.CliAgent.State.{ClientManager, set_info}
use nbagent.CliAgent.Manager.{
  RegisterReq, on_new_connection, on_read, register_accept, handle_agent_register,
  handle_agent_un_register, handle_keep_alive, get_client_by_connection,
}
use nbagent.CliAgent.Manager.Steps.{
  Step, connected, was_read, disconnected, cleaned, registered, unregistered, kept_alive,
}
use nbagent.CliAgent.Manager.Listing.{
  IsListed, IsListed-same, set_same-IsListed, delete_client-IsListed, on_close-IsListed,
  clean_timeout-IsListed,
}
use nbagent.CliAgent.Manager.Registering.{register_accept-IsListed}

module _ {N : Type 0} (h : NodeHandler N) where
  register-IsListed :
      (sign : Text → ℕ → Text) (limit max conn : ℕ) (request_id : Text) (now : ℕ)
      (req : Option RegisterReq) (m : ClientManager N)
      → IsListed m
      → IsListed (handle_agent_register h sign limit max conn request_id now req m).0
  unfolding handle_agent_register
  register-IsListed sign limit max conn request_id now none m l = l
  register-IsListed sign limit max conn request_id now (some req) m l =
      elim (Bool-cases (text_beq req.sign (sign req.instance_id req.time_stamp))) [
        | inr e ↦ rw e (IsListed-same h m _ refl refl refl (λ q. (refl, refl)) l)
        | inl e ↦ rw e (elim (Bool-cases (is_late limit req.time_stamp now)) [
          | inl f ↦ rw f (IsListed-same h m _ refl refl refl (λ q. (refl, refl)) l)
          | inr f ↦ rw f (elim (Bool-cases m.is_started) [
            | inr g ↦ simp g l
            | inl g ↦ simp g (
                IsListed-same h (register_accept h max conn now req m) _ refl refl refl
                  (λ q. (refl, refl)) (register_accept-IsListed h max conn now req m l))
          ])
        ])
      ]

  unregister-IsListed :
      (conn : ℕ) (req : Option (Unit {0})) (m : ClientManager N)
      → IsListed m
      → IsListed (handle_agent_un_register h conn req m).0
  unfolding handle_agent_un_register
  unregister-IsListed conn none m l = l
  unregister-IsListed conn (some req) m l = elim (Option-cases (find conn m.connection_client)) [
    | inl e ↦
        rw (e, handle_agent_un_register) (IsListed-same h m _ refl refl refl (λ q. (refl, refl)) l)
    | inr (p, e) ↦ rw (e, handle_agent_un_register) (delete_client-IsListed h p m l)
  ]

  refreshed-IsListed :
      (now p : ℕ) (m : ClientManager N)
      → IsListed m
      → IsListed (set_info p (refresh_keep_live_time now (m.infos p)) m)
  unfolding refresh_keep_live_time
  refreshed-IsListed now p m l =
      set_same-IsListed h p (refresh_keep_live_time now (m.infos p)) m (refl, refl) l

  read-IsListed :
      (conn now : ℕ) (processed : Bool) (m : ClientManager N)
      → IsListed m
      → IsListed (on_read h conn now processed m)
  unfolding on_read get_client_by_connection
  read-IsListed conn now false m l = IsListed-same h m _ refl refl refl (λ q. (refl, refl)) l
  read-IsListed conn now true m l = elim (Option-cases (find conn m.connection_client)) [
    | inl e ↦ rw (e, on_read) l
    | inr (p, e) ↦ rw (e, on_read) (refreshed-IsListed now p m l)
  ]

  keep_alive-IsListed :
      (conn : ℕ) (request_id : Text) (now : ℕ) (req : Option (Unit {0})) (m : ClientManager N)
      → IsListed m
      → IsListed (handle_keep_alive h conn request_id now req m).0
  unfolding handle_keep_alive
  keep_alive-IsListed conn request_id now none m l = l
  keep_alive-IsListed conn request_id now (some req) m l =
      elim (Option-cases (find conn m.connection_client)) [
        | inl e ↦
            rw (e, handle_keep_alive) (IsListed-same h m _ refl refl refl (λ q. (refl, refl)) l)
        | inr (p, e) ↦ elim (Bool-cases (is_alive (m.infos p).status)) [
          | inr f ↦ rw (e, handle_keep_alive, f) l
          | inl f ↦
              rw (e, handle_keep_alive, f)
                (IsListed-same h (set_info p (refresh_keep_live_time now (m.infos p)) m) _ refl refl
                  refl (λ q. (refl, refl)) (refreshed-IsListed now p m l))
        ]
      ]

  pub Step-IsListed : {m m' : ClientManager N} → Step h m m' → IsListed m → IsListed m'
  unfolding on_new_connection
  Step-IsListed (connected conn now m) l =
      IsListed-same h m _ (ground arith) (ground arith) (ground arith)
        (λ q. (ground arith, ground arith)) l
  Step-IsListed (was_read conn now processed m) l = read-IsListed conn now processed m l
  Step-IsListed (disconnected conn m) l = on_close-IsListed h conn m l
  Step-IsListed (cleaned connect_limit client_limit now m) l =
      clean_timeout-IsListed h connect_limit client_limit now m l
  Step-IsListed (registered sign limit max conn request_id now req m) l =
      register-IsListed sign limit max conn request_id now req m l
  Step-IsListed (unregistered conn req m) l = unregister-IsListed conn req m l
  Step-IsListed (kept_alive conn request_id now req m) l =
      keep_alive-IsListed conn request_id now req m l
