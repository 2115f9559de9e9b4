-- ===== src/CliAgent/Manager/Steps.antt =====
-- The steps of the client manager in any order, and what the node has after them.
use nbagent.Base.{
  is_late, ℕ, refl, arith, Bool, inl, inr, Option, none, some, Text, find, text_beq, Option-cases,
  Bool-cases, text_eq, nat_eq,
}
use nbagent.CliAgent.Handler.{NodeHandler, Laws}
use nbagent.CliAgent.State.{ClientManager}
use nbagent.CliAgent.Uris.Told.{IsServed}
use nbagent.CliAgent.Manager.{
  RegisterReq, on_new_connection, on_read, on_close_connection_of, clean_timeout,
  handle_agent_register, handle_agent_un_register, handle_keep_alive, get_client_by_connection,
  register_accept,
}
use nbagent.CliAgent.Manager.Joins.{
  IsServed-same, delete_client-IsServed, on_close-IsServed, clean_timeout-IsServed,
  register_accept-IsServed,
}

module _ {N : Type 0} (h : NodeHandler N) where
  -- One step under the locks: a callback, a handler that concerns the clients, or the timer.
  pub data Step : ClientManager N → ClientManager N → Type 0 where
    connected : (conn now : ℕ) (m : ClientManager N) → Step m (on_new_connection h conn now m)
    was_read :
        (conn now : ℕ) (processed : Bool) (m : ClientManager N)
        → Step m (on_read h conn now processed m)
    disconnected : (conn : ℕ) (m : ClientManager N) → Step m (on_close_connection_of h conn m)
    cleaned :
        (connect_limit client_limit now : ℕ) (m : ClientManager N)
        → Step m (clean_timeout h connect_limit client_limit now m)
    registered :
        (sign : Text → ℕ → Text) (limit max conn : ℕ) (request_id : Text) (now : ℕ)
        (req : Option RegisterReq) (m : ClientManager N)
        → Step m (handle_agent_register h sign limit max conn request_id now req m).0
    unregistered :
        (conn : ℕ) (req : Option (Unit {0})) (m : ClientManager N)
        → Step m (handle_agent_un_register h conn req m).0
    kept_alive :
        (conn : ℕ) (request_id : Text) (now : ℕ) (req : Option (Unit {0})) (m : ClientManager N)
        → Step m (handle_keep_alive h conn request_id now req m).0

  pub data Reach (m : ClientManager N) : ClientManager N → Type 0 where
    here : Reach m m
    later : {m' m'' : ClientManager N} → Reach m m' → Step m' m'' → Reach m m''

  module _ (laws : Laws h) where
    read-IsServed :
        (conn now : ℕ) (processed : Bool) (m : ClientManager N)
        → IsServed laws m
        → IsServed laws (on_read h conn now processed m)
    unfolding on_read get_client_by_connection
    read-IsServed conn now processed m s = IsServed-same h laws m _ (ground arith) (ground arith) s

    register-step :
        (sign : Text → ℕ → Text) (limit max conn : ℕ) (request_id : Text) (now : ℕ)
        (req : Option RegisterReq) (m : ClientManager N)
        → IsServed laws m
        → IsServed laws (handle_agent_register h sign limit max conn request_id now req m).0
    unfolding handle_agent_register
    register-step sign limit max conn request_id now none m s = s
    register-step sign limit max conn request_id now (some req) m s =
        elim (Bool-cases (text_beq req.sign (sign req.instance_id req.time_stamp))) [
          | inr e ↦ rw e (IsServed-same h laws m _ refl refl s)
          | inl e ↦ rw e (elim (Bool-cases (is_late limit req.time_stamp now)) [
            | inl f ↦ rw f (IsServed-same h laws m _ refl refl s)
            | inr f ↦ rw f (elim (Bool-cases m.is_started) [
              | inr g ↦ simp g s
              | inl g ↦ simp g (
                  IsServed-same h laws (register_accept h max conn now req m) _ refl refl
                    (register_accept-IsServed h laws max conn now req m s))
            ])
          ])
        ]

    unregister-step :
        (conn : ℕ) (req : Option (Unit {0})) (m : ClientManager N)
        → IsServed laws m
        → IsServed laws (handle_agent_un_register h conn req m).0
    unfolding handle_agent_un_register
    unregister-step conn none m s = s
    unregister-step conn (some req) m s = elim (Option-cases (find conn m.connection_client)) [
      | inl e ↦ rw (e, handle_agent_un_register) (IsServed-same h laws m _ refl refl s)
      | inr (p, e) ↦ rw (e, handle_agent_un_register) (delete_client-IsServed h laws p m s)
    ]

    keep_alive-step :
        (conn : ℕ) (request_id : Text) (now : ℕ) (req : Option (Unit {0})) (m : ClientManager N)
        → IsServed laws m
        → IsServed laws (handle_keep_alive h conn request_id now req m).0
    unfolding handle_keep_alive
    keep_alive-step conn request_id now none m s = s
    keep_alive-step conn request_id now (some req) m s =
        elim (Option-cases (find conn m.connection_client)) [
          | inl e ↦ rw (e, handle_keep_alive) (IsServed-same h laws m _ refl refl s)
          | inr (p, e) ↦
              rw (e, handle_keep_alive) (IsServed-same h laws m _ (ground arith) (ground arith) s)
        ]

    pub Step-IsServed : {m m' : ClientManager N} → Step m m' → IsServed laws m → IsServed laws m'
    unfolding on_new_connection
    Step-IsServed (connected conn now m) s =
        IsServed-same h laws m _ (ground arith) (ground arith) s
    Step-IsServed (was_read conn now processed m) s = read-IsServed conn now processed m s
    Step-IsServed (disconnected conn m) s = on_close-IsServed h laws conn m s
    Step-IsServed (cleaned connect_limit client_limit now m) s =
        clean_timeout-IsServed h laws connect_limit client_limit now m s
    Step-IsServed (registered sign limit max conn request_id now req m) s =
        register-step sign limit max conn request_id now req m s
    Step-IsServed (unregistered conn req m) s = unregister-step conn req m s
    Step-IsServed (kept_alive conn request_id now req m) s =
        keep_alive-step conn request_id now req m s

    -- For a node that keeps the laws, after any steps: if every list in the table of clients was full,
    -- without a client twice, and the node had exactly the keys of the table, all this is so
    -- afterwards.
    pub Reach-IsServed : {m m' : ClientManager N} → IsServed laws m → Reach m m' → IsServed laws m'
    Reach-IsServed s here = s
    Reach-IsServed s (later r t) = Step-IsServed t (Reach-IsServed s r)
