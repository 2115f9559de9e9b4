-- ===== src/Network/Dialling.antt =====
-- network/server.go and network/client.go: a server that looks for a port and accepts connections,
-- and a client that dials one. What the system answers is an argument.
pub mod Ports
use nbagent.Base.{
  ℕ, zero, suc, ◌+◌, ◌%◌, ◌^◌, not, ◌<◌, ◌≤◌, ◌≡◌, refl, Bool, true, false, Option, none, some,
  List, [], ◌∷◌, ◌++◌, arith, Text, codes, if◌then◌else◌, Bool-cases, inl, inr,
}
use nbagent.Network.Contexts.{Connection, new_rpc_context}

-- The handlers of a server are arguments of what runs them.
pub record Server : Type 0 where
  pub ip : Text
  pub port : ℕ

-- `searching` is a search that is still on when the fuel is out.
pub data Opened : Type 0 where
  searching panicked : Opened
  listening : Server → Opened

-- `port_text` writes a number in decimal.
abbrev pub address : (ℕ → Text) → Text → ℕ → Text
address port_text ip port = ip ++ (codes ":" ++ port_text port)

-- A port is a `uint16`.
abbrev pub next_port : ℕ → ℕ
next_port port = suc port % 2 ^ 16

-- `listen` tells for each try, counted from now on, whether `net.Listen` gives the address. At the port
-- 0 it gives any free port; the server keeps the 0, which is all that `GetPort` tells.
unfoldable pub new_server : ℕ → (ℕ → Text) → (ℕ → Text → Bool) → Text → ℕ → Bool → Opened
new_server zero port_text listen ip port start_dynamic = searching
new_server (suc fuel) port_text listen ip port start_dynamic =
    let next = new_server fuel port_text (λ i. listen (suc i)) ip (next_port port) start_dynamic in
    if listen 0 (address port_text ip port)
    then listening (record { ip = ip; port = port })
    else if start_dynamic
    then next
    else panicked

-- The tasks that a server starts, and the handler that it calls at its end.
pub data Task : Type 0 where
  on_start : Server → Task
  on_new_connection read_loop : ℕ → Task
  on_stop : Server → Task

-- The loop of `Start`, from the connections that are accepted before the first error.
unfoldable pub accept_loop : List ℕ → List Task
accept_loop [] = []
accept_loop (c ∷ more) = on_new_connection c ∷ (read_loop c ∷ accept_loop more)

unfoldable pub start : List ℕ → Server → List Task
unfolding accept_loop
start connections server = on_start server ∷ (accept_loop connections ++ (on_stop server ∷ []))

-- A connection that is dialled, with the map of waiting calls, or none where that is `nil`.
pub record Dialled : Type 0 where
  pub ip : Text
  pub port : ℕ
  pub connection : Option Connection

abbrev pub new_connection : Connection
new_connection = record {
  request_context = [];
  rpc_context = λ p. new_rpc_context;
  next = 0;
  double_close = false;
}

-- A function given to `NewClient`: it may change the connection, and tells whether it succeeded.
abbrev pub Setup : Type 0
Setup = Text → ℕ → Dialled → Bool × Dialled

unfoldable pub run_setups : List (Option Setup) → Dialled → Option Dialled
run_setups [] d = some d
run_setups (none ∷ more) d = run_setups more d
run_setups (some setup ∷ more) d =
    let (ok, d') = setup d.ip d.port d in let rest = run_setups more d' in if ok then rest else none

abbrev pub dialled : List (Option Setup) → Dialled → Option Dialled
dialled [] d = some (record d { connection = some new_connection })
dialled (setup ∷ more) d = run_setups (setup ∷ more) d

-- The reading task of the result starts at once. The tests tell whether the address is resolved and
-- whether it answers.
unfoldable pub new_client :
    (ℕ → Text) → (Text → Bool) → (Text → Bool) → List (Option Setup) → Text → ℕ → Option Dialled
unfolding run_setups
new_client port_text resolves dials setups ip port =
    let name = address port_text ip port in
    if not (resolves name)
    then none
    else if not (dials name)
    then none
    else dialled setups (record { ip = ip; port = port; connection = none })
