-- ===== src/Lib.antt =====
-- Verification library of nbagent: an agent network in which nodes tell each other which entries
-- (uri and type) their clients serve, and route calls to them.
--
-- The parts, from the bytes up. A connection (network/common.go) cuts what it receives into packets;
-- the router (router/router.go) reads a packet and gives it to a waiting call or to the handler of
-- its uri; the node manager (node/manager.go) handles what other nodes send, and the client manager
-- (cli_agent/agent_manager.go) what clients send. The client manager asks the node manager to
-- dispatch calls and tells it of entries; a call collects callers on a stack, along which its
-- response goes back (protocol/caller/caller.go).
--
-- - Base: tests, lists, association lists for Go's maps, bytes for Go's strings.
-- - Wire: protocol/common.go, `ReadString`, `WriteString`, `NewProtocol`.
-- - Network.Stream: `readLoop`. Network.Contexts: the calls that wait on a connection.
--   Network.Writes: `Write` and `Close`. Network.Dialling: network/server.go and network/client.go.
-- - Rpc: rpc/call.go, rpc/cast.go and rpc/reply.go. `Start` of a call is `send_call` up to its
--   `select` and `select_call` from there on; what happens on the connection between the two is a
--   relation.
-- - Router: `Process` and `RegisterRouter`.
-- - Caller: the stack of callers.
-- - Node.Entry, Node.Info: node/node.go. Each method of `*Info` takes the record and returns it;
--   Node.Info.Connections takes the two locks of `addConnection` apart.
-- - Node.Manager: node/manager.go. State is the state; Routes the table `mRpcFunc2Node`; Handlers,
--   Timers, Local and Dispatch the methods; Tasks the tasks that dial a node and greet it; Run the
--   steps of the manager in any order; Apart what those steps leave alone of the node itself; Start
--   the state and the handlers that `NewManager` makes.
-- - CliAgent: cli_agent/. Client is agent.go; Handler the interface to the node, with the laws that
--   the client manager relies on; Uris the table `mUri2Client`; Manager the handlers and timers, with
--   the calls in Manager.Calls, the steps in Manager.Steps, and the clients through the steps in
--   Manager.Serving.
-- - Server: nbserver/server.go, the node manager as the handler of the client manager, and the start.
--   Server.Process.Steps interleaves the steps of both managers, Process.Serving follows the clients
--   through them; Server.Crossing follows a call from
--   one process to another and back.
-- - Replica: a node of node/manager.go and its copy at another node, with the notifications and full
--   synchronisations between them; letters may be late, lost or doubled.
-- - Client: client/, the library of the programs that serve and call. Pool is connect_pool.go, Agents
--   agent_manager.go, Library client.go; Serving.Steps interleaves the operations on the agents, and
--   Library.Run takes the callbacks of the client one after the other.
-- - TaskWorker: taskworker/, over a semaphore that is a parameter with laws.
-- - Sign: `makeSign` of node/common.go, cli_agent/common.go and client/common.go, and numbers in
--   decimal. Config: config/config.go. Reporter: reporter/.
-- - Log.Logger: the rest of log/, the options of the logger, its levels and entries, and the session
--   log. Log.LogFile: log/asyncfile/, the queues in front of a log file, their flushing, and the levels.
-- - Examples: concrete inputs.
--
-- A function has the name of its Go function in snake case; a pointer is a number into a store, and
-- a method is one step under its locks. The times, the random numbers, the limits of the
-- configuration, the results of `proto.Unmarshal`, JSON, the CRC-32 and the signature are arguments.
-- A task started by the node manager is an entry of the list `tasks`, and a packet sent an entry of
-- `outbox`; the client manager's tasks, which only close a connection, run at once. Integers of Go
-- that are compared only are numbers; those that count up are taken modulo their width, and the time
-- stamps that are signed are the 64 bits of an `int64`. `read_loop`
-- runs on fuel, and one round for each byte and one more are enough; so does `new_server`, whose
-- search may not end: more rounds than the tries that fail are enough.
--
-- Not modelled: sockets (what they answer is an argument), the encoders of the logging library, and
-- the generated protobuf code.
pub mod Base
pub mod Caller
pub mod CliAgent
pub mod Client
pub mod Config
pub mod Examples
pub mod Log
pub mod Network
pub mod Node
pub mod Replica
pub mod Reporter
pub mod Router
pub mod Rpc
pub mod Server
pub mod Sign
pub mod TaskWorker
pub mod Wire
