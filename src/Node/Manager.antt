-- ===== src/Node/Manager.antt =====
-- node/manager.go: the node manager. The work is split as the file is: the state and its helpers, the
-- routing table, the handlers of what peers send, the timers, the entries of the node itself, the
-- dispatch of calls, and the start.
pub mod State
pub mod Routes
pub mod Handlers
pub mod Timers
pub mod Local
pub mod Dispatch
pub mod Tasks
pub mod Run
pub mod Apart
pub mod Start
