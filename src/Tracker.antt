-- ===== src/Tracker.antt =====
-- tracker/server.go: the registry of peers. A request is one step on the tracker's state: each of
-- its maps is changed under its own lock, at one place of the handler.
pub mod RateLimit
pub mod Request
pub mod Origin
pub mod State
pub mod Register
pub mod Sweep
pub mod Serve
pub mod Registry
