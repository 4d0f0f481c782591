-- ===== src/EarlierAgent.antt =====
-- src/__trace_agent.h: an earlier version of the agent.
pub mod Allocs
pub mod Callbacks
pub mod Monitor
pub mod Register
pub mod Tests
