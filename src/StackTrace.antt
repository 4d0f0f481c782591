-- ===== src/StackTrace.antt =====
-- src/ts/signal_handler.cc: collecting the stack traces of all threads by signals.
pub mod Form
pub mod Handler
pub mod Order
pub mod Group
pub mod Signals
pub mod Acks
pub mod Collect
pub mod Protocol
pub mod Concurrent
pub mod Pretty
pub mod Server
pub mod Listed
pub mod Tests
