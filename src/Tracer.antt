-- ===== src/Tracer.antt =====
-- src/tt.cpp: a debugger that finds a function in another 32-bit process and calls it there. The
-- `ptrace` calls are arguments: `peek` is what PTRACE_PEEKTEXT returns for an address of the
-- stopped process.
pub mod Memory
pub mod Dynamic
pub mod Symbols
pub mod LinkMaps
pub mod Push
pub mod Control
pub mod Main
pub mod Tests
