-- ===== src/Injector.antt =====
-- src/trace.h: a library is loaded into a running process, by ptrace.
pub mod Run
pub mod Inject
pub mod Elf
pub mod Search
pub mod Tests
