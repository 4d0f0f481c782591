-- ===== src/Tracer/Main.antt =====
-- src/tt.cpp, main: the function "mtrace" of a process is looked up and called.
pub mod Laws
use jvm.Common.{ℕ, List}
use jvm.Text.{codes}
use jvm.Tracer.Dynamic.{new_globals, Run, ok, ◌>>=◌}
use jvm.Tracer.LinkMaps.{get_linkmap, find_symbol}
use jvm.Tracer.Push.{Process, Regs}
use jvm.Tracer.Control.{Calls, ptrace_attach, call_mtrace, ptrace_detach}

abbrev pub sym_name : List ℕ
sym_name = codes "mtrace"

-- `peek` shows the memory of the process once it has stopped.
module _ {M : Type 0} (poke : M → ℕ → ℕ → M) (run : Process M → Process M) (peek : ℕ → ℕ) (fuel : ℕ)
    (c : Calls) where
  -- The address that is found is not looked at. With `exit(0)` the process is as it is returned.
  unfoldable pub main : Process M → Run (Process M)
  unfolding ptrace_attach call_mtrace ptrace_detach
  main p = do
    oldregs ← ptrace_attach poke run c p
    map ← get_linkmap peek fuel
    found ← find_symbol peek fuel fuel new_globals map sym_name
    p' ← call_mtrace poke run c p found.0
    ptrace_detach poke run c oldregs p'
