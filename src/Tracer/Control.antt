-- ===== src/Tracer/Control.antt =====
-- src/tt.cpp, ptrace_attach, ptrace_cont, ptrace_call, ptrace_detach and call_mtrace: the process is
-- stopped, made to run a function, and let go. What the system calls return is an argument, and so
-- is what the process does while it runs. While the process is stopped, before it is let run,
-- PTRACE_GETREGS and PTRACE_SETREGS work.
pub mod Laws
use jvm.Common.{
  ℕ, ◌+◌, Bool, true, false, List, [], ◌∷◌, Option, none, some, if◌then◌else◌, ℤ, pos, ltb_ℤ, eqb_ℤ,
}
use jvm.Tracer.Dynamic.{Run, ok, exited, running, ◌>>=◌}
use jvm.Tracer.Push.{Process, Regs, ptrace_push, set_up_call}

-- What `waitpid` stores of the process. A `stat` that is not initialised holds any of these.
pub data Status : Type 0 where
  ended : (code : ℕ) → Status
  killed : (sig : ℕ) → Status
  stopped : (sig : ℕ) → Status
  continued : Status

-- WIFSTOPPED and WIFSIGNALED.
unfoldable pub wifstopped : Status → Bool
wifstopped (ended code) = false
wifstopped (killed sig) = false
wifstopped (stopped sig) = true
wifstopped continued = false

unfoldable pub wifsignaled : Status → Bool
wifsignaled (ended code) = false
wifsignaled (killed sig) = true
wifsignaled (stopped sig) = false
wifsignaled continued = false

-- The return values of the requests, and what the calls of `waitpid` store, one after the other;
-- `none` where the status has not changed.
pub record Calls : Type 0 where
  pub attach_ret : ℤ
  pub cont_ret : ℤ
  -- of the PTRACE_SETREGS and the PTRACE_DETACH of ptrace_detach
  pub setregs_ret : ℤ
  pub detach_ret : ℤ
  -- the two variables `stat`, as they are found
  pub cont_stat : Status
  pub call_stat : Status
  pub waits : List (Option Status)

-- `while(!test(stat)) waitpid(pid, &stat, WNOHANG)`: the rest of the calls, `running` where they do
-- not end the loop.
unfoldable pub wait_until :
    (Status → Bool) → Status → List (Option Status) → Run (List (Option Status))
wait_until test stat [] = if test stat then ok [] else running
wait_until test stat (w ∷ ws) = elim (test stat) [
  | true ↦ ok (w ∷ ws)
  | false ↦ elim w [ none ↦ wait_until test stat ws | some stat' ↦ wait_until test stat' ws ]
]

abbrev pub fails : ℤ → Bool
fails ret = ltb_ℤ ret (pos 0)

-- RTLD_LAZY
abbrev pub rtld_lazy : ℕ
rtld_lazy = 1

unfoldable pub ptrace_cont : Calls → Run (List (Option Status))
unfolding wait_until wifstopped
ptrace_cont c = if fails c.cont_ret then exited else wait_until wifstopped c.cont_stat c.waits

module _ {M : Type 0} (poke : M → ℕ → ℕ → M) (run : Process M → Process M) (c : Calls) where
  -- `oldregs`, once the process has stopped.
  unfoldable pub ptrace_attach : Process M → Run Regs
  ptrace_attach p = if fails c.attach_ret then exited else ok p.regs

  -- The process runs from PTRACE_CONT on.
  unfoldable pub ptrace_call : Process M → ℕ → Run (Process M)
  unfolding set_up_call ptrace_cont wait_until wifsignaled
  ptrace_call p addr = do
    let p' = set_up_call poke p addr
    waits ← ptrace_cont c
    rest ← wait_until wifsignaled c.call_stat waits
    ok (run p')

  -- A failure of ptrace_writereg is only printed, and the registers stay as they are.
  unfoldable pub ptrace_writereg : Regs → Process M → Process M
  ptrace_writereg regs p = if eqb_ℤ c.setregs_ret (pos 0) then record p { regs = regs } else p

  unfoldable pub ptrace_detach : Regs → Process M → Run (Process M)
  unfolding ptrace_writereg
  ptrace_detach oldregs p = if fails c.detach_ret then exited else ok (ptrace_writereg oldregs p)

  unfoldable pub call_mtrace : Process M → ℕ → Run (Process M)
  unfolding ptrace_call
  call_mtrace p addr = ptrace_call p addr

  unfoldable pub call_dl_open : Process M → ℕ → (libname : ℕ → ℕ) → (strlen : ℕ) → Run (Process M)
  unfolding ptrace_push ptrace_call
  call_dl_open p addr libname strlen =
      let (p', name) = ptrace_push poke p libname (strlen + 1) in
      ptrace_call (record p' { regs = record p'.regs { eax = name; ecx = 0; edx = rtld_lazy } })
        addr
