-- ===== src/Tracer/Main/Laws.antt =====
-- What main of src/tt.cpp does to the process, and when it ends.
use jvm.Common.{ℕ, ◌≡◌, ◌≤◌, inl, inr, true, false, List, length, pos, eqb_ℤ, if◌then◌else◌, arith}
use jvm.Tracer.Dynamic.{Globals, new_globals, ok, ◌>>=◌}
use jvm.Tracer.Symbols.{LinkMap}
use jvm.Tracer.LinkMaps.{get_linkmap, find_symbol}
use jvm.Tracer.LinkMaps.Laws.{Chain, searched, search_all, find_symbol-search_all}
use jvm.Tracer.Dynamic.Laws.{>>=-ok}
use jvm.Tracer.Push.{Process, set_up_call}
use jvm.Tracer.Control.{
  Calls, ptrace_cont, wait_until, wifsignaled, ptrace_call, ptrace_attach, ptrace_detach,
  call_mtrace, fails, ptrace_writereg,
}
use jvm.Tracer.Control.Laws.{Some, ptrace_call-Killed}
use jvm.Tracer.Main.{sym_name, main}

module _ {M : Type 0} (poke : M → ℕ → ℕ → M) (run : Process M → Process M) (peek : ℕ → ℕ) (fuel : ℕ)
    (c : Calls) where
  -- When the list of the libraries can be read, main attaches to the process, calls the address that
  -- the search through the libraries gives, which is 0 where no library has the function, and puts
  -- the registers back.
  main-search_all :
      (p : Process M) (map : LinkMap) (lms : List LinkMap) (a : ℕ) (g : Globals)
      → get_linkmap peek fuel ≡ ok map
      → length lms ≤ fuel
      → Chain peek map lms
      → search_all peek fuel 0 new_globals (searched peek map lms) sym_name ≡ ok (a, g)
      → main poke run peek fuel c p ≡ (
          ptrace_attach poke run c p >>= λ oldregs.
          call_mtrace poke run c p a >>= λ p'. ptrace_detach poke run c oldregs p')
  unfolding main
  main-search_all p map lms a g m r l s =
      ground (arith, find_symbol-search_all peek fuel sym_name fuel new_globals map lms r l)

  main-cases :
      (p q : Process M)
      → main poke run peek fuel c p ≡ ok q
      → (addr : ℕ) × (p' : Process M) × (call_mtrace poke run c p addr ≡ ok p')
        × (fails c.detach_ret ≡ false)
        × (q ≡ ptrace_writereg poke run c p.regs p')
  unfolding main ptrace_attach ptrace_detach
  main-cases p q h =
      let (oldregs, a, h₁) = >>=-ok (ptrace_attach poke run c p) _ h in
      let (map, m, h₂) = >>=-ok (get_linkmap peek fuel) _ h₁ in
      let (found, s, h₃) = >>=-ok (find_symbol peek fuel fuel new_globals map sym_name) _ h₂ in
      let (p', d, h₄) = >>=-ok (call_mtrace poke run c p found.0) _ h₃ in
      (found.0, p', d, ground arith, ground arith)

  -- If a process that has been reported killed by a signal cannot be detached from, then main comes
  -- to its end only when the `stat` of ptrace_call, which was never written, looks like such a report.
  -- The memory of the process is then as the call has left it; the registers are those with which it
  -- was attached if they could be set, and else they are as the call has left them.
  pub main-unwritten :
      (p q : Process M)
      → (Some wifsignaled c.waits → fails c.detach_ret ≡ true)
      → main poke run peek fuel c p ≡ ok q
      → (wifsignaled c.call_stat ≡ true)
        × ((addr : ℕ) × (q.memory ≡ (run (set_up_call poke p addr)).memory)
            × (q.regs ≡ (
                if eqb_ℤ c.setregs_ret (pos 0)
                then p.regs
                else (run (set_up_call poke p addr)).regs)))
  unfolding call_mtrace ptrace_call ptrace_writereg
  main-unwritten p q gone h =
      let (addr, p', d, f, e) = main-cases p q h in
      let (waits, cont, g) = >>=-ok (ptrace_cont c) _ d in
      let (rest, w, last) = >>=-ok (wait_until wifsignaled c.call_stat waits) _ g in
      (
        elim (ptrace_call-Killed poke run c p p' addr d) [
          | inl found ↦ found
          | inr later ↦ absurd (ground (arith, gone later, f))
        ],
        (addr, ground (arith, e, last), ground (arith, e, last)),
      )
