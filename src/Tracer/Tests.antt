-- ===== src/Tracer/Tests.antt =====
-- Examples for src/tt.cpp.
use jvm.Common.{
  none, some, ℕ, ◌+◌, ◌-◌, ◌%◌, ◌≤◌, ◌<◌, ◌≡◌, ◌⊎◌, refl, [], ◌∷◌, ◌==◌, ltb, leb, ◌&&◌,
  if◌then◌else◌, arith, pos, true, inl, inr, eqb_ℤ,
}
use jvm.Text.{codes}
use jvm.Tracer.Memory.{byte_of, add_addr}
use jvm.Tracer.Dynamic.{Globals, new_globals, ok, get_sym_info}
use jvm.Tracer.Symbols.{LinkMap, sym_at, find_symbol_in_linkmap}
use jvm.Tracer.Symbols.Laws.{IsNamed, find_symbol_in_linkmap-IsNamed}
use jvm.Tracer.LinkMaps.{image_addr, get_linkmap, read_link_map, find_symbol}
use jvm.Tracer.LinkMaps.Laws.{Chain, searched, search_all, find_symbol-search_all}
use jvm.Tracer.Control.{Calls, stopped, killed, continued, wifsignaled, fails}
use jvm.Tracer.Control.Laws.{Some}
use jvm.Tracer.Main.{main}
use jvm.Tracer.Main.Laws.{main-unwritten}
use jvm.Tracer.Push.{set_up_call, Process, ptrace_push}
use jvm.Tracer.Push.Laws.{ptrace_push-bytes}

-- "mm" at address 100.
abbrev bytes : ℕ → ℕ
bytes a = if a == 100 then b'm' else if a == 101 then b'm' else 0

bytes-small : (a : ℕ) → bytes a < 256
bytes-small a = ground arith

-- A library at 200 with its dynamic section at 300, whose table of one symbol stands at 500.
abbrev peek : ℕ → ℕ
peek a =
    if a == 208
    then 300
    else if a == 300
    then 6
    else if a == 304
    then 500
    else if a == 308
    then 19
    else if a == 312
    then 8
    else if a == 316
    then 4
    else if a == 320
    then 396
    else if a == 400
    then 1
    else 0

abbrev library : LinkMap
library = record { l_addr = 0; l_name = 0; l_ld = 300; l_next = 0 }

abbrev globals : Globals
globals = record new_globals { nchains = pos 1; symtab = 500; relsize = 8 }

find_symbol_in_linkmap-IsNamed_example :
    ((find_symbol_in_linkmap peek 9 new_globals library (codes "mm") ≡ ok (0, globals))
      × ((i : ℕ) → i < 1 → ¬ IsNamed peek globals (codes "mm") i))
    ⊎ ((j : ℕ) × (find_symbol_in_linkmap peek 9 new_globals library (codes "mm")
          ≡ ok (add_addr library.l_addr (sym_at peek globals j).st_value, globals))
        × (j < 1)
        × IsNamed peek globals (codes "mm") j
        × ((i : ℕ) → i < j → ¬ IsNamed peek globals (codes "mm") i))
unfolding get_sym_info
find_symbol_in_linkmap-IsNamed_example =
    find_symbol_in_linkmap-IsNamed peek 9 1 new_globals globals library (codes "mm") refl refl

abbrev program : LinkMap
program = record { l_addr = 0; l_name = 0; l_ld = 300; l_next = 200 }

library-Chain : Chain peek program (library ∷ [])
unfolding read_link_map
library-Chain = ((λ e. absurd (omega arith)), refl, refl)

find_symbol-search_all_example :
    find_symbol peek 9 5 new_globals program (codes "mm")
    ≡ search_all peek 9 0 new_globals (searched peek program (library ∷ [])) (codes "mm")
find_symbol-search_all_example =
    find_symbol-search_all peek 9 (codes "mm") 5 new_globals program (library ∷ []) (omega arith)
      library-Chain

abbrev poke : (ℕ → ℕ) → ℕ → ℕ → ℕ → ℕ
poke m a w b = if leb a b && ltb b (a + 4) then byte_of w (b - a) else m b

abbrev process : Process (ℕ → ℕ)
process = record {
  memory = λ a. 0;
  regs = record { esp = 1000; eip = 0; eax = 0; ecx = 0; edx = 0 };
}

ptrace_push-bytes_example :
    let (p', esp) = ptrace_push poke process bytes 102 in
    (p'.regs.esp ≡ esp)
    × (esp % 4 ≡ 0)
    × (esp + 102 ≤ process.regs.esp)
    × (p'.memory 990 ≡ (
        if leb esp 990 && ltb 990 process.regs.esp then bytes (990 - esp) else process.memory 990))
ptrace_push-bytes_example =
    ptrace_push-bytes poke (λ m b. m b) (λ m a w b. refl) process bytes 102 990 bytes-small refl
      (omega arith) (omega arith)

-- A program whose list of libraries holds the library at 200.
abbrev peek_main : ℕ → ℕ
peek_main a =
    if a == image_addr + 28
    then 52
    else if a == image_addr + 52
    then 2
    else if a == image_addr + 60
    then 600
    else if a == 600
    then 3
    else if a == 604
    then 700
    else if a == 704
    then 200
    else peek a

-- The process stops at the return address, and the `stat` of ptrace_call looks like a kill.
abbrev calls : Calls
calls = record {
  attach_ret = pos 0;
  cont_ret = pos 0;
  setregs_ret = pos 0;
  detach_ret = pos 0;
  cont_stat = continued;
  call_stat = killed 9;
  waits = none ∷ some (stopped 11) ∷ [];
}

-- The function runs, with room on the stack, and faults at its return address.
abbrev run_on : Process (ℕ → ℕ) → Process (ℕ → ℕ)
run_on p = record p { regs = record p.regs { esp = p.regs.esp + 4; eip = 0x41414140 } }

abbrev left : Process (ℕ → ℕ)
left = record process { memory = (set_up_call poke process 0).memory }

main-left : main poke run_on peek_main 5 calls process ≡ ok left
unfolding main find_symbol get_linkmap set_up_call find_symbol_in_linkmap get_sym_info
main-left = refl

calls-alive : Some wifsignaled calls.waits → fails calls.detach_ret ≡ true
unfolding wifsignaled
calls-alive (inl h) = absurd (ground arith)
calls-alive (inr h) = absurd h

main-unwritten_example :
    (wifsignaled calls.call_stat ≡ true)
    × ((addr : ℕ) × (left.memory ≡ (run_on (set_up_call poke process addr)).memory)
        × (left.regs ≡ (
            if eqb_ℤ calls.setregs_ret (pos 0)
            then process.regs
            else (run_on (set_up_call poke process addr)).regs)))
main-unwritten_example =
    main-unwritten poke run_on peek_main 5 calls process left calls-alive main-left
