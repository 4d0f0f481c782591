-- ===== src/Hook.antt =====
-- src/hook.cpp: `malloc` and `free` in place of those of the C library. The library's allocator is
-- an argument: the address that `__libc_malloc` returns.
pub mod Laws
pub mod Tests
use jvm.Common.{ℕ, ◌≡◌, Bool, true, false, List, [], ◌∷◌, ◌==◌, if◌then◌else◌, ite, ℕ_discrete}
use jvm.MemChecker.{Checker, add, del}

-- The thread-local flag `in_mem` of each thread, and the checker that all share.
pub record Hook : Type 0 where
  pub in_mem : ℕ → Bool
  pub checker : Checker

abbrev pub set_in_mem : Hook → ℕ → Bool → Hook
set_in_mem h t b = record h { in_mem = λ u. ite (ℕ_discrete t u) b (h.in_mem u) }

-- A call on thread `t`; `p` is what `__libc_malloc` returns for it. The allocations that
-- `mem_checker::add` makes on the way are the calls `nested`.
pub data Call : Type 0 where
  malloc_call : (t size p : ℕ) → Call
  free_call : (t ptr : ℕ) → Call

unfoldable pub free : Hook → ℕ → ℕ → Hook
free h t ptr = if h.in_mem t then h else record h { checker = del h.checker ptr }

-- `malloc` in a thread that is not in `mem_checker::add`.
trace_malloc : Hook → ℕ → ℕ → Hook
trace_malloc h size p = record h { checker = add h.checker p size }

-- A call that `mem_checker::add` makes itself, with the flag set.
unfoldable pub nested_call : Hook → Call → Hook
unfolding free trace_malloc
nested_call h (malloc_call t size p) = if h.in_mem t then h else trace_malloc h size p
nested_call h (free_call t ptr) = free h t ptr

unfoldable pub nested_calls : Hook → List Call → Hook
unfolding nested_call
nested_calls h [] = h
nested_calls h (c ∷ cs) = nested_calls (nested_call h c) cs

unfoldable pub malloc : Hook → ℕ → ℕ → ℕ → List Call → Hook
unfolding trace_malloc nested_calls
malloc h t size p nested =
    if h.in_mem t
    then h
    else set_in_mem (nested_calls (trace_malloc (set_in_mem h t true) size p) nested) t false

-- A call of the program: `nested` are the calls that the tracer makes during it.
pub data Event : Type 0 where
  malloc_event : (t size p : ℕ) (nested : List Call) → Event
  free_event : (t ptr : ℕ) → Event

unfoldable pub step : Hook → Event → Hook
unfolding malloc free
step h (malloc_event t size p nested) = malloc h t size p nested
step h (free_event t ptr) = free h t ptr

unfoldable pub run : Hook → List Event → Hook
unfolding step
run h [] = h
run h (e ∷ es) = run (step h e) es

abbrev pub init : Hook
init = record { in_mem = λ _. false; checker = record { mem = 0; blocks = [] } }
