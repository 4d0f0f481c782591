-- ===== src/Backtrace.antt =====
-- src/trace_backtrace.h, trace_backtrace: the names of the functions on the stack. libunwind and
-- abi::__cxa_demangle are arguments: what they give for each frame.
pub mod Laws
use jvm.Common.{ℕ, Bool, true, false, ◌||◌, List, [], ◌∷◌, ◌++◌, Option, none, some}
use jvm.Text.{codes, strncmp_eq}

-- One `unw_step`: 0, or not, and then what the buffer `symbol` holds behind unw_get_proc_name,
-- whether that call returned 0, and the demangled name.
pub data Unw : Type 0 where
  last : Unw
  frame : (symbol : List ℕ) (named : Bool) (demangled : Option (List ℕ)) → Unw

-- `freed` are the names given back, which __cxa_demangle has allocated.
pub record Trace : Type 0 where
  pub stacks : List (List ℕ)
  pub rr : Bool
  pub freed : List (List ℕ)

-- The loop ends, or goes on when the list of the steps is at its end. What it returns is not set.
pub data Outcome : Type 0 where
  ended running : Trace → Outcome

-- `name`: the demangled name where there is one.
unfoldable pub name_of : List ℕ → Bool → Option (List ℕ) → List ℕ
name_of symbol false d = symbol
name_of symbol true none = symbol
name_of symbol true (some name) = name

-- `if(name != symbol) free(name)`.
unfoldable pub free_name : Bool → Option (List ℕ) → List (List ℕ) → List (List ℕ)
free_name false d freed = freed
free_name true none freed = freed
free_name true (some name) freed = freed ++ name ∷ []

unfoldable pub of_malloc : List ℕ → Bool
unfolding strncmp_eq
of_malloc name = strncmp_eq 10 name (codes "os::malloc")

unfoldable pub trace_backtrace : Trace → List Unw → Outcome
unfolding name_of free_name of_malloc
trace_backtrace t [] = running t
trace_backtrace t (last ∷ steps) = ended t
trace_backtrace t (frame symbol named demangled ∷ steps) =
    let name = name_of symbol named demangled in
    trace_backtrace
      (record {
        stacks = t.stacks ++ name ∷ [];
        rr = of_malloc name || t.rr;
        freed = free_name named demangled t.freed;
      })
      steps
