-- ===== src/Backtrace/Laws.antt =====
-- What trace_backtrace (src/trace_backtrace.h) collects.
use jvm.Common.{
  ℕ, ◌≡◌, refl, sym, ◌∙◌, Bool, true, false, ◌||◌, List, [], ◌∷◌, ◌++◌, append_assoc, append-nil,
  Option, none, some, arith,
}
use jvm.Backtrace.{
  Unw, last, frame, Trace, Outcome, ended, running, name_of, free_name, of_malloc, trace_backtrace,
}

-- The names of the frames before the last step.
abbrev pub names : List Unw → List (List ℕ)
names [] = []
names (last ∷ steps) = []
names (frame symbol named demangled ∷ steps) = name_of symbol named demangled ∷ names steps

-- The names that were allocated.
abbrev pub demangled_names : List Unw → List (List ℕ)
demangled_names [] = []
demangled_names (last ∷ steps) = []
demangled_names (frame symbol false demangled ∷ steps) = demangled_names steps
demangled_names (frame symbol true none ∷ steps) = demangled_names steps
demangled_names (frame symbol true (some name) ∷ steps) = name ∷ demangled_names steps

abbrev pub any_malloc : List (List ℕ) → Bool
any_malloc [] = false
any_malloc (name ∷ rest) = of_malloc name || any_malloc rest

-- A step returns 0.
abbrev pub reaches_last : List Unw → Bool
reaches_last [] = false
reaches_last (last ∷ steps) = true
reaches_last (frame symbol named demangled ∷ steps) = reaches_last steps

abbrev pub trace_of : Outcome → Trace
trace_of (ended t) = t
trace_of (running t) = t

abbrev pub has_ended : Outcome → Bool
has_ended (ended t) = true
has_ended (running t) = false

-- The loop ends exactly when a step returns 0, not at an error, which is less than 0. It collects
-- the names of the frames in order, gives back exactly those that were allocated, and `rr` tells
-- whether os::malloc was among them.
pub trace_backtrace_lem :
    (t : Trace) (steps : List Unw)
    → let r = trace_backtrace t steps in
      (has_ended r ≡ reaches_last steps)
      × ((trace_of r).stacks ≡ t.stacks ++ names steps)
      × ((trace_of r).freed ≡ t.freed ++ demangled_names steps)
      × ((trace_of r).rr ≡ (any_malloc (names steps) || t.rr))
unfolding trace_backtrace
trace_backtrace_lem t [] = (refl, sym (append-nil t.stacks), sym (append-nil t.freed), refl)
trace_backtrace_lem t (last ∷ steps) =
    (refl, sym (append-nil t.stacks), sym (append-nil t.freed), refl)
trace_backtrace_lem t (frame symbol named demangled ∷ steps) =
    let name = name_of symbol named demangled in
    let ih =
      trace_backtrace_lem
        (record {
          stacks = t.stacks ++ name ∷ [];
          rr = of_malloc name || t.rr;
          freed = free_name named demangled t.freed;
        })
        steps in
    (
      ih.0,
      ih.1 ∙ append_assoc t.stacks (name ∷ []) (names steps),
      ih.2 ∙ freed named demangled,
      ih.3 ∙ ground arith,
    )
  where
    freed :
        (named : Bool) (demangled : Option (List ℕ))
        → free_name named demangled t.freed ++ demangled_names steps
          ≡ t.freed ++ demangled_names (frame symbol named demangled ∷ steps)
    freed false d = refl
    freed true none = refl
    freed true (some name) = append_assoc t.freed (name ∷ []) (demangled_names steps)
