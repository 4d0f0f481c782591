-- ===== src/EarlierAgent/Allocs.antt =====
-- src/__trace_agent.h, sighandler, vm_object_alloc and what it calls: a signal asks for a trace, and
-- the next allocation makes it. The JVM tool interface is an argument: what its calls return.
pub mod Laws
use jvm.Common.{
  ℕ, zero, suc, ◌+◌, Bool, true, false, not, ◌&&◌, List, [], ◌∷◌, ◌++◌, Option, none, some, ◌==◌,
  if◌then◌else◌, ℤ, pos, eqb_ℤ,
}
use jvm.Text.{codes, strncmp_eq}
use jvm.TraceAgent.Trace
use jvm.TraceAgent.Trace.{Frame, Output, Traced, print_frames, silent}

-- Whether the class is printed.
unfoldable pub filter_class : List ℕ → Bool
unfolding strncmp_eq
filter_class signature =
    if not (strncmp_eq 9 (codes "[Lcom/zoe") signature)
      && not (strncmp_eq 8 (codes "Lcom/zoe") signature)
    then false
    else true

-- The loop from stack `i` on; a stack is `none` where its frame buffer is null. The numbers of the
-- stacks that are printed stand in `threads`.
unfoldable pub print_stacks : Output → ℕ → List (Option (List Frame)) → Traced
unfolding print_frames
print_stacks o i [] = Trace.done o
print_stacks o i (none ∷ stacks) = print_stacks o (suc i) stacks
print_stacks o i (some fs ∷ stacks) =
    elim (print_frames (record o { threads = o.threads ++ i ∷ [] }) fs) [
      | Trace.done o' ↦ print_stacks o' (suc i) stacks
      | Trace.thrown err o' ↦ Trace.thrown err o'
    ]

-- `buffer` is the block that GetAllStackTraces allocates.
unfoldable pub stack_trace : ℕ → List (Option (List Frame)) → Traced
unfolding print_stacks
stack_trace buffer stacks = print_stacks (record silent { allocated = buffer ∷ [] }) 0 stacks

-- `st_`, the classes that are printed, and the traces that are complete.
pub record State : Type 0 where
  pub st : Bool
  pub classes : List (List ℕ)
  pub traces : List Output

abbrev pub init : State
init = record { st = false; classes = []; traces = [] }

-- A callback or a signal handler returns, or an agent_exception leaves it.
pub data Result : Type 0 where
  returned : State → Result
  thrown : (err : ℤ) → State → Result

-- The calls of one vm_object_alloc. `during` signals come between its look at `st_` and its end: if
-- it makes a trace, while it makes it and before `st_ = false`.
pub record Alloc : Type 0 where
  pub signature_error : ℤ
  pub signature : List ℕ
  pub free_error : ℤ
  pub buffer : ℕ
  pub stacks : List (Option (List Frame))
  pub during : ℕ

unfoldable pub sighandler : State → State
sighandler s = record s { st = true }

unfoldable pub signals : ℕ → State → State
unfolding sighandler
signals zero s = s
signals (suc n) s = signals n (sighandler s)

-- From `if(st_)` on.
unfoldable pub trace_if_asked : Alloc → State → Result
unfolding stack_trace signals
trace_if_asked a s =
    let s' = signals a.during s in
    elim s.st [
      | false ↦ returned s'
      | true ↦ elim (stack_trace a.buffer a.stacks) [
        | Trace.done o ↦ returned (record s' { st = false; traces = s'.traces ++ o ∷ [] })
        | Trace.thrown err o ↦ thrown err s'
      ]
    ]

-- What filter_class prints.
unfoldable pub noted : Alloc → State → State
unfolding filter_class
noted a s = record s {
  classes = if filter_class a.signature then s.classes ++ a.signature ∷ [] else s.classes;
}

unfoldable pub vm_object_alloc : Alloc → State → Result
unfolding noted trace_if_asked
vm_object_alloc a s = elim (eqb_ℤ a.signature_error (pos 0)) [
  | false ↦ thrown a.signature_error s
  | true ↦ elim (eqb_ℤ a.free_error (pos 0)) [
    | false ↦ thrown a.free_error (noted a s)
    | true ↦ trace_if_asked a (noted a s)
  ]
]

pub data Event : Type 0 where
  signal : Event
  alloc : Alloc → Event

-- One after the other, up to the first exception.
unfoldable pub run : List Event → State → Result
unfolding sighandler vm_object_alloc
run [] s = returned s
run (signal ∷ es) s = run es (sighandler s)
run (alloc a ∷ es) s = elim (vm_object_alloc a s) [
  | returned s' ↦ run es s'
  | thrown err s' ↦ thrown err s'
]
