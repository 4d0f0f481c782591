-- ===== src/TraceAgent/Trace/Done.antt =====
-- What stack_trace (src/trace_agent.h) has printed and given back when it ends without an exception.
use jvm.Common.{ℕ, List, [], ◌∷◌, ◌++◌, none, some, map}
use jvm.TraceAgent.Trace.{Frame, StackInfo, Output}

-- The signature and the name of each method.
abbrev pub method_of : Frame → ℕ × ℕ
method_of f = (f.signature, f.name)

abbrev pub methods_of : List StackInfo → List (ℕ × ℕ)
methods_of [] = []
methods_of (s ∷ ss) = elim s.frames [
  | none ↦ methods_of ss
  | some fs ↦ map method_of fs ++ methods_of ss
]

-- Each pair's strings, in this and in the other order.
abbrev pub both : List (ℕ × ℕ) → List ℕ
both [] = []
both (m ∷ ms) = m.0 ∷ m.1 ∷ both ms

abbrev pub swapped : List (ℕ × ℕ) → List ℕ
swapped [] = []
swapped (m ∷ ms) = m.1 ∷ m.0 ∷ swapped ms

-- What is allocated for each thread: its name and the strings of its methods.
abbrev pub allocated_for : List StackInfo → List ℕ
allocated_for [] = []
allocated_for (s ∷ ss) = elim s.frames [
  | none ↦ s.thread_name ∷ allocated_for ss
  | some fs ↦ s.thread_name ∷ (both (map method_of fs) ++ allocated_for ss)
]

-- The output after the threads `ts` and the methods `ms` have been printed in full and `bs` has been
-- allocated.
abbrev added : Output → List ℕ → List (ℕ × ℕ) → List ℕ → Output
added o ts ms bs = record {
  threads = o.threads ++ ts;
  methods = o.methods ++ ms;
  allocated = o.allocated ++ bs;
  deallocated = o.deallocated ++ swapped ms;
}

abbrev names : List StackInfo → List ℕ
names ss = map (λ s. s.thread_name) ss
