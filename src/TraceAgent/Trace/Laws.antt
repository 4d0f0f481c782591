-- ===== src/TraceAgent/Trace/Laws.antt =====
-- What stack_trace (src/trace_agent.h) prints, and what it gives back.

use jvm.Common.{◌≡◌, ◌≢◌, [], ◌∷◌, ◌++◌, arith, pos, eqb_ℤ_iff}
use jvm.TraceAgent.Trace.{Frame, Output, thrown, print_frame}

-- The defect: when the name of a method cannot be read, the string of the signature, which was
-- allocated before, is not given back.
print_frame-leak :
    (o : Output) (f : Frame)
    → f.class_error ≡ pos 0
    → f.signature_error ≡ pos 0
    → f.name_error ≢ pos 0
    → print_frame o f
      ≡ thrown f.name_error (record o { allocated = o.allocated ++ f.signature ∷ [] })
unfolding print_frame
print_frame-leak o f c s n = ground (arith, eqb_ℤ_iff f.name_error (pos 0))
