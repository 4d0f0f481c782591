-- ===== src/TraceAgent/Trace.antt =====
-- src/trace_agent.h, stack_trace: print the Java stacks of all threads. The JVM tool interface is an
-- argument: what each of its calls returns for each frame. Strings are named by numbers.
pub mod Laws
pub mod Done
use jvm.Common.{
  ℕ, ◌≡◌, Bool, true, false, not, List, [], ◌∷◌, ◌++◌, Option, none, some, if◌then◌else◌, ℤ, pos,
  eqb_ℤ,
}

-- The calls for one frame: error codes, and the strings that two of the calls allocate.
pub record Frame : Type 0 where
  pub class_error : ℤ
  pub signature_error : ℤ
  pub signature : ℕ
  pub name_error : ℤ
  pub name : ℕ
  pub free_name_error : ℤ
  pub free_signature_error : ℤ

-- `frames` is `none` where the frame buffer is null.
pub record StackInfo : Type 0 where
  pub thread_name : ℕ
  pub frames : Option (List Frame)

-- What has been printed, and the blocks and strings allocated and given back so far, in order.
pub record Output : Type 0 where
  pub threads : List ℕ
  pub methods : List (ℕ × ℕ)
  pub allocated : List ℕ
  pub deallocated : List ℕ

-- An agent_exception, or the end of the function.
pub data Traced : Type 0 where
  done : Output → Traced
  thrown : (err : ℤ) → Output → Traced

infixl 5 ◌>>=◌
abbrev pub ◌>>=◌ : Traced → (Output → Traced) → Traced
done o >>= f = f o
thrown e o >>= f = thrown e o

-- CHECK_ERR after a call: `o` if it failed, `o'` if it worked.
check : ℤ → Output → Output → Traced
check error o o' = if not (eqb_ℤ error (pos 0)) then thrown error o else done o'

unfoldable pub allocate : Output → ℕ → Output
allocate o s = record o { allocated = o.allocated ++ s ∷ [] }

deallocate : Output → ℕ → Output
deallocate o s = record o { deallocated = o.deallocated ++ s ∷ [] }

unfoldable pub print_frame : Output → Frame → Traced
unfolding check allocate deallocate
print_frame o f = do
  o₁ ← check f.class_error o o
  o₂ ← check f.signature_error o₁ (allocate o₁ f.signature)
  o₃ ← check f.name_error o₂ (allocate o₂ f.name)
  let o₄ = record o₃ { methods = o₃.methods ++ (f.signature, f.name) ∷ [] }
  o₅ ← check f.free_name_error o₄ (deallocate o₄ f.name)
  check f.free_signature_error o₅ (deallocate o₅ f.signature)

unfoldable pub print_frames : Output → List Frame → Traced
unfolding print_frame
print_frames o [] = done o
print_frames o (f ∷ fs) = print_frame o f >>= λ o'. print_frames o' fs

-- GetThreadInfo allocates the name of the thread, and nothing gives it back. Its error is not
-- looked at.
unfoldable pub print_stacks : Output → List StackInfo → Traced
unfolding print_frames allocate
print_stacks o [] = done o
print_stacks o (s ∷ ss) =
    let named = allocate o s.thread_name in
    let o' = record named { threads = named.threads ++ s.thread_name ∷ [] } in
    elim s.frames [
      | none ↦ print_stacks o' ss
      | some fs ↦ print_frames o' fs >>= λ o''. print_stacks o'' ss
    ]

abbrev pub silent : Output
silent = record { threads = []; methods = []; allocated = []; deallocated = [] }

-- `stacks` is what GetAllStackTraces returns, in the block `buffer` that it allocates; nothing gives
-- this back.
unfoldable pub stack_trace : Bool → ℕ → List StackInfo → Traced
unfolding print_stacks allocate
stack_trace print buffer stacks =
    let o = allocate silent buffer in if not print then done o else print_stacks o stacks
