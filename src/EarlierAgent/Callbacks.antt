-- ===== src/EarlierAgent/Callbacks.antt =====
-- src/__trace_agent.h: the callbacks method_entry, class_file_load_hook and exception_cb, tname2,
-- which gives the name of the thread for a message, and vm_init. The JVM tool interface is an
-- argument: what its calls return.
pub mod Laws
use jvm.Common.{
  ℕ, Bool, true, false, not, ◌&&◌, List, [], ◌∷◌, ◌++◌, Option, none, some, if◌then◌else◌, ℤ, pos,
  eqb_ℤ,
}
use jvm.Text.{codes, strncmp_eq}
use jvm.TraceAgent.Callbacks.{Jni, Missing, alloc_thread}

-- `dict_line` goes to stderr, `entry_line` to stdout; `error_line` is that of the handler.
pub data Line : Type 0 where
  dict_line entry_line class_line caught_line : List ℕ → Line
  error_line : (err : ℤ) → Line

-- What is printed, and the strings allocated for the agent and given back.
pub record Log : Type 0 where
  pub lines : List Line
  pub allocated : List (List ℕ)
  pub freed : List (List ℕ)

-- A callback returns, or an agent_exception leaves it.
pub data Outcome : Type 0 where
  done : Log → Outcome
  thrown : (err : ℤ) → Log → Outcome

infixl 5 ◌>>=◌
abbrev pub ◌>>=◌ : Outcome → (Log → Outcome) → Outcome
done l >>= f = f l
thrown err l >>= f = thrown err l

-- CHECK_ERR: `l` is the log if the call failed, `l'` if it worked.
check : ℤ → Log → Log → Outcome
check error l l' = if not (eqb_ℤ error (pos 0)) then thrown error l else done l'

allocate : List ℕ → Log → Log
allocate s l = record l { allocated = l.allocated ++ s ∷ [] }

deallocate : List ℕ → Log → Log
deallocate s l = record l { freed = l.freed ++ s ∷ [] }

put : Line → Log → Log
put s l = record l { lines = l.lines ++ s ∷ [] }

-- The calls of one method_entry.
pub record Entry : Type 0 where
  pub class_error : ℤ
  pub signature_error : ℤ
  pub signature : List ℕ
  pub name_error : ℤ
  pub name : List ℕ
  pub free_name_error : ℤ
  pub free_signature_error : ℤ

unfoldable pub entry_line_of : List ℕ → Line
unfolding strncmp_eq
entry_line_of name =
    if strncmp_eq 10 (codes "DictBasePO") name then dict_line name else entry_line name

fails : ℤ → Bool
fails err = not (eqb_ℤ err (pos 0))

-- The body of the try block, where each CHECK_ERR may throw.
unfoldable pub enter_method : Entry → Log → Outcome
unfolding fails allocate deallocate put entry_line_of
enter_method e l =
    let with_signature = allocate e.signature l in
    let with_name = put (entry_line_of e.name) (allocate e.name with_signature) in
    let name_freed = deallocate e.name with_name in
    if fails e.class_error
    then thrown e.class_error l
    else if fails e.signature_error
    then thrown e.signature_error l
    else if fails e.name_error
    then thrown e.name_error with_signature
    else if fails e.free_name_error
    then thrown e.free_name_error with_name
    else if fails e.free_signature_error
    then thrown e.free_signature_error name_freed
    else done (deallocate e.signature name_freed)

unfoldable pub method_entry : Entry → Log → Log
unfolding enter_method put
method_entry e l = elim (enter_method e l) [
  | done l' ↦ l'
  | thrown err l' ↦ put (error_line err) l'
]

-- The name is `none` where the pointer is null.
unfoldable pub class_file_load_hook : Option (List ℕ) → Log → Log
unfolding strncmp_eq put
class_file_load_hook none l = l
class_file_load_hook (some name) l =
    if not (strncmp_eq 8 (codes "[com/zoe") name) && not (strncmp_eq 7 (codes "com/zoe") name)
    then l
    else put (class_line name) l

unfoldable pub exception_cb : (name_error : ℤ) (name : List ℕ) (free_error : ℤ) → Log → Outcome
unfolding check allocate deallocate put
exception_cb name_error name free_error l = do
  l₁ ← check name_error l (allocate name l)
  let l₂ = put (caught_line name) l₁
  check free_error l₂ (deallocate name l₂)

-- `name` is that which GetThreadInfo allocates.
unfoldable pub tname2 : (thread_error info_error : ℤ) (name : List ℕ) → Log → List ℕ × Log
unfolding allocate
tname2 thread_error info_error name l =
    if not (eqb_ℤ thread_error (pos 0))
    then (codes "error tname_a", l)
    else if not (eqb_ℤ info_error (pos 0))
    then (codes "error tname_b", l)
    else (name, allocate name l)

-- vm_init: what alloc_thread prints, then whether the worker runs and SIGUSR1 has its handler, or
-- the error that is thrown before that.
pub data Started : Type 0 where
  both_set : Started
  not_run : (err : ℤ) → Started

-- `run` is the result of RunAgentThread for a thread object, null or not.
unfoldable pub vm_init : Jni → (run : Bool → ℤ) → List Missing × Started
unfolding alloc_thread
vm_init env run =
    let (missing, thread) = alloc_thread env in
    (missing, if not (eqb_ℤ (run thread) (pos 0)) then not_run (run thread) else both_set)
