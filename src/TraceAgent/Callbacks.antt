-- ===== src/TraceAgent/Callbacks.antt =====
-- src/trace_agent.h: the callbacks object_alloc, exception_fun, thread_start and thread_end, and
-- alloc_thread. What the JVM returns is an argument. The first two are compiled in with the macro
-- MONITOR_EXCEPTION_AND_ALLOC only.
pub mod Laws
use jvm.Common.{
  ℕ, Bool, true, false, not, ◌&&◌, ◌||◌, List, [], ◌∷◌, ◌++◌, length, ◌==◌, if◌then◌else◌,
}
use jvm.Text.{codes, strncmp_eq}

pub data Line : Type 0 where
  object_line exception_line start_line end_line : List ℕ → Line

-- What is printed, and the strings that the JVM has allocated for the agent and not got back.
pub record Log : Type 0 where
  pub lines : List Line
  pub kept : List (List ℕ)

-- `GetClassSignature` and `GetThreadInfo` allocate the string that they give.
get : List ℕ → Log → Log
get s l = record l { kept = l.kept ++ s ∷ [] }

put : Line → Log → Log
put s l = record l { lines = l.lines ++ s ∷ [] }

-- The classes that object_alloc leaves out.
unfoldable pub of_the_platform : List ℕ → Bool
unfolding strncmp_eq
of_the_platform name =
    strncmp_eq 5 (codes "Ljava") name
    || (strncmp_eq 6 (codes "[Ljava") name
        || (strncmp_eq 4 (codes "Lorg") name
            || (strncmp_eq 5 (codes "[Lorg") name
                || (strncmp_eq 4 (codes "Lsun") name || strncmp_eq 5 (codes "[Lsun") name))))

unfoldable pub object_alloc : List ℕ → Log → Log
unfolding get put of_the_platform
object_alloc class_name l =
    let l' = get class_name l in
    if of_the_platform class_name
    then l'
    else if length class_name == 2
    then l'
    else put (object_line class_name) l'

-- exception_fun up to its `return`.
unfoldable pub exception_fun : List ℕ → Log → Log
unfolding get put
exception_fun class_name l = put (exception_line class_name) (get class_name l)

unfoldable pub thread_start : List ℕ → Log → Log
unfolding get put
thread_start name l = put (start_line name) (get name l)

unfoldable pub thread_end : List ℕ → Log → Log
unfolding get put
thread_end name l = put (end_line name) (get name l)

-- The calls of the JVM to the callbacks.
pub data Callback : Type 0 where
  on_alloc on_exception on_start on_end : List ℕ → Callback

unfoldable pub run : List Callback → Log → Log
unfolding object_alloc exception_fun thread_start thread_end
run [] l = l
run (on_alloc name ∷ cs) l = run cs (object_alloc name l)
run (on_exception name ∷ cs) l = run cs (exception_fun name l)
run (on_start name ∷ cs) l = run cs (thread_start name l)
run (on_end name ∷ cs) l = run cs (thread_end name l)

pub data Missing : Type 0 where
  no_class no_constructor no_object : Missing

-- Whether each call of the JNI gives a result that is not null; the later calls are made with what
-- the earlier ones gave.
pub record Jni : Type 0 where
  pub find_class : Bool
  pub get_method_id : (thr_class : Bool) → Bool
  pub new_object : (thr_class cid : Bool) → Bool

note : Bool → Missing → List Missing
note found m = if found then [] else m ∷ []

-- What is printed, and whether the thread object is not null.
unfoldable pub alloc_thread : Jni → List Missing × Bool
unfolding note
alloc_thread env =
    let thr_class = env.find_class in
    let cid = env.get_method_id thr_class in
    let res = env.new_object thr_class cid in
    (note thr_class no_class ++ (note cid no_constructor ++ note res no_object), res)
