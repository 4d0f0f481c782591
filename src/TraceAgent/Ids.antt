-- ===== src/TraceAgent/Ids.antt =====
-- The numbers of threads that the agents print: get_tid of src/trace_util.h and src/__trace_agent.h, and get_jtid
-- of src/jvm_inner.h. The system calls and the calls into the JVM are arguments.
use jvm.Common.{
  ap, ◌<◌, two64, ℕ, ◌%◌, ◌^◌, ◌≡◌, refl, Bool, true, false, not, List, [], ◌∷◌, Option, none, some,
  map, if◌then◌else◌, ℤ, pos, negsuc, eqb_ℤ, to_int32, to_uint64,
}

-- The static `lacks_gettid`, and what `syscall(__NR_gettid)` gives. The result, and the static after
-- the call.
unfoldable pub get_tid : ℤ → Bool → ℤ → ℤ × Bool
get_tid pid lacks ret =
    if not lacks
    then (if not (eqb_ℤ ret (negsuc 0)) then (ret, false) else (pid, true))
    else (pid, lacks)

-- A sequence of calls.
get_tids : ℤ → Bool → List ℤ → List ℤ
unfolding get_tid
get_tids pid lacks [] = []
get_tids pid lacks (ret ∷ rets) =
    let (tid, lacks') = get_tid pid lacks ret in tid ∷ get_tids pid lacks' rets

get_tids-lacking : (pid : ℤ) (rets : List ℤ) → get_tids pid true rets ≡ map (λ r. pid) rets
unfolding get_tids
get_tids-lacking pid [] = refl
get_tids-lacking pid (ret ∷ rets) = ap (◌∷◌ pid) (get_tids-lacking pid rets)

-- Once the system call has failed every later call gives the number of the process, whatever the
-- system call would give.
get_tids-failed :
    (pid : ℤ) (rets : List ℤ)
    → get_tids pid false (negsuc 0 ∷ rets) ≡ map (λ r. pid) (negsuc 0 ∷ rets)
unfolding get_tids
get_tids-failed pid rets = ap (◌∷◌ pid) (get_tids-lacking pid rets)

-- What the JVM gives: the object of the current thread, the object of a handle, whether an object
-- is a Thread, and its number, a jlong.
pub record Jvm : Type 0 where
  pub current_obj : Option ℕ
  pub resolve : ℕ → Option ℕ
  pub is_thread : ℕ → Bool
  pub thread_id : ℕ → ℤ

-- `thread` is null for `none`; the number of the thread is converted to an int.
jtid_of : Jvm → Option ℕ → ℤ
jtid_of j none = negsuc 0
jtid_of j (some o) =
    if not (j.is_thread o) then negsuc 0 else to_int32 (to_uint64 (j.thread_id o) % 2 ^ 32)

thread_oop : Jvm → Option ℕ → Option ℕ
thread_oop j none = j.current_obj
thread_oop j (some h) = j.resolve h

-- `inner` is whether the file is compiled with JVM_INNER.
unfoldable pub get_jtid : Bool → Jvm → Option ℕ → ℤ
unfolding jtid_of thread_oop
get_jtid inner j thread = if inner then jtid_of j (thread_oop j thread) else negsuc 998

-- A number of a thread within 31 bits is printed as it is; larger ones lose their upper half.
get_jtid-thread :
    (j : Jvm) (h o n : ℕ)
    → j.resolve h ≡ some o
    → j.is_thread o ≡ true
    → j.thread_id o ≡ pos n
    → n < two64
    → get_jtid true j (some h) ≡ to_int32 (n % 2 ^ 32)
unfolding get_jtid
get_jtid-thread j h o n e t id lt = rw (e, t, id) refl
