-- ===== src/TraceAgent.antt =====
-- src/trace_agent.h, class trace_agent, and src/main.cpp: how the agent is loaded and registers its
-- callbacks. The JVM tool interface is an argument: the error code of each call, 0 where it works.
pub mod Laws
pub mod Tests
pub mod Trace
pub mod Workers
pub mod Callbacks
pub mod Loading
pub mod Ids
use jvm.Common.{
  ℕ, ◌≡◌, Bool, true, false, not, ◌||◌, List, [], ◌∷◌, ◌++◌, Option, none, some, ◌==◌,
  if◌then◌else◌, ℤ, pos, negsuc, eqb_ℤ,
}

-- The events that the agent registers.
pub data Event : Type 0 where
  vm_init gc_start gc_finish thread_end thread_start exception vm_object_alloc : Event

-- `jvmtiCapabilities`, as far as the agent sets them.
pub record Capabilities : Type 0 where
  pub can_generate_garbage_collection_events : Bool
  pub can_tag_objects : Bool
  pub can_signal_thread : Bool
  pub can_generate_exception_events : Bool
  pub can_generate_vm_object_alloc_events : Bool

pub record Jvmti : Type 0 where
  pub get_env_ret : ℤ
  -- whether GetEnv sets the pointer
  pub env : Bool
  pub add_capabilities : Capabilities → ℤ
  pub set_event_callbacks : List Event → ℤ
  pub set_event_notification_mode : Event → ℤ

-- What is registered: `jvmti_` is not null, the capabilities, the callbacks, the enabled events.
pub record Agent : Type 0 where
  pub jvmti : Bool
  pub capabilities : Option Capabilities
  pub callbacks : List Event
  pub enabled : List Event

-- A method leaves the agent, and throws an agent_exception or not.
pub data Result : Type 0 where
  ok : Agent → Result
  thrown : (err : ℤ) → Agent → Result

infixl 5 ◌>>=◌
abbrev pub ◌>>=◌ : Result → (Agent → Result) → Result
ok a >>= f = f a
thrown e a >>= f = thrown e a

-- CHECK_ERR: `a` is the agent if the call failed, `b` if it worked.
check_err : ℤ → Agent → Agent → Result
check_err error a b = if not (eqb_ℤ error (pos 0)) then thrown error a else ok b

abbrev pub new_agent : Agent
new_agent = record { jvmti = false; capabilities = none; callbacks = []; enabled = [] }

init : Jvmti → Agent → Result
init vm a =
    if not (eqb_ℤ vm.get_env_ret (pos 0)) || not vm.env
    then thrown (negsuc 0) a
    else ok (record a { jvmti = true })

-- `monitor` is the macro MONITOR_EXCEPTION_AND_ALLOC.
unfoldable pub requested : Bool → Capabilities
requested monitor = record {
  can_generate_garbage_collection_events = true;
  can_tag_objects = true;
  can_signal_thread = true;
  can_generate_exception_events = monitor;
  can_generate_vm_object_alloc_events = monitor;
}

add_cap : Bool → Jvmti → Agent → Result
unfolding check_err requested
add_cap monitor vm a =
    let caps = requested monitor in
    check_err (vm.add_capabilities caps) a (record a { capabilities = some caps })

-- The callbacks that are set: VMObjectAlloc is not.
unfoldable pub callbacks_of : Bool → List Event
callbacks_of monitor =
    vm_init
    ∷ gc_start
    ∷ gc_finish
    ∷ thread_end
    ∷ thread_start
    ∷ (if monitor then exception ∷ [] else [])

-- The events that are enabled, in order.
unfoldable pub events_of : Bool → List Event
events_of monitor =
    vm_init
    ∷ gc_start
    ∷ gc_finish
    ∷ thread_end
    ∷ thread_start
    ∷ (if monitor then exception ∷ vm_object_alloc ∷ [] else [])

-- One SetEventNotificationMode with its CHECK_ERR after another.
unfoldable pub enable_all : Jvmti → List Event → Agent → Result
unfolding check_err
enable_all vm [] a = ok a
enable_all vm (e ∷ es) a =
    check_err (vm.set_event_notification_mode e) a (record a { enabled = a.enabled ++ e ∷ [] })
    >>= enable_all vm es

reg_event : Bool → Jvmti → Agent → Result
unfolding check_err callbacks_of events_of
reg_event monitor vm a =
    check_err (vm.set_event_callbacks (callbacks_of monitor)) a
      (record a { callbacks = callbacks_of monitor })
    >>= enable_all vm (events_of monitor)

unfoldable pub register : Bool → Jvmti → Result
unfolding init add_cap reg_event
register monitor vm = do a ← init vm new_agent; b ← add_cap monitor vm a; reg_event monitor vm b

pub data JniRet : Type 0 where
  jni_ok jni_err : JniRet

-- Agent_OnLoad, behind the handlers that it installs first: the exception becomes JNI_ERR.
unfoldable pub agent_on_load : Bool → Jvmti → JniRet × Agent
unfolding register
agent_on_load monitor vm = elim (register monitor vm) [
  | ok a ↦ (jni_ok, a)
  | thrown err a ↦ (jni_err, a)
]
