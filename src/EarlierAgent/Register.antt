-- ===== src/EarlierAgent/Register.antt =====
-- src/__trace_agent.h, class trace_agent: init, add_cap and reg_event. The JVM tool interface is an
-- argument: the error code of each call, 0 where it works.
pub mod Laws
use jvm.Common.{
  ℕ, Bool, true, false, not, ◌||◌, List, [], ◌∷◌, ◌++◌, Option, none, some, if◌then◌else◌, ℤ, pos,
  negsuc, eqb_ℤ,
}

pub data Event : Type 0 where
  vm_init vm_object_alloc class_file_load_hook gc_start gc_finish : Event

-- `jvmtiCapabilities`, as far as the agent sets them.
pub record Capabilities : Type 0 where
  pub can_generate_method_entry_events : Bool
  pub can_generate_vm_object_alloc_events : Bool
  pub can_generate_garbage_collection_events : Bool

pub record Jvmti : Type 0 where
  pub get_env_ret : ℤ
  -- whether GetEnv sets the pointer
  pub env : Bool
  pub add_capabilities : Capabilities → ℤ
  pub set_event_callbacks : List Event → ℤ
  pub set_event_notification_mode : Event → ℤ
  pub create_raw_monitor : ℤ

-- `jvmti_` is not null, the capabilities, the callbacks, the enabled events, and whether `lock` has
-- been made.
pub record Agent : Type 0 where
  pub jvmti : Bool
  pub capabilities : Option Capabilities
  pub callbacks : List Event
  pub enabled : List Event
  pub lock : Bool

pub data Result : Type 0 where
  ok : Agent → Result
  thrown : (err : ℤ) → Agent → Result

infixl 5 ◌>>=◌
abbrev pub ◌>>=◌ : Result → (Agent → Result) → Result
ok a >>= f = f a
thrown e a >>= f = thrown e a

-- CHECK_ERR: `a` is the agent if the call failed, `b` if it worked.
unfoldable pub check : ℤ → Agent → Agent → Result
check error a b = if not (eqb_ℤ error (pos 0)) then thrown error a else ok b

abbrev pub new_agent : Agent
new_agent = record {
  jvmti = false;
  capabilities = none;
  callbacks = [];
  enabled = [];
  lock = false;
}

unfoldable pub init : Jvmti → Agent → Result
init vm a =
    if not (eqb_ℤ vm.get_env_ret (pos 0)) || not vm.env
    then thrown (negsuc 0) a
    else ok (record a { jvmti = true })

abbrev pub caps : Capabilities
caps = record {
  can_generate_method_entry_events = true;
  can_generate_vm_object_alloc_events = true;
  can_generate_garbage_collection_events = true;
}

unfoldable pub add_cap : Jvmti → Agent → Result
unfolding check
add_cap vm a = check (vm.add_capabilities caps) a (record a { capabilities = some caps })

-- The callbacks that are not commented out.
abbrev pub callbacks_set : List Event
callbacks_set = vm_init ∷ gc_start ∷ gc_finish ∷ []

-- The events that are enabled, in order.
abbrev pub events_enabled : List Event
events_enabled = vm_init ∷ vm_object_alloc ∷ class_file_load_hook ∷ gc_start ∷ gc_finish ∷ []

-- One SetEventNotificationMode with its CHECK_ERR after another.
unfoldable pub enable_all : Jvmti → List Event → Agent → Result
unfolding check
enable_all vm [] a = ok a
enable_all vm (e ∷ es) a =
    check (vm.set_event_notification_mode e) a (record a { enabled = a.enabled ++ e ∷ [] })
    >>= enable_all vm es

unfoldable pub make_lock : Jvmti → Agent → Result
unfolding check
make_lock vm a = check vm.create_raw_monitor a (record a { lock = true })

unfoldable pub reg_event : Jvmti → Agent → Result
unfolding check enable_all make_lock
reg_event vm a = do
  b ← check (vm.set_event_callbacks callbacks_set) a (record a { callbacks = callbacks_set })
  c ← enable_all vm events_enabled b
  make_lock vm c

-- init, add_cap and reg_event, one after the other.
unfoldable pub register : Jvmti → Result
unfolding init add_cap reg_event
register vm = do a ← init vm new_agent; b ← add_cap vm a; reg_event vm b
