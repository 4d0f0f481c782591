-- ===== src/TraceAgent/Laws.antt =====
-- What the agent (src/trace_agent.h, src/main.cpp) has registered when it is loaded.
use jvm.Common.{
  Bool-cases, ◌≡◌, refl, ap, sym, ◌∙◌, inl, inr, Bool, true, false, ◌&&◌, List, [], ◌∷◌, ◌++◌,
  Option, none, some, if◌then◌else◌, pos, eqb_ℤ, arith, append_assoc, append-nil,
}
use jvm.TraceAgent.{
  Event, vm_init, gc_start, gc_finish, thread_end, thread_start, exception, vm_object_alloc,
  Capabilities, Jvmti, Agent, Result, ok, thrown, requested, callbacks_of, events_of, enable_all,
  jni_ok, jni_err, agent_on_load, check_err,
}

-- The events that get enabled: up to the first that the interface refuses.
abbrev pub accepted : Jvmti → List Event → List Event
accepted vm [] = []
accepted vm (e ∷ es) =
    if eqb_ℤ (vm.set_event_notification_mode e) (pos 0) then e ∷ accepted vm es else []

abbrev pub all_accepted : Jvmti → List Event → Bool
all_accepted vm [] = true
all_accepted vm (e ∷ es) = eqb_ℤ (vm.set_event_notification_mode e) (pos 0) && all_accepted vm es

abbrev agent_of : Result → Agent
agent_of (ok a) = a
agent_of (thrown err a) = a

abbrev works : Result → Bool
works (ok a) = true
works (thrown err a) = false

enable_all-lem :
    (vm : Jvmti) (es : List Event) (a : Agent)
    → (works (enable_all vm es a) ≡ all_accepted vm es)
      × (agent_of (enable_all vm es a) ≡ record a { enabled = a.enabled ++ accepted vm es })
unfolding enable_all
enable_all-lem vm [] a = (refl, ap (λ l. record a { enabled = l }) (sym (append-nil a.enabled)))
enable_all-lem vm (e ∷ es) a =
    elim (Bool-cases (eqb_ℤ (vm.set_event_notification_mode e) (pos 0))) [
      | inl good ↦
          let ih = enable_all-lem vm es (record a { enabled = a.enabled ++ e ∷ [] }) in
          rw (good, enable_all, check_err)
            (
              ih.0,
              ih.1
                  ∙ ap (λ l. record a { enabled = l })
                      (append_assoc a.enabled (e ∷ []) (accepted vm es)),
            )
      | inr bad ↦
          rw (bad, enable_all, check_err)
            (refl, ap (λ l. record a { enabled = l }) (sym (append-nil a.enabled)))
    ]

-- The calls before the events are enabled work.
abbrev pub prepared : Bool → Jvmti → Bool
prepared monitor vm =
    eqb_ℤ vm.get_env_ret (pos 0)
    && vm.env
    && eqb_ℤ (vm.add_capabilities (requested monitor)) (pos 0)
    && eqb_ℤ (vm.set_event_callbacks (callbacks_of monitor)) (pos 0)

-- Loading succeeds exactly when every call of the interface works. The enabled events are those of
-- the agent up to the first that is refused, in order, and none if an earlier call fails.
pub agent_on_load-lem :
    (monitor : Bool) (vm : Jvmti)
    → let r = agent_on_load monitor vm in
      (r.0
        ≡ (if prepared monitor vm && all_accepted vm (events_of monitor) then jni_ok else jni_err))
      × (r.1.enabled ≡ (if prepared monitor vm then accepted vm (events_of monitor) else []))
unfolding agent_on_load callbacks_of
agent_on_load-lem monitor vm = ground (
  arith,
  enable_all-lem vm (events_of monitor) (record {
    jvmti = true;
    capabilities = some (requested monitor);
    callbacks = callbacks_of monitor;
    enabled = [];
  }),
)

-- The capability that the JVM tool interface asks for before it sends an event.
abbrev pub permitted : Option Capabilities → Event → Bool
permitted none e = false
permitted (some c) vm_init = true
permitted (some c) gc_start = c.can_generate_garbage_collection_events
permitted (some c) gc_finish = c.can_generate_garbage_collection_events
permitted (some c) thread_end = true
permitted (some c) thread_start = true
permitted (some c) exception = c.can_generate_exception_events
permitted (some c) vm_object_alloc = c.can_generate_vm_object_alloc_events

-- A test that holds of every element.
abbrev pub all : (Event → Bool) → List Event → Bool
all p [] = true
all p (e ∷ es) = p e && all p es

accepted-all :
    (p : Event → Bool) (vm : Jvmti) (es : List Event)
    → all p es ≡ true
    → all p (accepted vm es) ≡ true
accepted-all p vm [] h = refl
accepted-all p vm (e ∷ es) h = ground (arith, accepted-all p vm es)

events-permitted :
    (monitor : Bool) → all (permitted (some (requested monitor))) (events_of monitor) ≡ true
unfolding events_of requested
events-permitted true = refl
events-permitted false = refl

-- Whatever calls fail, the capability of every event that the agent has enabled was added before.
agent_on_load-permitted :
    (monitor : Bool) (vm : Jvmti)
    → let a = (agent_on_load monitor vm).1 in all (permitted a.capabilities) a.enabled ≡ true
unfolding agent_on_load callbacks_of
agent_on_load-permitted monitor vm = ground (
  arith,
  enable_all-lem vm (events_of monitor) (record {
    jvmti = true;
    capabilities = some (requested monitor);
    callbacks = callbacks_of monitor;
    enabled = [];
  }),
  accepted-all (permitted (some (requested monitor))) vm (events_of monitor),
  events-permitted monitor,
)
