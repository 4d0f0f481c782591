-- ===== src/TraceAgent/Tests.antt =====
-- Examples for the agent (src/trace_agent.h, src/main.cpp).
use jvm.Common.{none, some, ◌≡◌, true, false, ◌&&◌, List, [], ◌∷◌, ◌++◌, if◌then◌else◌, ℤ, pos}
use jvm.ZQueue.{notified, timed_out}
use jvm.TraceAgent.{Jvmti, Event, exception, jni_ok, jni_err, events_of, agent_on_load}
use jvm.TraceAgent.Laws.{accepted, all_accepted, prepared, agent_on_load-lem}
use jvm.TraceAgent.Trace.{Output, StackInfo, Frame}
use jvm.TraceAgent.Workers.{Round, Worker, worker}
use jvm.TraceAgent.Workers.Laws.{sent, worker-serves}

-- An interface that does not report exceptions.
abbrev refuses : Event → ℤ
refuses exception = pos 98
refuses e = pos 0

abbrev vm : Jvmti
vm = record {
  get_env_ret = pos 0;
  env = true;
  add_capabilities = λ c. pos 0;
  set_event_callbacks = λ es. pos 0;
  set_event_notification_mode = refuses;
}

agent_on_load-lem_example :
    let r = agent_on_load true vm in
    (r.0 ≡ (if prepared true vm && all_accepted vm (events_of true) then jni_ok else jni_err))
    × (r.1.enabled ≡ (if prepared true vm then accepted vm (events_of true) else []))
agent_on_load-lem_example = agent_on_load-lem true vm

-- The name of the method cannot be read.
abbrev nameless : Frame
nameless = record {
  class_error = pos 0;
  signature_error = pos 0;
  signature = 1;
  name_error = pos 23;
  name = 2;
  free_name_error = pos 0;
  free_signature_error = pos 0;
}

abbrev idle : Worker
idle = record { que = []; traced = [] }

abbrev rounds : List Round
rounds =
    record { waits = notified (5 ∷ 6 ∷ []) ∷ []; stop = false }
    ∷ record { waits = []; stop = true }
    ∷ record { waits = timed_out (7 ∷ []) ∷ []; stop = true }
    ∷ []

worker-serves_example :
    let r = (worker idle rounds).1 in
    r.traced ++ r.que ≡ idle.traced ++ (idle.que ++ sent idle rounds)
worker-serves_example = worker-serves idle rounds

abbrev stacks : List StackInfo
stacks =
    record { thread_name = 7; frames = none }
    ∷ record { thread_name = 8; frames = some (record nameless { name_error = pos 0 } ∷ []) }
    ∷ []

abbrev printed : Output
printed = record {
  threads = 7 ∷ 8 ∷ [];
  methods = (1, 2) ∷ [];
  allocated = 90 ∷ 7 ∷ 8 ∷ 1 ∷ 2 ∷ [];
  deallocated = 2 ∷ 1 ∷ [];
}
