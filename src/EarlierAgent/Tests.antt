-- ===== src/EarlierAgent/Tests.antt =====
-- Examples for src/__trace_agent.h.
use jvm.Common.{List, [], ◌∷◌, length, pos, false, ◌≡◌, refl, arith, none}
use jvm.Text.{codes}
use jvm.TraceAgent.Trace.{silent}
use jvm.EarlierAgent.Allocs
use jvm.EarlierAgent.Allocs.{Alloc, Event, signal, alloc, run}
use jvm.EarlierAgent.Allocs.Laws.{due, shown, run-due}
use jvm.EarlierAgent.Monitor.{
  waiting, notified, tracing, idle, entered, counted, told, State, init, at, worker_enter,
  worker_wait, caller_enter, caller_count, caller_notify, caller_exit, Reach, here, later,
}
use jvm.EarlierAgent.Monitor.Laws.{waiting-gc_count, outstanding-traces}

-- Two signals and three allocations, with a signal during each: the first is lost, the second is
-- answered by the third allocation.
abbrev allocation : Alloc
allocation = record {
  signature_error = pos 0;
  signature = codes "Lcom/zoe/A;";
  free_error = pos 0;
  buffer = 90;
  stacks = none ∷ [];
  during = 1;
}

abbrev events : List Event
events = signal ∷ signal ∷ alloc allocation ∷ alloc allocation ∷ alloc allocation ∷ []

abbrev after_events : Allocs.State
after_events = record {
  st = false;
  classes = codes "Lcom/zoe/A;" ∷ codes "Lcom/zoe/A;" ∷ codes "Lcom/zoe/A;" ∷ [];
  traces = record silent { allocated = 90 ∷ [] } ∷ record silent { allocated = 90 ∷ [] } ∷ [];
}

run-due_example :
    (length after_events.traces ≡ due false events) × (after_events.classes ≡ shown events)
unfolding run
run-due_example = run-due events after_events refl

-- The worker waits.
abbrev sleeping : State
sleeping = record {
  lock = none;
  worker = waiting;
  callers = λ i. idle;
  gc_count = 0;
  starts = 0;
  traces = 0;
}

sleeping-Reach : Reach init sleeping
sleeping-Reach = later (later here (worker_enter refl refl)) (worker_wait refl refl)

waiting-gc_count_example : sleeping.gc_count ≡ 0
waiting-gc_count_example = waiting-gc_count sleeping sleeping-Reach refl refl

-- A collection has started in thread 3.
abbrev woken : State
woken = record {
  lock = none;
  worker = notified;
  callers = at (at (at (at (λ i. idle) 3 entered) 3 counted) 3 told) 3 idle;
  gc_count = 1;
  starts = 1;
  traces = 0;
}

woken-Reach : Reach init woken
woken-Reach =
    later
      (later (later (later sleeping-Reach (caller_enter 3 refl refl)) (caller_count 3 refl))
        (caller_notify 3 refl))
      (caller_exit 3 refl)

outstanding-traces_example :
    (t : State) × Reach woken t × (t.worker ≡ tracing) × (t.gc_count ≡ 0) × (t.traces ≡ 1)
outstanding-traces_example =
    outstanding-traces woken woken-Reach (λ e. absurd (omega (arith, e))) refl
      (λ e. absurd (ground (arith, e)))
