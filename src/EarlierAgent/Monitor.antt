-- ===== src/EarlierAgent/Monitor.antt =====
-- src/__trace_agent.h, worker and gc_start: the callbacks count the collections under a raw monitor
-- and notify the worker, which makes a trace. What the monitor does is that of the JVM tool
-- interface: one owner at a time, and a wait gives it up. Its calls work, but for RawMonitorWait.
pub mod Invariant
pub mod Laws
use jvm.Common.{
  ℕ, suc, ◌+◌, ◌≡◌, ◌≢◌, ◌⊎◌, Bool, true, false, Option, none, some, ◌==◌, if◌then◌else◌,
}

-- Where the worker is: before RawMonitorEnter, at the head of the inner loop, in RawMonitorWait
-- without and with a notification, at the trace, and at its end.
pub data WorkerPc : Type 0 where
  outside inside waiting notified tracing ended : WorkerPc

-- Where a thread in gc_start is: not in it, and behind RawMonitorEnter, the count, the notification.
pub data CallerPc : Type 0 where
  idle entered counted told : CallerPc

-- The owner is 0 for the worker and `suc i` for the caller `i`; `starts` and `traces` count.
pub record State : Type 0 where
  pub lock : Option ℕ
  pub worker : WorkerPc
  pub callers : ℕ → CallerPc
  pub gc_count : ℕ
  pub starts : ℕ
  pub traces : ℕ

abbrev pub init : State
init = record {
  lock = none;
  worker = outside;
  callers = λ i. idle;
  gc_count = 0;
  starts = 0;
  traces = 0;
}

abbrev pub at : (ℕ → CallerPc) → ℕ → CallerPc → ℕ → CallerPc
at pcs i pc j = if i == j then pc else pcs j

abbrev pub notify : WorkerPc → WorkerPc
notify outside = outside
notify inside = inside
notify waiting = notified
notify notified = notified
notify tracing = tracing
notify ended = ended

pub data Step : State → State → Type 0 where
  worker_enter :
      {s : State}
      → s.worker ≡ outside
      → s.lock ≡ none
      → Step s (record s { lock = some 0; worker = inside })
  worker_wait :
      {s : State}
      → s.worker ≡ inside
      → s.gc_count ≡ 0
      → Step s (record s { lock = none; worker = waiting })
  worker_wake :
      {s : State}
      → s.worker ≡ notified
      → s.lock ≡ none
      → Step s (record s { lock = some 0; worker = inside })
  -- RawMonitorWait returns an error: RawMonitorExit and the end of the worker
  worker_fail :
      {s : State}
      → (s.worker ≡ waiting) ⊎ (s.worker ≡ notified)
      → s.lock ≡ none
      → Step s (record s { worker = ended })
  worker_take :
      {s : State}
      → s.worker ≡ inside
      → s.gc_count ≢ 0
      → Step s (record s { worker = tracing; gc_count = 0; traces = suc s.traces })
  worker_exit :
      {s : State} → s.worker ≡ tracing → Step s (record s { lock = none; worker = outside })
  -- stack_trace throws
  worker_throw : {s : State} → s.worker ≡ tracing → Step s (record s { worker = ended })
  caller_enter :
      {s : State} (i : ℕ)
      → s.callers i ≡ idle
      → s.lock ≡ none
      → Step s (record s { lock = some (suc i); callers = at s.callers i entered })
  caller_count :
      {s : State} (i : ℕ)
      → s.callers i ≡ entered
      → Step s (record s {
        callers = at s.callers i counted;
        gc_count = suc s.gc_count;
        starts = suc s.starts;
      })
  caller_notify :
      {s : State} (i : ℕ)
      → s.callers i ≡ counted
      → Step s (record s { callers = at s.callers i told; worker = notify s.worker })
  caller_exit :
      {s : State} (i : ℕ)
      → s.callers i ≡ told
      → Step s (record s { lock = none; callers = at s.callers i idle })

pub data Reach : State → State → Type 0 where
  here : {s : State} → Reach s s
  later : {s t u : State} → Reach s t → Step t u → Reach s u
