-- ===== src/EarlierAgent/Monitor/Laws.antt =====
-- The monitor of src/__trace_agent.h: no lost notification, and what an exception does.
use jvm.Common.{ℕ, suc, ◌+◌, ◌≤◌, ◌≡◌, ◌≢◌, refl, ap, none, some, arith, ℕ_discrete}
use jvm.EarlierAgent.Monitor.{
  WorkerPc, outside, inside, waiting, notified, tracing, ended, idle, State, init, Step,
  worker_enter, worker_wait, worker_wake, worker_fail, worker_take, worker_exit, worker_throw,
  caller_enter, caller_count, caller_notify, caller_exit, Reach, here, later,
}
use jvm.EarlierAgent.Monitor.Invariant.{
  holds, IsFree, IsFree-Inv, worker-Inv, caller-Inv, init-Inv, Reach-Inv,
}

-- In every state that can be reached, if the monitor is free and the worker waits without a
-- notification, no collection is outstanding: no notification is lost.
pub waiting-gc_count :
    (s : State) → Reach init s → s.worker ≡ waiting → s.lock ≡ none → s.gc_count ≡ 0
waiting-gc_count s r w l =
    let f = IsFree-Inv s l (Reach-Inv r init-Inv) in ground (arith, f.nothing_new, w)

-- Two threads are never in gc_start behind RawMonitorEnter at the same time.
callers_exclusive :
    (s : State) (i j : ℕ) → Reach init s → s.callers i ≢ idle → s.callers j ≢ idle → i ≡ j
callers_exclusive s i j r a b = elim (ℕ_discrete i j) [
  | yes e ↦ e
  | no ne ↦ absurd (b ((caller-Inv s i a (Reach-Inv r init-Inv)).others_idle j ne))
]

-- When, in a state that can be reached, a collection is outstanding, the monitor is free and the
-- worker has not ended, there are steps to one more trace, at which none is outstanding.
pub outstanding-traces :
    (s : State)
    → Reach init s
    → s.gc_count ≢ 0
    → s.lock ≡ none
    → s.worker ≢ ended
    → (t : State) × Reach s t × (t.worker ≡ tracing) × (t.gc_count ≡ 0) × (t.traces ≡ suc s.traces)
outstanding-traces s r n l ne = after s.worker refl
  where
    f : IsFree s
    f = IsFree-Inv s l (Reach-Inv r init-Inv)

    after :
        (w : WorkerPc)
        → s.worker ≡ w
        → (t : State) × Reach s t
          × (t.worker ≡ tracing)
          × (t.gc_count ≡ 0)
          × (t.traces ≡ suc s.traces)
    after outside e =
        (_, later (later here (worker_enter e l)) (worker_take refl n), refl, refl, refl)
    after inside e = absurd (ground (arith, f.not_held, e))
    after waiting e = absurd (ground (arith, f.nothing_new, e, n))
    after notified e =
        (_, later (later here (worker_wake e l)) (worker_take refl n), refl, refl, refl)
    after tracing e = absurd (ground (arith, f.not_held, e))
    after ended e = absurd (ne e)

-- The worker has ended in the monitor.
record IsAbandoned (n : ℕ) (s : State) : Type 0 where
  owned : s.lock ≡ some 0
  over : s.worker ≡ ended
  all_idle : (j : ℕ) → s.callers j ≡ idle
  same_traces : s.traces ≡ n

step-IsAbandoned : {s t : State} (n : ℕ) → Step s t → IsAbandoned n s → IsAbandoned n t
step-IsAbandoned n (worker_enter w l) a = absurd (ground (arith, a.owned))
step-IsAbandoned n (worker_wait w z) a = absurd (ground (arith, a.over))
step-IsAbandoned n (worker_wake w l) a = absurd (ground (arith, a.owned))
step-IsAbandoned n (worker_fail w l) a = absurd (ground (arith, a.owned))
step-IsAbandoned n (worker_take w z) a = absurd (ground (arith, a.over))
step-IsAbandoned n (worker_exit w) a = absurd (ground (arith, a.over))
step-IsAbandoned n (worker_throw w) a = absurd (ground (arith, a.over))
step-IsAbandoned n (caller_enter i c l) a = absurd (ground (arith, a.owned))
step-IsAbandoned n (caller_count i c) a = absurd (ground (arith, a.all_idle i))
step-IsAbandoned n (caller_notify i c) a = absurd (ground (arith, a.all_idle i))
step-IsAbandoned n (caller_exit i c) a = absurd (ground (arith, a.all_idle i))

Reach-IsAbandoned : {s t : State} (n : ℕ) → Reach s t → IsAbandoned n s → IsAbandoned n t
Reach-IsAbandoned n here a = a
Reach-IsAbandoned n (later r st) a = step-IsAbandoned n st (Reach-IsAbandoned n r a)

-- The defect: after stack_trace has thrown in the worker, the monitor is owned by the worker in every
-- later state, no thread is in gc_start behind RawMonitorEnter, and no other trace is made.
tracing-abandoned :
    (s t : State)
    → Reach init s
    → s.worker ≡ tracing
    → Reach (record s { worker = ended }) t
    → (t.lock ≡ some 0) × ((i : ℕ) → t.callers i ≡ idle) × (t.traces ≡ s.traces)
tracing-abandoned s t r w r' =
    let o = worker-Inv s (ap holds w) (Reach-Inv r init-Inv) in
    let a =
      Reach-IsAbandoned s.traces r'
        (record { owned = o.owned; over = refl; all_idle = o.all_idle; same_traces = refl }) in
    (a.owned, a.all_idle, a.same_traces)

step-starts :
    {s t : State} → Step s t → s.traces + s.gc_count ≤ s.starts → t.traces + t.gc_count ≤ t.starts
step-starts (worker_enter w l) h = h
step-starts (worker_wait w z) h = h
step-starts (worker_wake w l) h = h
step-starts (worker_fail w l) h = h
step-starts (worker_take w n) h = omega (arith, h)
step-starts (worker_exit w) h = h
step-starts (worker_throw w) h = h
step-starts (caller_enter i c l) h = h
step-starts (caller_count i c) h = omega (arith, h)
step-starts (caller_notify i c) h = h
step-starts (caller_exit i c) h = h

-- No more traces are made than collections have started.
traces-starts : (s : State) → Reach init s → s.traces + s.gc_count ≤ s.starts
traces-starts s here = omega arith
traces-starts s (later r st) = step-starts st (traces-starts _ r)
