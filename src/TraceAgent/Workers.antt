-- ===== src/TraceAgent/Workers.antt =====
-- src/trace_agent.h: the threads of the agent, worker, safepoint_notify and safepoint_worker, and
-- the callbacks vm_init and gc_start that start and feed them. `gtm` is that of src/zqueue.h.
pub mod Laws
use jvm.Common.{
  ℕ, suc, ◌+◌, ◌*◌, ◌%◌, ◌≡◌, Bool, true, false, not, List, [], ◌∷◌, ◌++◌, Option, none, some,
  if◌then◌else◌, ℤ, pos, eqb_ℤ, two64,
}
use jvm.ZQueue.{Wait, Popped, item, timeout, waiting, push, try_pop}
use jvm.TraceAgent.Trace.{StackInfo, Traced, done, thrown, stack_trace}

-- Microseconds since the epoch, as a uint64_t.
unfoldable pub gtm : ℕ → ℕ → ℕ
gtm tv_sec tv_usec = (tv_sec * 1000 * 1000 + tv_usec) % two64

unfoldable pub gc_start : List ℕ → ℕ → ℕ → List ℕ
unfolding gtm push
gc_start que tv_sec tv_usec = push que (gtm tv_sec tv_usec)

-- One round of a loop: the waits of `try_pop`, and `agent_lock::stop_` when it is looked at.
pub record Round : Type 0 where
  pub waits : List (Wait ℕ)
  pub stop : Bool

pub data Ended : Type 0 where
  stopped running : Ended

-- The state of `worker`: the queue, and the collections made so far, by the time stamps taken.
pub record Worker : Type 0 where
  pub que : List ℕ
  pub traced : List ℕ

-- `worker`. A collection without printing does not throw.
unfoldable pub worker : Worker → List Round → Ended × Worker
worker w [] = (running, w)
worker w (r ∷ rs) =
    let (p, que') = try_pop w.que r.waits in
    elim p [
      | item tm ↦ worker (record { que = que'; traced = w.traced ++ tm ∷ [] }) rs
      | timeout ↦
          let w' : Worker = record w { que = que' } in
          elim r.stop [ true ↦ (stopped, w') | false ↦ worker w' rs ]
      | waiting ↦ (running, record w { que = que' })
    ]

-- `safepoint_notify`: whether it has returned, and how often it has called `notify(false)`. Each
-- round it waits on its own queue `qq`.
unfoldable pub safepoint_notify : List ℕ → List (List (Wait ℕ)) → ℕ → Bool × ℕ
safepoint_notify qq [] n = (false, n)
safepoint_notify qq (w ∷ ws) n =
    let (p, qq') = try_pop qq w in
    elim p [
      | item tm ↦ (true, suc n)
      | timeout ↦ safepoint_notify qq' ws (suc n)
      | waiting ↦ (false, suc n)
    ]

-- `safepoint_worker`: how it ends. `full` is the end after one collection with printing; `aborted`
-- when that collection throws: the thread `th` is then destroyed while it is joinable.
pub data Safepoint : Type 0 where
  full waiting_on stop_seen : Safepoint
  aborted : (err : ℤ) → Safepoint

after_trace : Traced → Safepoint
after_trace (done o) = full
after_trace (thrown err o) = aborted err

unfoldable pub safepoint_worker : List ℕ → ℕ → List StackInfo → List Round → Safepoint
unfolding after_trace
safepoint_worker que buffer stacks [] = waiting_on
safepoint_worker que buffer stacks (r ∷ rs) =
    let (p, que') = try_pop que r.waits in
    elim p [
      | item tm ↦ after_trace (stack_trace true buffer stacks)
      | timeout ↦ elim r.stop [ true ↦ stop_seen | false ↦ safepoint_worker que' buffer stacks rs ]
      | waiting ↦ waiting_on
    ]

pub data AgentThread : Type 0 where
  worker_thread safepoint_thread : AgentThread

-- `vm_init`: the agent threads that run, and the error that is thrown. `run_first` and `run_second`
-- are what RunAgentThread returns.
unfoldable pub vm_init : Bool → ℤ → ℤ → List AgentThread × Option ℤ
vm_init jvmti run_first run_second =
    if not jvmti
    then ([], none)
    else if not (eqb_ℤ run_first (pos 0))
    then ([], some run_first)
    else if not (eqb_ℤ run_second (pos 0))
    then (worker_thread ∷ [], some run_second)
    else (worker_thread ∷ safepoint_thread ∷ [], none)
