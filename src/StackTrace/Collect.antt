-- ===== src/StackTrace/Collect.antt =====
-- src/ts/signal_handler.cc, StackTraceCollector::Collect: signal every thread, wait for the acks,
-- group the stacks. The system calls are arguments, in the record `Os`.
pub mod Laws
use jvm.Common.{
  ℕ, ◌≡◌, Bool, true, false, List, [], ◌∷◌, Option, none, some, map, if◌then◌else◌, length, ℤ, pos,
  negsuc, eqb_ℤ,
}
use jvm.StackTrace.Form.{StackTraceForm}
use jvm.StackTrace.Handler.{Siginfo, Unwind, internal_handler}
use jvm.StackTrace.Group.{Result, unique_traces, results_of}
use jvm.StackTrace.Signals.{Process, QueueInfo, Signalled, set_of, set_difference, signal_all}
use jvm.StackTrace.Acks.{Round, Waited, all_acked, timed_out, blocked, wait_acks}

pub record Os : Type 0 where
  -- what `Sysutil::ListThreads` returns
  pub threads : List ℕ
  pub pipe_ret : ℤ
  pub read_fd : ℕ
  pub write_fd : ℕ
  pub process : Process
  pub open process use {pid}
  -- `none` where `timerfd_create` fails
  pub timer_fd : Option ℕ
  pub settime_ret : ℤ
  pub rounds : List Round
  -- the unwinder of each thread
  pub unwind : ℕ → Unwind
  pub symbolize : ℤ → Option (List ℕ)

pub data Error : Type 0 where
  internal_server_error create_timer_failed set_timer_failed : Error
  acks_timeout : (expected acks : ℕ) → Error

-- `closed` are the descriptors that the deferred actions close, in order.
pub record Collected : Type 0 where
  pub results : List Result
  pub error : Option Error
  pub closed : List ℕ

fails : ℤ → Bool
fails ret = eqb_ℤ ret (negsuc 0)

-- The signal as the thread receives it.
unfoldable pub delivered : ℕ → StackTraceForm → Siginfo
delivered pid f = record { si_pid = pid; sival_ptr = some f }

-- The form after the handler of its thread has run.
unfoldable pub filled : Os → StackTraceForm → StackTraceForm
unfolding delivered
filled os f = elim (internal_handler os.pid (delivered os.pid f) (os.unwind f.tid)).form [
  | none ↦ f
  | some f' ↦ f'
]

finish : Os → ℕ → Signalled → Waited → ℕ → Option Collected
unfolding filled
finish os timer s all_acked n = some (record {
  results = results_of os.symbolize (unique_traces (map (filled os) s.slot));
  error = none;
  closed = timer ∷ os.write_fd ∷ os.read_fd ∷ [];
})
finish os timer s (timed_out acks) n = some (record {
  results = [];
  error = some (acks_timeout n acks);
  closed = timer ∷ os.write_fd ∷ os.read_fd ∷ [];
})
finish os timer s (blocked acks) n = none

with_pipe : Os → Option Collected
unfolding finish fails
with_pipe os =
    let all = set_of os.threads in
    let s = signal_all os.process os.write_fd all in
    let n = length (set_difference all s.failed_tids) in
    elim os.timer_fd [
      | none ↦ some (record {
        results = [];
        error = some create_timer_failed;
        closed = os.write_fd ∷ os.read_fd ∷ [];
      })
      | some timer ↦
          if fails os.settime_ret
          then some (record {
            results = [];
            error = some set_timer_failed;
            closed = os.write_fd ∷ os.read_fd ∷ [];
          })
          else finish os timer s (wait_acks n 0 os.rounds) n
    ]

-- `none` while the loop is blocked in `select`.
unfoldable pub collect : Os → Option Collected
unfolding with_pipe fails
collect os =
    if fails os.pipe_ret
    then some (record { results = []; error = some internal_server_error; closed = [] })
    else with_pipe os
