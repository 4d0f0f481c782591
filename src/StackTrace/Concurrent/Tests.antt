-- ===== src/StackTrace/Concurrent/Tests.antt =====
-- Two handlers of src/ts/signal_handler.cc whose turns interleave, and the report of their forms.
use jvm.Common.{
  ℕ_discrete, if◌then◌else◌, ◌==◌, ℕ, ◌≡◌, refl, true, false, List, [], ◌∷◌, Option, none, some,
  replicate, arith, ℤ, pos,
}
use jvm.StackTrace.Form.{max_depth, add_address, submit, new_form}
use jvm.StackTrace.Handler.{Unwind, internal_handler, skip_frame}
use jvm.StackTrace.Order.{less, key}
use jvm.StackTrace.Group.{unknown, unique_traces, results_of}
use jvm.StackTrace.Signals.{Process, set_of, set_difference, signal_all, reached, request}
use jvm.StackTrace.Acks.{Round, ready, wait_acks}
use jvm.StackTrace.Collect.{Os, Collected, collect, filled, delivered}
use jvm.StackTrace.Collect.Laws.{awaited}
use jvm.StackTrace.Protocol
use jvm.StackTrace.Protocol.{finished}
use jvm.StackTrace.Concurrent.{
  Move, move, Steps, System, turn, form_at, begin, loop, send, take_ack, return_results, init,
  Reach, start, later, report,
}
use jvm.StackTrace.Concurrent.Refinement.{abstract, Reach-abstract}
use jvm.StackTrace.Concurrent.Termination.{Run, Offers, AllEnded, Run-AllEnded}
use jvm.StackTrace.Concurrent.Liveness.{Healthy, Reach-finishes}
use jvm.Common.{update}
use jvm.StackTrace.Concurrent.{pending, walking}
use jvm.Common.{◌⊎◌, ◌+◌, ◌*◌, ◌≤◌}
use jvm.StackTrace.Concurrent.Laws.{report-collect}

abbrev acked : Round
acked = ready false true (pos 1)

-- What the unwinder returns after the frame of the handler: in thread 7, and in thread 9.
abbrev seventh : List (ℤ × Option ℕ)
seventh = (pos 1, some 40) ∷ (pos 1, some 41) ∷ []

abbrev ninth : List (ℤ × Option ℕ)
ninth = (pos 1, some 40) ∷ (pos 0, none) ∷ []

abbrev os : Os
os = record {
  threads = 9 ∷ 7 ∷ [];
  pipe_ret = pos 0;
  read_fd = 3;
  write_fd = 4;
  process = record {
    pid = 1;
    uid = 2;
    signum = 50;
    tgsigqueueinfo = λ q. pos 0;
    memory = λ t. replicate max_depth (pos 0);
  };
  timer_fd = some 5;
  settime_ret = pos 0;
  rounds = acked ∷ acked ∷ [];
  unwind = λ t. record {
    getcontext = pos 0;
    init_local = pos 0;
    steps = (pos 1, none) ∷ (if t == 7 then seventh else ninth);
    write_ret = pos 1;
  };
  symbolize = λ a. none;
}

run : (s : System) × Reach os s × (s.collector ≡ finished)
unfolding turn form_at add_address submit set_of jvm.StackTrace.Signals.insert set_difference
    signal_all reached request new_form delivered skip_frame ℕ_discrete
run = (
  _,
  later
      (later
        (later
          (later
            (later
              (later
                (later
                  (later
                    (later
                      (later
                        (later (later start (move (begin 0 (omega arith) refl refl)))
                          (move (begin 1 (omega arith) refl refl)))
                        (move (loop 1 0 ninth (omega arith) refl refl)))
                      (move (loop 0 0 seventh (omega arith) refl refl)))
                    (move (loop 1 0 ((pos 0, none) ∷ []) (omega arith) refl refl)))
                  (move (send 1 0 (omega arith) refl refl refl)))
                (move (loop 0 0 ((pos 1, some 41) ∷ []) (omega arith) refl refl)))
              (move (take_ack 0 0 refl (omega arith) refl)))
            (move (loop 0 1 [] (omega arith) refl refl)))
          (move (send 0 1 (omega arith) refl refl refl)))
        (move (take_ack 1 0 refl (omega arith) refl)))
      (move (return_results 2 refl (omega arith))),
  refl,
)

abbrev answer : Collected
answer = record {
  results =
      record { trace = (pos 40, unknown) ∷ []; tids = 9 ∷ [] }
      ∷ record { trace = (pos 40, unknown) ∷ (pos 41, unknown) ∷ []; tids = 7 ∷ [] }
      ∷ [];
  error = none;
  closed = 5 ∷ 4 ∷ 3 ∷ [];
}

collect-os : collect os ≡ some answer
unfolding collect filled wait_acks set_difference set_of jvm.StackTrace.Signals.insert signal_all
    reached results_of unique_traces less internal_handler jvm.StackTrace.Handler.walk add_address
    request new_form key delivered
collect-os = refl

report-collect_example : report os run.0 ≡ answer.results
report-collect_example = report-collect os run.0 answer run.1 run.2 collect-os refl

Reach-abstract_example : Protocol.Reach (awaited os) (abstract run.0)
Reach-abstract_example = Reach-abstract run.1

-- The first handler is in its loop.
abbrev entered : System
entered = record (init os) { stage = update (λ _. pending) 0 (walking seventh) }

entered-Reach : Reach os entered
unfolding turn form_at set_of jvm.StackTrace.Signals.insert set_difference signal_all reached
    request new_form delivered skip_frame ℕ_discrete
entered-Reach = later start (move (begin 0 (omega arith) refl refl))

healthy : Healthy os
unfolding delivered
healthy i lt = (refl, refl)

Reach-finishes_example : (t : System) × Steps os entered t × (t.collector ≡ finished)
Reach-finishes_example = Reach-finishes os healthy entered 0 entered-Reach refl

entered-Run : Run os 1 entered
unfolding turn form_at set_of jvm.StackTrace.Signals.insert set_difference signal_all reached
    request new_form delivered skip_frame ℕ_discrete
entered-Run = Run.moved Run.start (begin 0 (omega arith) refl refl)

two : Offers os 2
unfolding skip_frame
two i lt = ground arith

Run-AllEnded_example :
    (1 ≤ awaited os * (2 + 3) + awaited os + 1)
    × (((t : System) × Move os entered t) ⊎ AllEnded os entered)
Run-AllEnded_example = Run-AllEnded os 2 two entered-Run
