-- ===== src/StackTrace/Tests.antt =====
-- Examples of a collection, its parts and its report (src/ts/signal_handler.cc).
use mathlib.Core.List.{Perm}
use jvm.Common.{
  occurs, map, ℕ, ◌≡◌, ◌⊎◌, refl, true, false, List, [], ◌∷◌, ◌++◌, Option, none, some,
  if◌then◌else◌, replicate, take, arith, ℤ, pos, negsuc, ◌==◌, ◌≤◌, ◌<◌,
}
use jvm.StackTrace.Form.{StackTraceForm, new_form, max_depth, trace, IsForm, new_form-IsForm}
use jvm.StackTrace.Handler.{
  Siginfo, Unwind, internal_handler, frames, skip_frame, answers, internal_handler-records,
}
use jvm.StackTrace.Order.{less, key, eqb_trace}
use jvm.StackTrace.Group.{unknown, unique_traces, results_of}
use jvm.StackTrace.Group.Laws.{tids_for, tids_at, results-tids_at}
use jvm.StackTrace.Signals.{Process, QueueInfo, set_difference, signal_all, reached, request}
use jvm.StackTrace.Signals.Laws.{kept}
use jvm.StackTrace.Server.{request_processor}
use jvm.StackTrace.Server
use jvm.StackTrace.Server.Collected.{refused, answered, request_processor-collect}
use jvm.Text.{codes, decode, char_digit}
use jvm.Sysutil.{Readdir, Contents, get_directory_contents, read_entries, pids_of, list_threads}
use jvm.StackTrace.Listed.{occurs-list_threads}
use jvm.StackTrace.Group.Laws.{result_tids}
use jvm.StackTrace.Acks.{Round, ready, none_ready, wait_acks, acks_before}
use jvm.StackTrace.Collect.{
  Os, internal_server_error, create_timer_failed, set_timer_failed, acks_timeout, Collected,
  collect,
}
use jvm.StackTrace.Collect.Laws.{
  opened, awaited, stack_of, signalled, collect_complete, collect-error, collect-closed,
}

abbrev cells : List ℤ
cells = replicate max_depth (pos 0)

abbrev unwinder : Unwind
unwinder = record {
  getcontext = pos 0;
  init_local = pos 0;
  steps =
      (pos 1, some 5) ∷ (pos 1, some 40) ∷ (pos 1, none) ∷ (pos 1, some 41) ∷ (pos 0, none) ∷ [];
  write_ret = pos 1;
}

abbrev form : StackTraceForm
form = new_form 7 4 cells

abbrev info : Siginfo
info = record { si_pid = 1; sival_ptr = some form }

-- Thread 8 is gone when it is signalled.
abbrev process : Process
process = record {
  pid = 1;
  uid = 2;
  signum = 50;
  tgsigqueueinfo = λ q. if q.tid == 8 then negsuc 0 else pos 0;
  memory = λ t. cells;
}

abbrev acked : Round
acked = ready false true (pos 1)

abbrev os_of : ℤ → List Round → Os
os_of settime_ret rounds = record {
  threads = 7 ∷ 8 ∷ 9 ∷ [];
  pipe_ret = pos 0;
  read_fd = 3;
  write_fd = 4;
  process = process;
  timer_fd = some 5;
  settime_ret = settime_ret;
  rounds = rounds;
  unwind = λ t. unwinder;
  symbolize = λ a. none;
}

abbrev os : Os
os = os_of (pos 0) (acked ∷ none_ready ∷ acked ∷ [])

abbrev answer : Collected
answer = record {
  results = record { trace = (pos 40, unknown) ∷ (pos 41, unknown) ∷ []; tids = 7 ∷ 9 ∷ [] } ∷ [];
  error = none;
  closed = 5 ∷ 4 ∷ 3 ∷ [];
}

collect-os : collect os ≡ some answer
unfolding collect wait_acks set_difference jvm.StackTrace.Signals.set_of
    jvm.StackTrace.Signals.insert signal_all reached results_of unique_traces less internal_handler
    jvm.StackTrace.Handler.walk jvm.StackTrace.Form.add_address request new_form key
collect-os = refl

abbrev late : Os
late = os_of (pos 0) (acked ∷ ready true false (pos 0) ∷ [])

abbrev too_late : Collected
too_late = record { results = []; error = some (acks_timeout 2 1); closed = 5 ∷ 4 ∷ 3 ∷ [] }

collect-late : collect late ≡ some too_late
unfolding collect wait_acks set_difference jvm.StackTrace.Signals.set_of
    jvm.StackTrace.Signals.insert signal_all reached
collect-late = refl

form-IsForm : IsForm form
form-IsForm = new_form-IsForm 7 4 cells refl

internal_handler-records_example :
    let h = internal_handler 1 info unwinder in
    (f' : StackTraceForm) × (h.form ≡ some f')
    × IsForm f'
    × (f'.tid ≡ form.tid)
    × (trace f' ≡ take max_depth (trace form ++ frames (skip_frame unwinder.steps)))
    × (h.written ≡ record { fd = form.ack_fd; bytes = b'y' ∷ [] } ∷ [])
internal_handler-records_example =
    internal_handler-records 1 info unwinder form refl refl form-IsForm

abbrev slot : List StackTraceForm
slot = form ∷ new_form 8 4 cells ∷ []

abbrev no_name : ℤ → Option (List ℕ)
no_name a = none

results-tids_at_example : tids_for [] (results_of no_name (unique_traces slot)) ≡ tids_at [] slot
results-tids_at_example = results-tids_at no_name [] slot

collect_complete_example :
    tids_for (pos 40 ∷ pos 41 ∷ []) answer.results
    ≡ kept (λ t. eqb_trace (pos 40 ∷ pos 41 ∷ []) (stack_of os t)) (signalled os)
collect_complete_example =
    collect_complete os answer (pos 40 ∷ pos 41 ∷ []) (λ t. refl) collect-os refl

request_processor-collect_example :
    ((answer.results ≡ [])
      × (request_processor true 6 0 (Server.request 8 answer.results ∷ []) ≡ refused 1 8 ++ []))
    ⊎ ((tids : List ℕ) × Perm tids (signalled os)
        × (answer.error ≡ none)
        × (request_processor true 6 0 (Server.request 8 answer.results ∷ [])
            ≡ answered 1 8 tids answer.results ++ []))
unfolding request_processor
request_processor-collect_example =
    request_processor-collect os answer 6 0 8 [] (λ t. refl) collect-os

collect-error_example :
    ((too_late.error ≡ none) × (awaited late ≤ acks_before late.rounds))
    ⊎ ((too_late.results ≡ [])
        × ((too_late.error ≡ some internal_server_error)
            ⊎ (too_late.error ≡ some create_timer_failed)
            ⊎ (too_late.error ≡ some set_timer_failed)
            ⊎ ((acks : ℕ) × (too_late.error ≡ some (acks_timeout (awaited late) acks))
                × (acks < awaited late))))
collect-error_example = collect-error late too_late collect-late

collect-closed_example : too_late.closed ≡ opened late
collect-closed_example = collect-closed late too_late collect-late (λ e. cc)

-- The task directory of the process, and its numbers read in base 10.
abbrev task_dir : List Readdir
task_dir =
    record { ret = pos 0; name = some (codes ".") }
    ∷ record { ret = pos 0; name = some (codes "9") }
    ∷ record { ret = pos 0; name = some (codes "7") }
    ∷ record { ret = pos 0; name = some (codes "8") }
    ∷ record { ret = pos 0; name = none }
    ∷ []

abbrev stoll : List ℕ → Option ℤ
stoll name = some (pos (decode 10 0 name))

abbrev contents : Contents
contents = record { children = codes "7" ∷ codes "8" ∷ codes "9" ∷ []; error = none; closed = true }

task_dir-contents : get_directory_contents true task_dir ≡ some contents
unfolding get_directory_contents read_entries jvm.Sysutil.insert jvm.Sysutil.before
task_dir-contents = refl

task_dir-listed : list_threads stoll true task_dir ≡ some (map pos os.threads)
unfolding list_threads get_directory_contents read_entries jvm.Sysutil.insert jvm.Sysutil.before
    pids_of decode char_digit
task_dir-listed = refl

occurs-list_threads_example :
    occurs 9 (result_tids answer.results) ≡ (if reached process 4 9 then 1 else 0)
unfolding decode char_digit
occurs-list_threads_example =
    occurs-list_threads stoll task_dir os answer task_dir-listed collect-os refl (λ t. refl) 9
      (codes "9") contents task_dir-contents refl refl refl (omega arith)
