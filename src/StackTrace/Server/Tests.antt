-- ===== src/StackTrace/Server/Tests.antt =====
-- Examples of the stack trace service and its report (src/ts/signal_handler.cc).
use jvm.Common.{
  occurs, ◌+◌, ℕ_discrete, ◌≡◌, refl, true, false, [], ◌∷◌, ◌++◌, none, arith, pos, negsuc,
}
use jvm.StackTrace.Group.{Result}
use jvm.StackTrace.Group.Laws.{result_tids}
use jvm.StackTrace.Pretty.{to_pretty_string}
use jvm.StackTrace.Pretty.Laws.{unlines, lines_of, to_pretty_string-lines}
use jvm.StackTrace.Server.{Calls, external_signal_handler}
use jvm.StackTrace.Server.Laws.{closed_fds}
use jvm.StackTrace.Server.Install.{
  Start, Installed, external_handler_state, start_request_processor, get_external_handler_state,
  sigaction, install_external_handler,
}
use jvm.StackTrace.Server.Requests
use jvm.StackTrace.Server.Requests.{
  Service, signalled, asked_directly, served, handle, backtrace, serve, effects,
}
use jvm.StackTrace.Server.Requests.Laws.{
  opened_in, closed_in, handed_outside, all_handed, occurs-effects,
}
use jvm.Common.{update}
use jvm.StackTrace.Protocol.{
  System, Reach, start, later, fill, ack, read_ack, finish, finished, waiting, acked, init, filled,
}
use jvm.StackTrace.Protocol.Laws.{finished-acked}

abbrev result : Result
result = record { trace = (pos 40, b'f' ∷ []) ∷ []; tids = 7 ∷ 9 ∷ [] }

to_pretty_string-lines_example : to_pretty_string (result ∷ record result { tids = [] } ∷ []) ≡ (
  unlines (lines_of (result ∷ record result { tids = [] } ∷ [])),
  result_tids (result ∷ record result { tids = [] } ∷ []),
)
to_pretty_string-lines_example = to_pretty_string-lines (result ∷ record result { tids = [] } ∷ [])

-- One signalled thread, up to the return of the collector.
abbrev after_fill : System
after_fill = record init { handler = update init.handler 0 filled }

abbrev after_ack : System
after_ack = record { collector = waiting 0; pipe = 1; handler = update after_fill.handler 0 acked }

abbrev after_read : System
after_read = record { collector = waiting 1; pipe = 0; handler = after_ack.handler }

abbrev returned : System
returned = record { collector = finished; pipe = 0; handler = after_ack.handler }

returned-Reach : Reach 1 returned
unfolding ℕ_discrete
returned-Reach =
    let r₁ : Reach 1 after_fill = later start (fill 0 0 (omega arith) refl refl) in
    let r₂ : Reach 1 after_ack = later r₁ (ack 0 0 (omega arith) refl refl) in
    let r₃ : Reach 1 after_read = later r₂ (read_ack 0 0 refl (omega arith) refl) in
    later r₃ (finish 1 refl (omega arith))

finished-acked_example : returned.handler 0 ≡ acked
finished-acked_example = finished-acked returned-Reach refl 0 (omega arith)

-- The pipe of a request has the descriptors 11 and 12; the write end is sent. Then backtrace runs in
-- a forked child, whose pipe has the descriptors 13 and 14.
abbrev asking : Calls
asking = record { pipe_ret = pos 0; read_end = 11; write_end = 12; write_ret = pos 4 }

abbrev in_child : Calls
in_child = record { pipe_ret = pos 0; read_end = 13; write_end = 14; write_ret = pos 4 }

abbrev asked_twice : Service
asked_twice = backtrace 71 in_child (handle 70 70 asking Requests.idle)

abbrev answered : Service
answered = serve 6 14 [] (result ∷ []) (serve 6 12 (14 ∷ []) (result ∷ []) asked_twice)

answered-Reach : Requests.Reach 70 6 answered
unfolding handle backtrace serve external_signal_handler
answered-Reach =
    let r : Requests.Reach 70 6 asked_twice =
      Requests.later (Requests.later Requests.start (signalled 70 asking))
        (asked_directly 71 in_child) in
    Requests.later (Requests.later r (served 12 (14 ∷ []) (result ∷ []) refl refl))
      (served 14 [] (result ∷ []) refl refl)

occurs-effects_example :
    let by_server = closed_fds (effects true 6 answered) in
    (occurs 14 (opened_in 70 answered.runs) + occurs 14 (handed_outside 70 answered.runs)
      ≡ occurs 14 (closed_in 70 answered.runs) + occurs 14 by_server + occurs 14 answered.pipe)
    × (all_handed answered.runs ≡ by_server ++ answered.pipe)
    × (answered.terminated ≡ false)
unfolding handle backtrace serve external_signal_handler ℕ_discrete
occurs-effects_example = occurs-effects true 14 answered-Reach refl

abbrev bare : Installed
bare = record { state = none; handlers = λ _. none }

-- pipe2 has failed, and the memory of its result holds 0.
abbrev pipe_missing : Start
pipe_missing = record { pid = 70; pipe2_ret = negsuc 0; pipe_fd_1 = pos 0 }

pipe_missing-install : (install_external_handler 34 (pos 0) pipe_missing bare).0 ≡ true
unfolding install_external_handler get_external_handler_state external_handler_state
    start_request_processor sigaction
pipe_missing-install = refl
