-- ===== src/StackTrace/Concurrent.antt =====
-- src/ts/signal_handler.cc: StackTraceCollector::Collect and the handlers that it has signalled,
-- interleaved at each turn of the unwinding loop of InternalHandler, with what the forms hold.
-- The collector stands in its fourth step. Handler `i` has the form `i` of `slot`.
pub mod Refinement
pub mod Laws
pub mod Termination
pub mod Liveness
pub mod Tests
use jvm.Common.{
  ite, ℕ, zero, suc, ◌≤◌, ◌<◌, ◌≡◌, ◌≢◌, Bool, true, false, List, [], ◌∷◌, Option, none, some, map,
  ℤ, pos, eqb_ℤ, to_int64, ℕ_discrete,
}
use jvm.StackTrace.Form.{StackTraceForm, new_form, add_address, submit}
use jvm.StackTrace.Handler.{Unwind, positive, skip_frame, answers}
use jvm.StackTrace.Group.{Result, unique_traces, results_of}
use jvm.StackTrace.Signals.{signal_all, set_of}
use jvm.StackTrace.Collect.{Os, delivered}
use jvm.StackTrace.Collect.Laws.{awaited}
use jvm.Common.{update}
use jvm.StackTrace.Protocol.{Collector, waiting, finished, expired}

-- How far a handler is: before its first check, in the loop with the results that `unw_step` and
-- `unw_get_reg` still have to give, before `Submit`, and the ways in which it ends.
pub data Stage : Type 0 where
  pending : Stage
  walking : (steps : List (ℤ × Option ℕ)) → Stage
  walked acked unsent gave_up faulted : Stage

pub record System : Type 0 where
  pub collector : Collector
  -- acks written and not yet read
  pub pipe : ℕ
  pub stage : ℕ → Stage
  pub form : ℕ → StackTraceForm

-- One turn of the `while` loop, and where the handler stands after it.
unfoldable pub turn : List (ℤ × Option ℕ) → StackTraceForm → StackTraceForm × Stage
turn [] f = (f, walked)
turn ((ret, none) ∷ rest) f = elim (positive ret) [ false ↦ (f, walked) | true ↦ (f, walking rest) ]
turn ((ret, some ip) ∷ rest) f = elim (positive ret) [
  | false ↦ (f, walked)
  | true ↦
      let (f', added) = add_address f (to_int64 ip) in
      elim added [ true ↦ (f', walking rest) | false ↦ (f', walked) ]
]

-- The vector `slot`; behind its end stands a form that no step uses.
unfoldable pub form_at : List StackTraceForm → ℕ → StackTraceForm
form_at [] i = new_form 0 0 []
form_at (f ∷ fs) zero = f
form_at (f ∷ fs) (suc i) = form_at fs i

module _ (os : Os) where
  -- The forms as the second step of the collector leaves them.
  abbrev pub slot : List StackTraceForm
  slot = (signal_all os.process os.write_fd (set_of os.threads)).slot

  abbrev pub unwinder : ℕ → Unwind
  unwinder i = os.unwind (form_at slot i).tid

  -- Whether handler `i` gets as far as the loop.
  abbrev pub willing : ℕ → Bool
  willing i = answers os.pid (delivered os.pid (form_at slot i)) (unwinder i)

  -- Whether the ack of handler `i` is written.
  abbrev pub sent : System → ℕ → Bool
  sent s i = (submit (s.form i) (unwinder i).write_ret).1

  -- The steps that change something.
  pub data Move (s : System) : System → Type 0 where
    begin :
        (i : ℕ)
        → i < awaited os
        → s.stage i ≡ pending
        → willing i ≡ true
        → Move s (record s { stage = update s.stage i (walking (skip_frame (unwinder i).steps)) })
    decline :
        (i : ℕ)
        → i < awaited os
        → s.stage i ≡ pending
        → willing i ≡ false
        → Move s (record s { stage = update s.stage i gave_up })
    loop :
        (i acks : ℕ) (steps : List (ℤ × Option ℕ))
        → i < awaited os
        → s.collector ≡ waiting acks
        → s.stage i ≡ walking steps
        → Move s (record s {
          stage = update s.stage i (turn steps (s.form i)).1;
          form = update s.form i (turn steps (s.form i)).0;
        })
    send :
        (i acks : ℕ)
        → i < awaited os
        → s.collector ≡ waiting acks
        → s.stage i ≡ walked
        → sent s i ≡ true
        → Move s (record s { stage = update s.stage i acked; pipe = suc s.pipe })
    lose :
        (i acks : ℕ)
        → i < awaited os
        → s.collector ≡ waiting acks
        → s.stage i ≡ walked
        → sent s i ≡ false
        → Move s (record s { stage = update s.stage i unsent })
    -- The accesses to a form after the collector has returned.
    loop_late :
        (i : ℕ) (steps : List (ℤ × Option ℕ))
        → i < awaited os
        → ((acks : ℕ) → s.collector ≢ waiting acks)
        → s.stage i ≡ walking steps
        → Move s (record s { stage = update s.stage i faulted })
    send_late :
        (i : ℕ)
        → i < awaited os
        → ((acks : ℕ) → s.collector ≢ waiting acks)
        → s.stage i ≡ walked
        → Move s (record s { stage = update s.stage i faulted })
    take_ack :
        (acks pipe : ℕ)
        → s.collector ≡ waiting acks
        → acks < awaited os
        → s.pipe ≡ suc pipe
        → Move s (record s { collector = waiting (suc acks); pipe = pipe })
    return_results :
        (acks : ℕ)
        → s.collector ≡ waiting acks
        → awaited os ≤ acks
        → Move s (record s { collector = finished })
    time_out :
        (acks : ℕ)
        → s.collector ≡ waiting acks
        → acks < awaited os
        → Move s (record s { collector = expired })

  -- A round of the wait may also bring nothing: select fails, nothing is ready, or the read of the
  -- ack fails. The loop then tries again.
  pub data Step (s : System) : System → Type 0 where
    move : {t : System} → Move s t → Step s t
    retry : (acks : ℕ) → s.collector ≡ waiting acks → acks < awaited os → Step s s

  abbrev pub init : System
  init = record { collector = waiting 0; pipe = 0; stage = λ _. pending; form = form_at slot }

  pub data Reach : System → Type 0 where
    start : Reach init
    later : {s t : System} → Reach s → Step s t → Reach t

  -- A run from a given point on.
  pub data Steps (s : System) : System → Type 0 where
    here : Steps s s
    onward : {t u : System} → Steps s t → Step t u → Steps s u

-- The forms of the vector `slot` as they stand.
unfoldable pub forms : ℕ → (ℕ → StackTraceForm) → List StackTraceForm
forms zero g = []
forms (suc n) g = g 0 ∷ forms n (λ i. g (suc i))

-- The results that the collector makes of the forms as they stand.
unfoldable pub report : Os → System → List Result
report os s = results_of os.symbolize (unique_traces (forms (awaited os) s.form))
