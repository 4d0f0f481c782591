-- ===== src/StackTrace/Handler.antt =====
-- src/ts/signal_handler.cc, InternalHandler: the signal handler that records the stack of the
-- thread that receives the signal. libunwind and `write` are arguments: what each call returns.
use jvm.Common.{
  ℕ, ◌≡◌, refl, ap, ◌∙◌, sym, Bool, true, false, not, List, [], ◌∷◌, ◌++◌, Option, none, some,
  arith, ◌==◌, if◌then◌else◌, length, take, ℤ, pos, negsuc, eqb_ℤ, to_int64, append_assoc,
  append-nil, take-append_take, take-append_left, take-all, ◌&&◌, ◌⊎◌, length-take,
}
use jvm.StackTrace.Form.{
  StackTraceForm, Written, add_address, submit, trace, max_depth, IsForm, add_address-IsForm,
  add_address-trace, add_address-full, add_address-full_trace, add_address-tid,
}

pub record Siginfo : Type 0 where
  pub si_pid : ℕ
  pub sival_ptr : Option StackTraceForm

-- The results of the calls: each `unw_step` with the `unw_get_reg` after it (`none` is a failure).
pub record Unwind : Type 0 where
  pub getcontext : ℤ
  pub init_local : ℤ
  pub steps : List (ℤ × Option ℕ)
  pub write_ret : ℤ

pub data LogMsg : Type 0 where
  outsider_pid no_form no_context no_cursor no_ip no_submit : LogMsg

-- What the handler leaves: the form behind the pointer, what was written, the messages.
pub record Handled : Type 0 where
  pub form : Option StackTraceForm
  pub written : List Written
  pub log : List LogMsg

abbrev pub positive : ℤ → Bool
positive (pos n) = not (n == 0)
positive (negsuc n) = false

-- The `while (unw_step(&cursor) > 0)` loop.
unfoldable pub walk :
    List (ℤ × Option ℕ) → StackTraceForm → List LogMsg → StackTraceForm × List LogMsg
walk [] f log = (f, log)
walk ((ret, none) ∷ rest) f log = elim (positive ret) [
  | false ↦ (f, log)
  | true ↦ walk rest f (log ++ no_ip ∷ [])
]
walk ((ret, some ip) ∷ rest) f log = elim (positive ret) [
  | false ↦ (f, log)
  | true ↦
      let (f', added) = add_address f (to_int64 ip) in
      elim added [ true ↦ walk rest f' log | false ↦ (f', log) ]
]

-- The first `unw_step` skips the frame of the handler, whatever it returns.
unfoldable pub skip_frame : List (ℤ × Option ℕ) → List (ℤ × Option ℕ)
skip_frame [] = []
skip_frame (s ∷ rest) = rest

fill_form : StackTraceForm → Unwind → Handled
fill_form f u =
    let (f', log) = walk (skip_frame u.steps) f [] in
    let (w, sent) = submit f' u.write_ret in
    record { form = some f'; written = w ∷ []; log = if sent then log else log ++ no_submit ∷ [] }

ignored : Option StackTraceForm → LogMsg → Handled
ignored form msg = record { form = form; written = []; log = msg ∷ [] }

handle_form : Option StackTraceForm → Unwind → Handled
unfolding fill_form ignored
handle_form none u = ignored none no_form
handle_form (some f) u =
    if not (eqb_ℤ u.getcontext (pos 0))
    then ignored (some f) no_context
    else if not (eqb_ℤ u.init_local (pos 0))
    then ignored (some f) no_cursor
    else fill_form f u

unfoldable pub internal_handler : ℕ → Siginfo → Unwind → Handled
unfolding handle_form ignored fill_form skip_frame
internal_handler pid info u =
    if not (info.si_pid == pid)
    then ignored info.sival_ptr outsider_pid
    else handle_form info.sival_ptr u

-- The addresses that the unwinder offers, before any cut.
unfoldable pub frames : List (ℤ × Option ℕ) → List ℤ
frames [] = []
frames ((ret, none) ∷ rest) = elim (positive ret) [ false ↦ [] | true ↦ frames rest ]
frames ((ret, some ip) ∷ rest) = elim (positive ret) [
  | false ↦ []
  | true ↦ to_int64 ip ∷ frames rest
]

trace-cut_nil : (f : StackTraceForm) → IsForm f → trace f ≡ take max_depth (trace f ++ [])
trace-cut_nil f v =
    rw (append-nil (trace f))
      (sym (take-all max_depth (trace f) (omega (arith, v.within, length-take f.depth f.address))))

trace-added :
    (f : StackTraceForm) (a : ℤ) (fs : List ℤ)
    → IsForm f
    → take max_depth (trace (add_address f a).0 ++ fs) ≡ take max_depth (trace f ++ a ∷ fs)
trace-added f a fs v =
    rw (add_address-trace f a v, take-append_take max_depth (trace f ++ a ∷ []) fs)
      (ap (take max_depth) (append_assoc (trace f) (a ∷ []) fs))

trace-full :
    (f : StackTraceForm) (a : ℤ) (fs : List ℤ)
    → IsForm f
    → (add_address f a).1 ≡ false
    → trace (add_address f a).0 ≡ take max_depth (trace f ++ a ∷ fs)
trace-full f a fs v full =
    ap trace (add_address-full f a full)
    ∙ sym (take-append_left max_depth (trace f) (a ∷ fs) (add_address-full_trace f a v full))

-- The loop keeps the form well formed and appends the offered addresses to its trace, cut at the
-- capacity of the array.
pub walk-trace :
    (steps : List (ℤ × Option ℕ)) (f : StackTraceForm) (log : List LogMsg)
    → IsForm f
    → IsForm (walk steps f log).0
      × (trace (walk steps f log).0 ≡ take max_depth (trace f ++ frames steps))
unfolding walk frames
walk-trace [] f log v = (v, trace-cut_nil f v)
walk-trace ((ret, none) ∷ rest) f log v =
    ground (arith, walk-trace rest f (log ++ no_ip ∷ []) v, trace-cut_nil f v)
walk-trace ((ret, some ip) ∷ rest) f log v = ground (
  arith,
  trace-cut_nil f v,
  add_address-IsForm (to_int64 ip) v,
  walk-trace rest (add_address f (to_int64 ip)).0 log,
  trace-added f (to_int64 ip) (frames rest) v,
  trace-full f (to_int64 ip) (frames rest) v,
)

-- The loop changes neither the thread nor the descriptor of the form.
pub walk-tid :
    (steps : List (ℤ × Option ℕ)) (f : StackTraceForm) (log : List LogMsg)
    → ((walk steps f log).0.tid ≡ f.tid) × ((walk steps f log).0.ack_fd ≡ f.ack_fd)
unfolding walk
walk-tid [] f log = (refl, refl)
walk-tid ((ret, none) ∷ rest) f log = ground (arith, walk-tid rest f (log ++ no_ip ∷ []))
walk-tid ((ret, some ip) ∷ rest) f log =
    ground
      (arith, add_address-tid f (to_int64 ip), walk-tid rest (add_address f (to_int64 ip)).0 log)

-- When is a signal answered: sent by this process, with a form, and the unwinder starts.
abbrev pub answers : ℕ → Siginfo → Unwind → Bool
answers pid info u =
    (info.si_pid == pid) && eqb_ℤ u.getcontext (pos 0) && eqb_ℤ u.init_local (pos 0)

-- A signal of this process that carries a form, when the unwinder starts, leaves the form with its
-- thread and at most `max_depth` addresses: the ones that the unwinder offers after the frame of
-- the handler, cut at the capacity. Exactly one byte is written, to the descriptor of the form.
pub internal_handler-records :
    (pid : ℕ) (info : Siginfo) (u : Unwind) (f : StackTraceForm)
    → info.sival_ptr ≡ some f
    → answers pid info u ≡ true
    → IsForm f
    → let h = internal_handler pid info u in
      (f' : StackTraceForm) × (h.form ≡ some f')
      × IsForm f'
      × (f'.tid ≡ f.tid)
      × (trace f' ≡ take max_depth (trace f ++ frames (skip_frame u.steps)))
      × (h.written ≡ record { fd = f.ack_fd; bytes = b'y' ∷ [] } ∷ [])
unfolding internal_handler submit
internal_handler-records pid info u f e a v =
    let w = walk-trace (skip_frame u.steps) f [] v in
    let t = walk-tid (skip_frame u.steps) f [] in
    ((walk (skip_frame u.steps) f []).0, ground arith, w.0, t.0, w.1, ground arith)

-- Any other signal writes nothing and leaves the form behind the pointer, if any, as it was; one
-- message is logged.
pub internal_handler-ignores :
    (pid : ℕ) (info : Siginfo) (u : Unwind)
    → (info.sival_ptr ≡ none) ⊎ (answers pid info u ≡ false)
    → let h = internal_handler pid info u in
      (h.form ≡ info.sival_ptr) × (h.written ≡ []) × (length h.log ≡ 1)
unfolding internal_handler
internal_handler-ignores pid info u h = ground arith
