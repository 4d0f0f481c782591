-- ===== src/StackTrace/Collect/Laws.antt =====
-- What StackTraceCollector::Collect of src/ts/signal_handler.cc promises.
use mathlib.Core.List.{Perm}
use jvm.Common.{
  ℕ, ◌≡◌, ◌≢◌, ◌⊎◌, ◌≤◌, refl, ap, ap₂, ◌∙◌, ◌<◌, ◌&&◌, List, [], ◌∷◌, none, some, map,
  if◌then◌else◌, length, take, ℤ, pos, negsuc, eqb_ℤ, arith, Bool-cases, inl, inr, Option-cases,
}
use jvm.StackTrace.Form.{
  StackTraceForm, IsForm, max_depth, new_form, new_form-IsForm, trace-new_form,
}
use jvm.StackTrace.Handler.{
  Siginfo, Unwind, frames, skip_frame, answers, internal_handler-records, internal_handler-ignores,
}
use jvm.StackTrace.Order.{key, key-trace, eqb_trace}
use jvm.StackTrace.Group.{unique_traces, results_of}
use jvm.StackTrace.Group.Laws.{tids_for, tids_at, result_tids, results-tids_at, results-perm}
use jvm.StackTrace.Signals.{Signalled, set_of, set_difference, signal_all, request, reached}
use jvm.StackTrace.Signals.Laws.{kept, signal_all-slot, set_of-IsIncreasing}
use jvm.StackTrace.Acks.{Waited, all_acked, timed_out, blocked, acks_before, wait_acks_lem}
use jvm.StackTrace.Collect.{
  Os, internal_server_error, create_timer_failed, set_timer_failed, acks_timeout, Collected,
  delivered, filled, finish, collect,
}

-- The descriptors that a call has opened when it returns.
abbrev pub opened : Os → List ℕ
opened os = if eqb_ℤ os.pipe_ret (negsuc 0) then [] else elim os.timer_fd [
  | none ↦ os.write_fd ∷ os.read_fd ∷ []
  | some timer ↦ timer ∷ os.write_fd ∷ os.read_fd ∷ []
]

finish-closed :
    (os : Os) (timer : ℕ) (s : Signalled) (w : Waited) (n : ℕ) (c : Collected)
    → finish os timer s w n ≡ some c
    → (c.closed ≡ timer ∷ os.write_fd ∷ os.read_fd ∷ []) × (c.error ≢ some set_timer_failed)
unfolding finish
finish-closed os timer s all_acked n c h = ground arith
finish-closed os timer s (timed_out acks) n c h = ground arith
finish-closed os timer s (blocked acks) n c h = cc

-- Every return but the one with the error of a timer that cannot be set closes exactly the
-- descriptors that the call has opened.
pub collect-closed :
    (os : Os) (c : Collected)
    → collect os ≡ some c
    → c.error ≢ some set_timer_failed
    → c.closed ≡ opened os
unfolding collect
collect-closed os c h ne = ground (arith, finish-closed os)

-- When the call returns with the error of a timer that cannot be set, the descriptor of the timer
-- is open and is the only one that the call has opened and not closed.
collect-timer_leak :
    (os : Os) (c : Collected)
    → collect os ≡ some c
    → c.error ≡ some set_timer_failed
    → (timer : ℕ) × (os.timer_fd ≡ some timer) × (opened os ≡ timer ∷ c.closed)
unfolding collect
collect-timer_leak os c h e = elim (Option-cases os.timer_fd) [
  | inl none_ ↦ ground (arith, finish-closed os)
  | inr (timer, got) ↦ (timer, got, ground (arith, finish-closed os timer))
]

-- The number of threads whose ack is awaited.
abbrev pub awaited : Os → ℕ
awaited os =
    let all = set_of os.threads in
    length (set_difference all (signal_all os.process os.write_fd all).failed_tids)

-- A call that returns has no error, and then an ack from each signalled thread can be read; or it
-- has one of its four errors and no result, and after a timeout it reports fewer acks than threads
-- that were signalled.
pub collect-error :
    (os : Os) (c : Collected)
    → collect os ≡ some c
    → ((c.error ≡ none) × (awaited os ≤ acks_before os.rounds))
      ⊎ ((c.results ≡ [])
          × ((c.error ≡ some internal_server_error)
              ⊎ (c.error ≡ some create_timer_failed)
              ⊎ (c.error ≡ some set_timer_failed)
              ⊎ ((acks : ℕ) × (c.error ≡ some (acks_timeout (awaited os) acks))
                  × (acks < awaited os))))
unfolding collect finish
collect-error os c h = ground (arith, wait_acks_lem (awaited os) os.rounds)

-- The stack that a thread submits: none if its handler gives up.
abbrev pub stack_of : Os → ℕ → List ℤ
stack_of os t =
    let u = os.unwind t in
    if eqb_ℤ u.getcontext (pos 0) && eqb_ℤ u.init_local (pos 0)
    then take max_depth (frames (skip_frame u.steps))
    else []

module _ (os : Os) where
  asked : ℕ → StackTraceForm
  asked t = request os.process os.write_fd t

  filled-asked :
      (t : ℕ)
      → length (os.process.memory t) ≡ max_depth
      → ((filled os (asked t)).tid ≡ t) × (key (filled os (asked t)) ≡ stack_of os t)
  unfolding filled asked request new_form
  filled-asked t h = elim (Bool-cases (answers os.pid info u)) [
    | inl good ↦
        let r = internal_handler-records os.pid info u (asked t) refl good v in
        ground (
          arith,
          r.1,
          r.3,
          r.4,
          key-trace r.0 r.2,
          trace-new_form t os.write_fd (os.process.memory t),
        )
    | inr bad ↦
        let r = internal_handler-ignores os.pid info u (inr bad) in
        ground
          (arith, r.0, key-trace (asked t) v, trace-new_form t os.write_fd (os.process.memory t))
  ]
    where
      u : Unwind
      u = os.unwind t

      info : Siginfo
      info = delivered os.pid (asked t)

      v : IsForm (asked t)
      v = new_form-IsForm t os.write_fd (os.process.memory t) h

  tids_at-filled :
      (sized : (t : ℕ) → length (os.process.memory t) ≡ max_depth) (xs : List ℤ) (ts : List ℕ)
      → tids_at xs (map (filled os) (map asked ts)) ≡ kept (λ t. eqb_trace xs (stack_of os t)) ts
  tids_at-filled sized xs [] = refl
  tids_at-filled sized xs (t ∷ ts) =
      ground (arith, filled-asked t (sized t), tids_at-filled sized xs ts)

  tid-filled :
      (sized : (t : ℕ) → length (os.process.memory t) ≡ max_depth) (ts : List ℕ)
      → map (λ f. f.tid) (map (filled os) (map asked ts)) ≡ ts
  tid-filled sized [] = refl
  tid-filled sized (t ∷ ts) = ap₂ ◌∷◌ (filled-asked t (sized t)).0 (tid-filled sized ts)

  pub collect-results :
      (c : Collected)
      → collect os ≡ some c
      → c.error ≡ none
      → c.results
        ≡ results_of os.symbolize (
            unique_traces
              (map (filled os) (signal_all os.process os.write_fd (set_of os.threads)).slot))
  unfolding collect finish
  collect-results c h e = ground (arith, wait_acks_lem (awaited os) os.rounds)

  -- The threads that received a form.
  abbrev pub signalled : List ℕ
  signalled = kept (reached os.process os.write_fd) (set_of os.threads)

  slot-asked : (signal_all os.process os.write_fd (set_of os.threads)).slot ≡ map asked signalled
  unfolding asked
  slot-asked =
      signal_all-slot os.process os.write_fd (set_of os.threads) (set_of-IsIncreasing os.threads)

  -- When the form of each thread lies in memory of the declared size and the call returns no error,
  -- the results that show a stack name exactly the signalled threads that submitted this stack, in
  -- increasing order.
  pub collect_complete :
      (c : Collected) (xs : List ℤ)
      → ((t : ℕ) → length (os.process.memory t) ≡ max_depth)
      → collect os ≡ some c
      → c.error ≡ none
      → tids_for xs c.results ≡ kept (λ t. eqb_trace xs (stack_of os t)) signalled
  collect_complete c xs sized h e =
      ap (tids_for xs) (collect-results c h e)
      ∙ results-tids_at os.symbolize xs _
      ∙ ap (λ slot. tids_at xs (map (filled os) slot)) slot-asked
      ∙ tids_at-filled sized xs signalled

  -- When the form of each thread lies in memory of the declared size and the call returns no error,
  -- the threads of all results together are the signalled threads, each exactly once.
  pub collect-perm :
      (c : Collected)
      → ((t : ℕ) → length (os.process.memory t) ≡ max_depth)
      → collect os ≡ some c
      → c.error ≡ none
      → Perm (result_tids c.results) signalled
  collect-perm c sized h e =
      rw (collect-results c h e, ← tid-filled sized signalled, ← slot-asked)
        (results-perm os.symbolize _)
