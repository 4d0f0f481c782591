-- ===== src/StackTrace/Concurrent/Laws.antt =====
-- What the forms hold when StackTraceCollector::Collect of src/ts/signal_handler.cc returns,
-- whatever the order in which the handlers ran.
use jvm.Common.{
  length-map, ◌++◌, Bool-cases, ite, ℕ, suc, ◌<◌, ◌≡◌, refl, ap, ap₂, subst, ◌∙◌, sym, true, List,
  [], ◌∷◌, Option, none, some, map, ℤ, arith, ℕ_discrete, to_int64, length, inl, inr,
}
use jvm.StackTrace.Form.{StackTraceForm, add_address}
use jvm.StackTrace.Handler.{LogMsg, no_ip, positive, walk, skip_frame, internal_handler}
use jvm.StackTrace.Group.{unique_traces, results_of}
use jvm.StackTrace.Signals.{set_of}
use jvm.StackTrace.Signals.Laws.{set_of-IsIncreasing, signal_all-tids}
use jvm.StackTrace.Collect.{Os, Collected, collect, delivered, filled}
use jvm.StackTrace.Collect.Laws.{awaited, collect-results}
use jvm.StackTrace.Protocol
use jvm.Common.{update}
use jvm.StackTrace.Protocol.{waiting, finished}
use jvm.StackTrace.Protocol.Laws.{finished-acked}
use jvm.StackTrace.Concurrent.{
  Move, move, retry, Stage, pending, walking, walked, acked, unsent, gave_up, faulted, System, turn,
  form_at, slot, unwinder, willing, Step, begin, decline, loop, send, lose, loop_late, send_late,
  take_ack, return_results, time_out, Reach, start, later, forms, report,
}
use jvm.StackTrace.Concurrent.Refinement.{phase, Reach-abstract}

-- The messages have no effect on the form.
walk-log :
    (steps : List (ℤ × Option ℕ)) (f : StackTraceForm) (log : List LogMsg)
    → (walk steps f log).0 ≡ (walk steps f []).0
unfolding walk
walk-log [] f log = refl
walk-log ((ret, none) ∷ rest) f log =
    ground (arith, walk-log rest f (log ++ no_ip ∷ []), walk-log rest f (no_ip ∷ []))
walk-log ((ret, some ip) ∷ rest) f log =
    ground (arith, walk-log rest (add_address f (to_int64 ip)).0 log)

module _ (os : Os) where
  -- What the handler of a form makes of it when nothing else runs.
  abbrev final : ℕ → StackTraceForm
  final i = (walk (skip_frame (unwinder os i).steps) (form_at (slot os) i) []).0

  -- What a form holds at each stage of its handler.
  abbrev IsOn : ℕ → Stage → StackTraceForm → Type 0
  IsOn i pending g = g ≡ form_at (slot os) i
  IsOn i (walking steps) g = (willing os i ≡ true) × ((walk steps g []).0 ≡ final i)
  IsOn i walked g = (willing os i ≡ true) × (g ≡ final i)
  IsOn i acked g = (willing os i ≡ true) × (g ≡ final i)
  IsOn i unsent g = (willing os i ≡ true) × (g ≡ final i)
  IsOn i gave_up g = Unit {0}
  IsOn i faulted g = Unit {0}

  comes :
      (i : ℕ) (steps : List (ℤ × Option ℕ)) (g g' : StackTraceForm) (a : Stage)
      → turn steps g ≡ (g', a)
      → IsOn i a g'
      → IsOn i (turn steps g).1 (turn steps g).0
  comes i steps g g' a e h = subst (λ p. IsOn i p.1 p.0) (sym e) h

  -- A turn leaves to the others what a run of the whole loop would do.
  turn-IsOn :
      (i : ℕ) (steps : List (ℤ × Option ℕ)) (g : StackTraceForm)
      → IsOn i (walking steps) g
      → IsOn i (turn steps g).1 (turn steps g).0
  unfolding walk turn
  turn-IsOn i [] g h = h
  turn-IsOn i ((ret, none) ∷ rest) g h = elim (Bool-cases (positive ret)) [
    | inl e ↦
        comes i ((ret, none) ∷ rest) g g (walking rest) (ground arith)
          (ground (arith, walk-log rest g (no_ip ∷ [])))
    | inr e ↦ comes i ((ret, none) ∷ rest) g g walked (ground arith) (ground arith)
  ]
  turn-IsOn i ((ret, some ip) ∷ rest) g h = elim (Bool-cases (positive ret)) [
    | inr e ↦ comes i ((ret, some ip) ∷ rest) g g walked (ground arith) (ground arith)
    | inl e ↦ elim (Bool-cases (add_address g (to_int64 ip)).1) [
      | inl room ↦
          comes i ((ret, some ip) ∷ rest) g (add_address g (to_int64 ip)).0 (walking rest)
            (ground arith) (ground arith)
      | inr full ↦
          comes i ((ret, some ip) ∷ rest) g (add_address g (to_int64 ip)).0 walked (ground arith)
            (ground arith)
    ]
  ]

  filled-final : (i : ℕ) → willing os i ≡ true → filled os (form_at (slot os) i) ≡ final i
  unfolding filled delivered internal_handler
  filled-final i w = ground arith

  abbrev Inv : System → Type 0
  Inv s = (i : ℕ) → IsOn i (s.stage i) (s.form i)

  stage-Inv :
      (s : System) (i : ℕ) (a : Stage)
      → Inv s
      → IsOn i a (s.form i)
      → (j : ℕ) → IsOn j (update s.stage i a j) (s.form j)
  stage-Inv s i a v h j = elim (ℕ_discrete i j) as (λ d. IsOn j (ite d a (s.stage j)) (s.form j)) [
    | yes e ↦ subst (λ k. IsOn k a (s.form k)) e h
    | no ne ↦ v j
  ]

  form-Inv :
      (s : System) (i : ℕ) (a : Stage) (g : StackTraceForm)
      → Inv s
      → IsOn i a g
      → (j : ℕ) → IsOn j (update s.stage i a j) (update s.form i g j)
  form-Inv s i a g v h j =
      elim (ℕ_discrete i j) as (λ d. IsOn j (ite d a (s.stage j)) (ite d g (s.form j))) [
        | yes e ↦ subst (λ k. IsOn k a g) e h
        | no ne ↦ v j
      ]

  -- What the invariant says of a handler at a known stage.
  on : (s : System) (i : ℕ) {a : Stage} → Inv s → s.stage i ≡ a → IsOn i a (s.form i)
  on s i v e = subst (λ c. IsOn i c (s.form i)) e (v i)

  Move-Inv : {s t : System} → Move os s t → Inv s → Inv t
  Move-Inv {s} (begin i lt p w) v =
      let steps = skip_frame (unwinder os i).steps in
      stage-Inv s i (walking steps) v (w, ap (λ g. (walk steps g []).0) (on s i v p))
  Move-Inv {s} (decline i lt p w) v = stage-Inv s i gave_up v tt
  Move-Inv {s} (loop i acks steps lt c p) v =
      let r = turn steps (s.form i) in
      form-Inv s i r.1 r.0 v (turn-IsOn i steps (s.form i) (on s i v p))
  Move-Inv {s} (send i acks lt c p w) v = stage-Inv s i acked v (on s i v p)
  Move-Inv {s} (lose i acks lt c p w) v = stage-Inv s i unsent v (on s i v p)
  Move-Inv {s} (loop_late i steps lt c p) v = stage-Inv s i faulted v tt
  Move-Inv {s} (send_late i lt c p) v = stage-Inv s i faulted v tt
  Move-Inv (take_ack acks pipe c lt p) v = v
  Move-Inv (return_results acks c le) v = v
  Move-Inv (time_out acks c lt) v = v

  Step-Inv : {s t : System} → Step os s t → Inv s → Inv t
  Step-Inv (move m) v = Move-Inv m v
  Step-Inv (retry acks c lt) v = v

  Reach-Inv : {s : System} → Reach os s → Inv s
  Reach-Inv start = λ i. refl
  Reach-Inv (later r st) = Step-Inv st (Reach-Inv r)

  acked-final :
      (s : System) (i : ℕ)
      → Inv s
      → phase (s.stage i) ≡ Protocol.acked
      → s.form i ≡ filled os (form_at (slot os) i)
  acked-final s i v e = go (s.stage i) refl
    where
      go : (a : Stage) → s.stage i ≡ a → s.form i ≡ filled os (form_at (slot os) i)
      go acked q = let h = on s i v q in h.1 ∙ sym (filled-final i h.0)
      go pending q = absurd cc
      go (walking steps) q = absurd cc
      go walked q = absurd cc
      go unsent q = absurd cc
      go gave_up q = absurd cc
      go faulted q = absurd cc

forms-map :
    (h : StackTraceForm → StackTraceForm) (fs : List StackTraceForm) (g : ℕ → StackTraceForm)
    → ((i : ℕ) → i < length fs → g i ≡ h (form_at fs i))
    → forms (length fs) g ≡ map h fs
unfolding forms form_at
forms-map h [] g e = refl
forms-map h (f ∷ fs) g e =
    ap₂ ◌∷◌ (e 0 (omega arith)) (forms-map h fs (λ i. g (suc i)) (λ i lt. e (suc i) (omega arith)))

awaited-slot : (os : Os) → awaited os ≡ length (slot os)
awaited-slot os =
    ap length
      (signal_all-tids os.process os.write_fd (set_of os.threads) (set_of-IsIncreasing os.threads))
    ∙ length-map (slot os) (λ f. f.tid)

-- However the turns of the handlers and the reads of the acks interleave, when the collector returns
-- with results, each form holds what its handler alone would have written into it.
forms-filled :
    {os : Os} {s : System}
    → Reach os s
    → s.collector ≡ finished
    → forms (awaited os) s.form ≡ map (filled os) (slot os)
forms-filled {os} {s} r e = rw (awaited-slot os) (
    forms-map (filled os) (slot os) s.form λ i lt.
      acked-final os s i (Reach-Inv os r)
        (finished-acked (Reach-abstract r) e i (rw (awaited-slot os) lt)))

-- However the turns of the handlers and the reads of the acks interleave, a collector that returns
-- with results returns those of `collect`, in which each handler runs on its own, when `collect`
-- returns without an error.
pub report-collect :
    (os : Os) (s : System) (c : Collected)
    → Reach os s
    → s.collector ≡ finished
    → collect os ≡ some c
    → c.error ≡ none
    → report os s ≡ c.results
unfolding report
report-collect os s c r e h ok =
    ap (λ fs. results_of os.symbolize (unique_traces fs)) (forms-filled r e)
    ∙ sym (collect-results os c h ok)
