-- ===== src/EarlierAgent/Allocs/Laws.antt =====
-- What a run of signals and allocations of src/__trace_agent.h prints.
use jvm.Common.{
  zero, not, ◌==◌, ℕ, suc, ◌+◌, ◌≡◌, ◌≢◌, refl, ap, ap₂, sym, Bool-cases, inl, inr, ℤ, pos, eqb_ℤ,
  ◌∙◌, Bool, true, false, List, [], ◌∷◌, ◌++◌, length, append_assoc, append-nil, length-append,
  arith, if◌then◌else◌,
}
use jvm.TraceAgent.Trace
use jvm.TraceAgent.Trace.{Frame, Output, Traced}
use jvm.EarlierAgent.Allocs.{
  State, init, Result, returned, thrown, Alloc, Event, signal, alloc, run, filter_class,
  stack_trace, signals, trace_if_asked, vm_object_alloc, sighandler, noted,
}

-- The number of traces that are due: one at each allocation that finds a signal which came since the
-- last look of an allocation at `st_`, save those that came while this last one made its trace.
abbrev pub due : Bool → List Event → ℕ
due asked [] = 0
due asked (signal ∷ es) = due true es
due asked (alloc a ∷ es) =
    let unasked = due (not (a.during == 0)) es in
    let rest = due false es in if asked then suc rest else unasked

-- The classes of the allocations that the filter lets through.
abbrev pub shown : List Event → List (List ℕ)
shown [] = []
shown (signal ∷ es) = shown es
shown (alloc a ∷ es) =
    let rest = shown es in if filter_class a.signature then a.signature ∷ rest else rest

signals-st :
    (n : ℕ) (s : State)
    → ((signals n s).st ≡ (if s.st then true else not (n == 0)))
      × ((signals n s).traces ≡ s.traces)
      × ((signals n s).classes ≡ s.classes)
unfolding signals sighandler
signals-st zero s = ground arith
signals-st (suc n) s = ground (arith, signals-st n (sighandler s))

-- What an allocation leaves of `st_` and of the traces.
abbrev Traces : Alloc → State → State → Type 0
Traces a s t =
    (t.st ≡ (if s.st then false else not (a.during == 0)))
    × (length t.traces ≡ (if s.st then suc (length s.traces) else length s.traces))

trace_if_asked-returned :
    (a : Alloc) (s t : State)
    → trace_if_asked a s ≡ returned t
    → Traces a s t × (t.classes ≡ s.classes)
unfolding trace_if_asked
trace_if_asked-returned a s t h = after (stack_trace a.buffer a.stacks) refl
  where
    after :
        (r : Traced) → stack_trace a.buffer a.stacks ≡ r → Traces a s t × (t.classes ≡ s.classes)
    after (Trace.done o) e = ground (arith, signals-st a.during s, length-append s.traces (o ∷ []))
    after (Trace.thrown err o) e = ground (arith, signals-st a.during s)

vm_object_alloc-trace :
    (a : Alloc) (s t : State)
    → vm_object_alloc a s ≡ returned t
    → trace_if_asked a (noted a s) ≡ returned t
unfolding vm_object_alloc
vm_object_alloc-trace a s t = after (eqb_ℤ a.signature_error (pos 0)) (eqb_ℤ a.free_error (pos 0))
  where
    after :
        (b c : Bool)
        → (elim b [
          | false ↦ thrown a.signature_error s
          | true ↦ elim c [
            | false ↦ thrown a.free_error (noted a s)
            | true ↦ trace_if_asked a (noted a s)
          ]
        ])
          ≡ returned t
        → trace_if_asked a (noted a s) ≡ returned t
    after false c h = absurd (ground arith)
    after true false h = absurd (ground arith)
    after true true h = h

vm_object_alloc-returned :
    (a : Alloc) (s t : State)
    → vm_object_alloc a s ≡ returned t
    → Traces a s t × (t.classes ≡ (noted a s).classes)
unfolding noted
vm_object_alloc-returned a s t h =
    trace_if_asked-returned a (noted a s) t (vm_object_alloc-trace a s t h)

shown-noted :
    (a : Alloc) (es : List Event) (s : State)
    → (noted a s).classes ++ shown es ≡ s.classes ++ shown (alloc a ∷ es)
unfolding noted
shown-noted a es s = elim (Bool-cases (filter_class a.signature)) [
  | inl e ↦ rw (e, if◌then◌else◌) (append_assoc s.classes (a.signature ∷ []) (shown es))
  | inr e ↦ rw (e, if◌then◌else◌) refl
]

due-alloc :
    (a : Alloc) (es : List Event) (asked : Bool) (n : ℕ)
    → (if asked then suc n else n) + due (if asked then false else not (a.during == 0)) es
      ≡ n + due asked (alloc a ∷ es)
due-alloc a es true n = omega arith
due-alloc a es false n = refl

-- The rest of a run behind an allocation.
abbrev go_on : List Event → Result → Result
go_on es (returned s) = run es s
go_on es (thrown err s) = thrown err s

no : {s t : State} {err : ℤ} → thrown err s ≢ returned t
no h = absurd (ground arith)

run-from :
    (es : List Event) (s s' : State)
    → run es s ≡ returned s'
    → (length s'.traces ≡ length s.traces + due s.st es) × (s'.classes ≡ s.classes ++ shown es)
unfolding run
run-from [] s s' h = ground (arith, append-nil s.classes)
run-from (signal ∷ es) s s' h = run-from es (sighandler s) s' h
run-from (alloc a ∷ es) s s' h = after (vm_object_alloc a s) refl (λ t. run-from es t s')
  where
    after :
        (r : Result)
        → vm_object_alloc a s ≡ r
        → ((t : State)
            → run es t ≡ returned s'
            → (length s'.traces ≡ length t.traces + due t.st es)
              × (s'.classes ≡ t.classes ++ shown es))
        → (length s'.traces ≡ length s.traces + due s.st (alloc a ∷ es))
          × (s'.classes ≡ s.classes ++ shown (alloc a ∷ es))
    after (returned t) e ih =
        let v = vm_object_alloc-returned a s t e in
        let r = ih t (sym (ap (go_on es) e) ∙ h) in
        (
          r.0 ∙ ap₂ ◌+◌ v.0.1 (ap (λ b. due b es) v.0.0) ∙ due-alloc a es s.st (length s.traces),
          r.1 ∙ ap (λ cs. cs ++ shown es) v.1 ∙ shown-noted a es s,
        )
    after (thrown err t) e ih = absurd (no (sym (ap (go_on es) e) ∙ h))

-- In a run that ends without an exception, the traces are those that are due: an allocation makes
-- one if a signal has come since the last allocation looked at `st_`, several signals counting as one;
-- but the signals that come while an allocation makes its trace are lost. The classes that are
-- printed are those that filter_class lets through, in order.
pub run-due :
    (es : List Event) (s : State)
    → run es init ≡ returned s
    → (length s.traces ≡ due false es) × (s.classes ≡ shown es)
run-due es s h = ground (arith, run-from es init s h)
