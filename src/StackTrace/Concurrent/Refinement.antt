-- ===== src/StackTrace/Concurrent/Refinement.antt =====
-- The turns of the handlers of src/ts/signal_handler.cc, seen as steps of StackTrace/Protocol.
use mathlib.Core.Path.{fun_ext}
use jvm.Common.{
  Bool-cases, ◌⊎◌, inl, inr, ℕ, suc, ◌≡◌, refl, ap, subst, sym, List, [], ◌∷◌, Option, none, some,
  ℤ, arith, to_int64,
}
use jvm.StackTrace.Form.{StackTraceForm, add_address}
use jvm.StackTrace.Handler.{positive}
use jvm.StackTrace.Collect.{Os}
use jvm.StackTrace.Collect.Laws.{awaited}
use jvm.StackTrace.Protocol
use jvm.Common.{update}
use jvm.StackTrace.Protocol.{
  Handler, waiting, finished, fill, ack, give_up, fill_late, ack_late, read_ack, finish, expire,
}
use jvm.StackTrace.Concurrent.{
  Move, move, retry, Stage, pending, walking, walked, acked, unsent, gave_up, faulted, System, turn,
  Move, Step, move, retry, begin, decline, loop, send, lose, loop_late, send_late, take_ack,
  return_results, time_out, Reach, start, later,
}

-- A handler has filled its form once the loop is over.
abbrev pub phase : Stage → Handler
phase pending = Handler.pending
phase (walking steps) = Handler.pending
phase walked = Handler.filled
phase acked = Handler.acked
phase unsent = Handler.filled
phase gave_up = Handler.gave_up
phase faulted = Handler.faulted

abbrev pub abstract : System → Protocol.System
abstract s = record { collector = s.collector; pipe = s.pipe; handler = λ i. phase (s.stage i) }

-- What the protocol sees of the stages.
abbrev phases : (ℕ → Stage) → ℕ → Handler
phases g i = phase (g i)

phases-update :
    (g : ℕ → Stage) (i : ℕ) (a : Stage) → phases (update g i a) ≡ update (phases g) i (phase a)
phases-update g i a = fun_ext λ j. ground arith

-- A change that the protocol does not see.
phases_same :
    (g : ℕ → Stage) (i : ℕ) (a : Stage) → phase (g i) ≡ phase a → phases (update g i a) ≡ phases g
phases_same g i a e = fun_ext λ j. ground arith

pub turn-cases :
    (steps : List (ℤ × Option ℕ)) (f : StackTraceForm)
    → ((rest : List (ℤ × Option ℕ)) × ((turn steps f).1 ≡ walking rest))
      ⊎ ((turn steps f).1 ≡ walked)
unfolding turn
turn-cases [] f = inr refl
turn-cases ((ret, none) ∷ rest) f = elim (Bool-cases (positive ret)) [
  | inl e ↦ inl (rest, ground arith)
  | inr e ↦ inr (ground arith)
]
turn-cases ((ret, some ip) ∷ rest) f = elim (Bool-cases (positive ret)) [
  | inr e ↦ inr (ground arith)
  | inl e ↦ elim (Bool-cases (add_address f (to_int64 ip)).1) [
    | inl a ↦ inl (rest, ground arith)
    | inr a ↦ inr (ground arith)
  ]
]

-- A step of the protocol, or none.
abbrev Seen : Os → System → System → Type 0
Seen os s t = Protocol.Step (awaited os) (abstract s) (abstract t) ⊎ (abstract s ≡ abstract t)

module _ (os : Os) (s : System) where
  -- Handler `i` comes to the stage `a`.
  moved :
      (i : ℕ) (a : Stage) (pipe : ℕ) (form : ℕ → StackTraceForm)
      → Protocol.Step (awaited os) (abstract s) (record {
        collector = s.collector;
        pipe = pipe;
        handler = update (phases s.stage) i (phase a);
      })
      → Seen os s
          (record { collector = s.collector; pipe = pipe; stage = update s.stage i a; form = form })
  moved i a pipe form st = inl (
      subst
        (λ h.
          Protocol.Step (awaited os) (abstract s)
            (record { collector = s.collector; pipe = pipe; handler = h }))
        (sym (phases-update s.stage i a)) st)

  hidden :
      (i : ℕ) (a : Stage) (form : ℕ → StackTraceForm)
      → phase (s.stage i) ≡ phase a
      → Seen os s (record s { stage = update s.stage i a; form = form })
  hidden i a form e =
      inr (ap (λ h. record (abstract s) { handler = h }) (sym (phases_same s.stage i a e)))

  -- Each step of a handler or of the collector is a step of the protocol or changes nothing in it.
  Move-abstract : {t : System} → Move os s t → Seen os s t
  Move-abstract (begin i lt p w) = hidden i _ s.form (ap phase p)
  Move-abstract (decline i lt p w) = moved i gave_up s.pipe s.form (give_up i lt (ap phase p))
  Move-abstract (loop i acks steps lt c p) = elim (turn-cases steps (s.form i)) [
    | inl (rest, e) ↦ hidden i _ (update s.form i (turn steps (s.form i)).0) (rw e (ap phase p))
    | inr e ↦
        moved i _ s.pipe (update s.form i (turn steps (s.form i)).0)
          (rw e (fill i acks lt c (ap phase p)))
  ]
  Move-abstract (send i acks lt c p w) =
      moved i acked (suc s.pipe) s.form (ack i acks lt c (ap phase p))
  Move-abstract (lose i acks lt c p w) = hidden i unsent s.form (ap phase p)
  Move-abstract (loop_late i steps lt c p) =
      moved i faulted s.pipe s.form (fill_late i lt c (ap phase p))
  Move-abstract (send_late i lt c p) = moved i faulted s.pipe s.form (ack_late i lt c (ap phase p))
  Move-abstract (take_ack acks pipe c lt p) = inl (read_ack acks pipe c lt p)
  Move-abstract (return_results acks c le) = inl (finish acks c le)
  Move-abstract (time_out acks c lt) = inl (expire acks c lt)

  Step-abstract : {t : System} → Step os s t → Seen os s t
  Step-abstract (move m) = Move-abstract m
  Step-abstract (retry acks c lt) = inr refl

-- Whatever the order of the turns of the unwinding loops, the acks and the waits, what is reached is
-- reached in the protocol of the collector and the handlers.
pub Reach-abstract : {os : Os} {s : System} → Reach os s → Protocol.Reach (awaited os) (abstract s)
Reach-abstract start = Protocol.start
Reach-abstract {os} (later r st) = elim (Step-abstract os _ st) [
  | inl st' ↦ Protocol.later (Reach-abstract r) st'
  | inr e ↦ subst (Protocol.Reach (awaited os)) e (Reach-abstract r)
]
