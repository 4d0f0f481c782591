-- ===== src/StackTrace/Concurrent/Termination.antt =====
-- How many moves the collector and the unwinding loops of src/ts/signal_handler.cc make.
use jvm.Common.{
  found_or_all, ℕ, zero, suc, ◌+◌, ◌-◌, ◌*◌, ◌≤◌, ◌<◌, ◌≡◌, ◌≢◌, ◌⊎◌, inl, inr, refl, arith, dec_lt,
  List, [], ◌∷◌, Option, none, some, ℤ, length, Bool-cases,
}
use native.Mathlib.Numerals.{unary_clauses}
use jvm.StackTrace.Form.{StackTraceForm}
use jvm.StackTrace.Handler.{skip_frame}
use jvm.StackTrace.Collect.{Os}
use jvm.StackTrace.Collect.Laws.{awaited}
use jvm.StackTrace.Protocol.{Collector, waiting, finished, expired}
use jvm.StackTrace.Protocol.Total.{total, total-update}
use jvm.StackTrace.Concurrent.{
  Move, Stage, pending, walking, walked, acked, unsent, gave_up, faulted, System, turn, unwinder,
  willing, begin, decline, loop, send, lose, loop_late, send_late, take_ack, return_results,
  time_out, init,
}

-- A run of `k` moves; the rounds in which the collector tries again are not counted.
pub data Run (os : Os) : ℕ → System → Type 0 where
  start : Run os 0 (init os)
  moved : {k : ℕ} {s t : System} → Run os k s → Move os s t → Run os (suc k) t
  again :
      {k : ℕ} {s : System} (acks : ℕ)
      → Run os k s
      → s.collector ≡ waiting acks
      → acks < awaited os
      → Run os k s

-- The steps that a handler has left; `most` bounds the frames of any thread.
pub moves : ℕ → Stage → ℕ
moves most pending = most + 3
moves most (walking steps) = length steps + 2
moves most walked = 1
moves most acked = 0
moves most unsent = 0
moves most gave_up = 0
moves most faulted = 0

turn-moves :
    (most : ℕ) (steps : List (ℤ × Option ℕ)) (f : StackTraceForm)
    → moves most (turn steps f).1 < length steps + 2
unfolding turn moves
turn-moves most [] f = omega arith
turn-moves most ((ret, none) ∷ rest) f = ground arith
turn-moves most ((ret, some ip) ∷ rest) f = ground arith

-- The steps that the collector has left.
unfoldable pub rounds : ℕ → Collector → ℕ
rounds n (waiting acks) = n - acks + 1
rounds n finished = 0
rounds n expired = 0

-- No handler moves any more.
abbrev pub Ended : Stage → Type 0
Ended pending = ¬ Unit {0}
Ended (walking steps) = ¬ Unit {0}
Ended walked = ¬ Unit {0}
Ended a = Unit {0}

module _ (os : Os) where
  unfoldable pub measure : ℕ → System → ℕ
  measure most s = total (moves most) (awaited os) s.stage + rounds (awaited os) s.collector

  -- Each handler offers at most `most` frames.
  abbrev pub Offers : ℕ → Type 0
  Offers most = (i : ℕ) → i < awaited os → length (skip_frame (unwinder os i).steps) ≤ most

  module _ (most : ℕ) (offers : Offers most) where
    total-pending : (n : ℕ) → total (moves most) n (λ _. pending) ≡ n * (most + 3)
    unfolding total moves
    total-pending zero = omega arith
    total-pending (suc n) = simp unary_clauses (omega (arith, total-pending n))

    pub Move-measure : {s t : System} → Move os s t → measure most t < measure most s
    unfolding measure moves rounds
    Move-measure {s} (begin i lt p w) = ground (
      arith,
      total-update (moves most) (awaited os) i s.stage (walking (skip_frame (unwinder os i).steps))
          lt,
      offers i lt,
    )
    Move-measure {s} (decline i lt p w) =
        ground (arith, total-update (moves most) (awaited os) i s.stage gave_up lt)
    Move-measure {s} (loop i acks steps lt c p) = ground (
      arith,
      total-update (moves most) (awaited os) i s.stage (turn steps (s.form i)).1 lt,
      turn-moves most steps (s.form i),
    )
    Move-measure {s} (send i acks lt c p w) =
        ground (arith, total-update (moves most) (awaited os) i s.stage acked lt)
    Move-measure {s} (lose i acks lt c p w) =
        ground (arith, total-update (moves most) (awaited os) i s.stage unsent lt)
    Move-measure {s} (loop_late i steps lt c p) =
        ground (arith, total-update (moves most) (awaited os) i s.stage faulted lt)
    Move-measure {s} (send_late i lt c p) =
        ground (arith, total-update (moves most) (awaited os) i s.stage faulted lt)
    Move-measure (take_ack acks pipe c lt p) = ground arith
    Move-measure (return_results acks c le) = ground arith
    Move-measure (time_out acks c lt) = ground arith

    Run-measure :
        {k : ℕ} {s : System}
        → Run os k s
        → k + measure most s ≤ awaited os * (most + 3) + awaited os + 1
    unfolding measure rounds
    Run-measure start = omega (arith, total-pending (awaited os))
    Run-measure (moved r st) = omega (arith, Run-measure r, Move-measure st)
    Run-measure (again acks r c lt) = Run-measure r

  module _ (s : System) (gone : (acks : ℕ) → s.collector ≢ waiting acks) where
    late_step :
        (i : ℕ) (a : Stage)
        → i < awaited os
        → s.stage i ≡ a
        → ((t : System) × Move os s t) ⊎ Ended a
    late_step i pending lt e = elim (Bool-cases (willing os i)) [
      | inl w ↦ inl (_, begin i lt e w)
      | inr w ↦ inl (_, decline i lt e w)
    ]
    late_step i (walking steps) lt e = inl (_, loop_late i steps lt gone e)
    late_step i walked lt e = inl (_, send_late i lt gone e)
    late_step i acked lt e = inr tt
    late_step i unsent lt e = inr tt
    late_step i gave_up lt e = inr tt
    late_step i faulted lt e = inr tt

    late_steps : ((t : System) × Move os s t) ⊎ ((i : ℕ) → i < awaited os → Ended (s.stage i))
    late_steps = found_or_all (awaited os) (λ i lt. late_step i (s.stage i) lt refl)

  -- What stands where no move is left.
  abbrev pub AllEnded : System → Type 0
  AllEnded s =
      ((s.collector ≡ finished) ⊎ (s.collector ≡ expired))
      × ((i : ℕ) → i < awaited os → Ended (s.stage i))

  progress :
      (s : System) (c : Collector) → s.collector ≡ c → ((t : System) × Move os s t) ⊎ AllEnded s
  progress s (waiting acks) e = elim (dec_lt acks (awaited os)) [
    | yes lt ↦ inl (_, time_out acks e lt)
    | no full ↦ inl (_, return_results acks e (omega arith))
  ]
  progress s finished e = elim (late_steps s (λ acks w. cc)) [
    | inl st ↦ inl st
    | inr ended ↦ inr (inl e, ended)
  ]
  progress s expired e = elim (late_steps s (λ acks w. cc)) [
    | inl st ↦ inl st
    | inr ended ↦ inr (inr e, ended)
  ]

  -- When the unwinder offers at most `most` frames in each thread, a run in which `n` threads are
  -- signalled has at most n * (most + 3) + n + 1 moves, whatever the order of the turns of the
  -- unwinding loops, and however often the collector tries again after a failed select or read, which
  -- has no bound. Where no move is left, the collector has returned and each handler has ended.
  pub Run-AllEnded :
      {k : ℕ} {s : System} (most : ℕ)
      → Offers most
      → Run os k s
      → (k ≤ awaited os * (most + 3) + awaited os + 1) × (((t : System) × Move os s t) ⊎ AllEnded s)
  Run-AllEnded {s = s} most offers r =
      (omega (arith, Run-measure most offers r), progress s s.collector refl)
