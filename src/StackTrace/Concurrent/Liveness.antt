-- ===== src/StackTrace/Concurrent/Liveness.antt =====
-- A collection of src/ts/signal_handler.cc whose threads all answer can always still end with
-- results, wherever its handlers stand.
use jvm.Common.{
  found_or_all, ite, ℕ, zero, suc, ◌+◌, ◌≤◌, ◌<◌, ◌≡◌, ◌⊎◌, inl, inr, refl, subst, sym, arith,
  dec_lt, ℕ_discrete, true, pos, length, ap,
}
use jvm.StackTrace.Form.{submit}
use jvm.StackTrace.Handler.{skip_frame}
use jvm.StackTrace.Collect.{Os}
use jvm.StackTrace.Collect.Laws.{awaited}
use jvm.Common.{update}
use jvm.StackTrace.Protocol.{waiting, finished}
use jvm.StackTrace.Protocol.Laws.{acks-count, count-acked, Reach-safe}
use jvm.StackTrace.Concurrent.{
  Move, move, retry, Steps, here, onward, Stage, pending, walking, walked, acked, unsent, gave_up,
  faulted, System, turn, unwinder, willing, Step, begin, decline, loop, send, lose, loop_late,
  send_late, take_ack, return_results, time_out, Reach, start, later,
}
use jvm.StackTrace.Concurrent.Refinement.{phase, turn-cases, Reach-abstract}
use jvm.StackTrace.Concurrent.Termination.{measure, Offers, Move-measure}

-- A handler that has not ended without an ack.
abbrev Answers : Stage → Type 0
Answers unsent = ¬ Unit {0}
Answers gave_up = ¬ Unit {0}
Answers a = Unit {0}

module _ (os : Os) where
  -- The unwinder starts in each signalled thread, and each write of an ack works.
  abbrev pub Healthy : Type 0
  Healthy = (i : ℕ) → i < awaited os → (willing os i ≡ true) × ((unwinder os i).write_ret ≡ pos 1)

  abbrev AllAnswer : (ℕ → Stage) → Type 0
  AllAnswer g = (i : ℕ) → i < awaited os → Answers (g i)

  update-AllAnswer :
      (g : ℕ → Stage) (i : ℕ) (a : Stage) → AllAnswer g → Answers a → AllAnswer (update g i a)
  update-AllAnswer g i a v h j lt = elim (ℕ_discrete i j) as (λ d. Answers (ite d a (g j))) [
    | yes e ↦ h
    | no ne ↦ v j lt
  ]

  module _ (healthy : Healthy) where
    Move-AllAnswer : {s t : System} → Move os s t → AllAnswer s.stage → AllAnswer t.stage
    unfolding submit
    Move-AllAnswer {s} (begin i lt p w) v = update-AllAnswer s.stage i _ v tt
    Move-AllAnswer {s} (decline i lt p w) v = absurd (ground (arith, healthy i lt))
    Move-AllAnswer {s} (loop i acks steps lt c p) v =
        update-AllAnswer s.stage i (turn steps (s.form i)).1 v (elim (turn-cases steps (s.form i)) [
          | inl (rest, e) ↦ subst Answers (sym e) tt
          | inr e ↦ subst Answers (sym e) tt
        ])
    Move-AllAnswer {s} (send i acks lt c p w) v = update-AllAnswer s.stage i acked v tt
    Move-AllAnswer {s} (lose i acks lt c p w) v = absurd (ground (arith, healthy i lt))
    Move-AllAnswer {s} (loop_late i steps lt c p) v = update-AllAnswer s.stage i faulted v tt
    Move-AllAnswer {s} (send_late i lt c p) v = update-AllAnswer s.stage i faulted v tt
    Move-AllAnswer (take_ack acks pipe c lt p) v = v
    Move-AllAnswer (return_results acks c le) v = v
    Move-AllAnswer (time_out acks c lt) v = v

    Step-AllAnswer : {s t : System} → Step os s t → AllAnswer s.stage → AllAnswer t.stage
    Step-AllAnswer (move m) v = Move-AllAnswer m v
    Step-AllAnswer (retry acks c lt) v = v

    Reach-AllAnswer : {s : System} → Reach os s → AllAnswer s.stage
    Reach-AllAnswer start = λ i lt. tt
    Reach-AllAnswer (later r st) = Step-AllAnswer st (Reach-AllAnswer r)

    -- A step after which the collector waits as before.
    abbrev Onward : System → ℕ → Type 0
    Onward s acks = (t : System) × Move os s t × (t.collector ≡ waiting acks)

    other_than_acked :
        (s : System) (acks i : ℕ) (a : Stage)
        → Reach os s
        → s.collector ≡ waiting acks
        → i < awaited os
        → s.stage i ≡ a
        → Onward s acks ⊎ (s.stage i ≡ acked)
    unfolding submit
    other_than_acked s acks i pending r c lt e = inl (_, begin i lt e (healthy i lt).0, c)
    other_than_acked s acks i (walking steps) r c lt e = inl (_, loop i acks steps lt c e, c)
    other_than_acked s acks i walked r c lt e =
        inl (_, send i acks lt c e (ground (arith, healthy i lt)), c)
    other_than_acked s acks i acked r c lt e = inr e
    other_than_acked s acks i unsent r c lt e = absurd (subst Answers e (Reach-AllAnswer r i lt) tt)
    other_than_acked s acks i gave_up r c lt e =
        absurd (subst Answers e (Reach-AllAnswer r i lt) tt)
    other_than_acked s acks i faulted r c lt e =
        absurd (Reach-safe (Reach-abstract r) (λ x. cc) i (ap phase e))

    -- While acks are missing and none can be read, a handler can go on.
    missing_ack :
        (s : System) (acks : ℕ)
        → Reach os s
        → s.collector ≡ waiting acks
        → acks < awaited os
        → s.pipe ≡ 0
        → Onward s acks
    missing_ack s acks r c lt p =
        elim (found_or_all (awaited os)
          (λ i below. other_than_acked s acks i (s.stage i) r c below refl)) [
            | inl st ↦ st
            | inr all ↦ absurd (
                omega (
                  arith,
                  acks-count acks (Reach-abstract r) c,
                  count-acked (awaited os) (λ i. phase (s.stage i))
                      (λ i below. ap phase (all i below)),
                ))
          ]

    -- The collection goes on, or returns its results.
    forward :
        (s : System) (acks : ℕ)
        → Reach os s
        → s.collector ≡ waiting acks
        → ((t : System) × Move os s t × (acks' : ℕ) × (t.collector ≡ waiting acks'))
          ⊎ ((t : System) × Move os s t × (t.collector ≡ finished))
    forward s acks r c = elim (dec_lt acks (awaited os)) [
      | no full ↦ inr (_, return_results acks c (omega arith), refl)
      | yes lt ↦ go lt s.pipe refl
    ]
      where
        go :
            acks < awaited os
            → (p : ℕ) → s.pipe ≡ p
            → ((t : System) × Move os s t × (acks' : ℕ) × (t.collector ≡ waiting acks'))
              ⊎ ((t : System) × Move os s t × (t.collector ≡ finished))
        go lt zero e = let (t, st, w) = missing_ack s acks r c lt e in inl (t, st, acks, w)
        go lt (suc p) e = inl (_, take_ack acks p c lt e, suc acks, refl)

    module _ (most : ℕ) (offers : Offers os most) where
      -- The recursion is on a bound of the steps that are left.
      finishes_from :
          (fuel : ℕ) (s₀ s : System) (acks : ℕ)
          → Reach os s
          → Steps os s₀ s
          → s.collector ≡ waiting acks
          → measure os most s < fuel
          → (t : System) × Steps os s₀ t × (t.collector ≡ finished)
      finishes_from zero s₀ s acks r p c le = absurd (omega arith)
      finishes_from (suc fuel) s₀ s acks r p c le = elim (forward s acks r c) [
        | inr (t, m, e) ↦ (t, onward p (move m), e)
        | inl (t, m, acks', e) ↦
            finishes_from fuel s₀ t acks' (later r (move m)) (onward p (move m)) e
              (omega (arith, Move-measure os most offers m))
      ]

    -- The frames of the threads have a bound.
    frames_bound :
        (n : ℕ) → (most : ℕ) × ((i : ℕ) → i < n → length (skip_frame (unwinder os i).steps) ≤ most)
    frames_bound zero = (0, λ i lt. absurd (omega arith))
    frames_bound (suc n) =
        let (most, below) = frames_bound n in
        (
          most + length (skip_frame (unwinder os n).steps),
          λ i lt. elim (ℕ_discrete i n) [
            | yes e ↦ rw e (omega arith)
            | no ne ↦ omega (arith, below i (omega arith))
          ],
        )

    -- When the unwinder starts in each signalled thread and each write of an ack works, then every
    -- run that has come to a point at which the collector waits can go on from this point so that
    -- the collector returns with results.
    pub Reach-finishes :
        (s : System) (acks : ℕ)
        → Reach os s
        → s.collector ≡ waiting acks
        → (t : System) × Steps os s t × (t.collector ≡ finished)
    Reach-finishes s acks r c =
        let (most, offers) = frames_bound (awaited os) in
        finishes_from most offers (suc (measure os most s)) s s acks r here c (omega arith)
