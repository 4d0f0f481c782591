-- ===== src/EarlierAgent/Monitor/Invariant.antt =====
-- The invariant of the monitor of src/__trace_agent.h, and that every step keeps it.
use jvm.Common.{
  ℕ, suc, ◌≡◌, ◌≢◌, ◌⊎◌, inl, inr, refl, ap, subst, Bool, true, false, none, some, arith,
  ℕ_discrete,
}
use jvm.EarlierAgent.Monitor.{
  WorkerPc, outside, inside, waiting, notified, tracing, ended, idle, entered, counted, State, init,
  notify, Step, worker_enter, worker_wait, worker_wake, worker_fail, worker_take, worker_exit,
  worker_throw, caller_enter, caller_count, caller_notify, caller_exit, Reach, here, later,
}

-- The worker has the monitor.
abbrev pub holds : WorkerPc → Bool
holds outside = false
holds inside = true
holds waiting = false
holds notified = false
holds tracing = true
holds ended = false

abbrev pub in_wait : WorkerPc → Bool
in_wait outside = false
in_wait inside = false
in_wait waiting = true
in_wait notified = false
in_wait tracing = false
in_wait ended = false

pub record IsFree (s : State) : Type 0 where
  pub free : s.lock ≡ none
  pub all_idle : (j : ℕ) → s.callers j ≡ idle
  pub not_held : holds s.worker ≡ false
  pub nothing_new : (in_wait s.worker ≡ false) ⊎ (s.gc_count ≡ 0)

pub record IsOfWorker (s : State) : Type 0 where
  pub owned : s.lock ≡ some 0
  pub all_idle : (j : ℕ) → s.callers j ≡ idle
  pub awake : in_wait s.worker ≡ false
  pub active : (holds s.worker ≡ true) ⊎ (s.worker ≡ ended)

pub record IsOfCaller (s : State) (i : ℕ) : Type 0 where
  pub owned : s.lock ≡ some (suc i)
  pub others_idle : (j : ℕ) → i ≢ j → s.callers j ≡ idle
  pub busy : s.callers i ≢ idle
  pub not_held : holds s.worker ≡ false
  pub pending :
      (in_wait s.worker ≡ false)
      ⊎ (s.callers i ≡ counted)
      ⊎ ((s.callers i ≡ entered) × (s.gc_count ≡ 0))

abbrev pub Inv : State → Type 0
Inv s = IsFree s ⊎ (IsOfWorker s ⊎ ((i : ℕ) × IsOfCaller s i))

holds-notify : (w : WorkerPc) → holds w ≡ false → holds (notify w) ≡ false
holds-notify w h = ground arith

in_wait-notify : (w : WorkerPc) → in_wait (notify w) ≡ false
in_wait-notify w = ground arith

-- A free monitor, a worker that has it, a caller that has it.
pub IsFree-Inv : (s : State) → s.lock ≡ none → Inv s → IsFree s
IsFree-Inv s l (inl f) = f
IsFree-Inv s l (inr (inl o)) = absurd (ground (arith, o.owned))
IsFree-Inv s l (inr (inr (i, o))) = absurd (ground (arith, o.owned))

pub worker-Inv : (s : State) → holds s.worker ≡ true → Inv s → IsOfWorker s
worker-Inv s h (inl f) = absurd (ground (arith, f.not_held))
worker-Inv s h (inr (inl o)) = o
worker-Inv s h (inr (inr (i, o))) = absurd (ground (arith, o.not_held))

pub caller-Inv : (s : State) (i : ℕ) → s.callers i ≢ idle → Inv s → IsOfCaller s i
caller-Inv s i b (inl f) = absurd (b (f.all_idle i))
caller-Inv s i b (inr (inl o)) = absurd (b (o.all_idle i))
caller-Inv s i b (inr (inr (j, o))) = elim (ℕ_discrete j i) [
  | yes e ↦ subst (IsOfCaller s) e o
  | no ne ↦ absurd (b (o.others_idle i ne))
]

step-Inv : {s t : State} → Step s t → Inv s → Inv t
step-Inv (worker_enter {s} w l) v = inr (
    inl (record {
      owned = refl;
      all_idle = (IsFree-Inv s l v).all_idle;
      awake = refl;
      active = inl refl;
    }))
step-Inv (worker_wait {s} w z) v = inl (record {
  free = refl;
  all_idle = (worker-Inv s (ap holds w) v).all_idle;
  not_held = refl;
  nothing_new = inr z;
})
step-Inv (worker_wake {s} w l) v = inr (
    inl (record {
      owned = refl;
      all_idle = (IsFree-Inv s l v).all_idle;
      awake = refl;
      active = inl refl;
    }))
step-Inv (worker_fail {s} w l) v = inl (record {
  free = l;
  all_idle = (IsFree-Inv s l v).all_idle;
  not_held = refl;
  nothing_new = inl refl;
})
step-Inv (worker_take {s} w n) v =
    let o = worker-Inv s (ap holds w) v in
    inr (inl (record { owned = o.owned; all_idle = o.all_idle; awake = refl; active = inl refl }))
step-Inv (worker_exit {s} w) v = inl (record {
  free = refl;
  all_idle = (worker-Inv s (ap holds w) v).all_idle;
  not_held = refl;
  nothing_new = inl refl;
})
step-Inv (worker_throw {s} w) v =
    let o = worker-Inv s (ap holds w) v in
    inr (inl (record { owned = o.owned; all_idle = o.all_idle; awake = refl; active = inr refl }))
step-Inv (caller_enter {s} i c l) v =
    let f = IsFree-Inv s l v in
    inr (
      inr (
        i,
        record {
          owned = refl;
          others_idle = λ j ne. ground (arith, f.all_idle j);
          busy = λ e. ground arith;
          not_held = f.not_held;
          pending = ground (arith, f.nothing_new);
        },
      ))
step-Inv (caller_count {s} i c) v =
    let o = caller-Inv s i (λ e. ground arith) v in
    inr (
      inr (
        i,
        record {
          owned = o.owned;
          others_idle = λ j ne. ground (arith, o.others_idle j ne);
          busy = λ e. ground arith;
          not_held = o.not_held;
          pending = inr (inl (ground arith));
        },
      ))
step-Inv (caller_notify {s} i c) v =
    let o = caller-Inv s i (λ e. ground arith) v in
    inr (
      inr (
        i,
        record {
          owned = o.owned;
          others_idle = λ j ne. ground (arith, o.others_idle j ne);
          busy = λ e. ground arith;
          not_held = holds-notify s.worker o.not_held;
          pending = inl (in_wait-notify s.worker);
        },
      ))
step-Inv (caller_exit {s} i c) v =
    let o = caller-Inv s i (λ e. ground arith) v in
    inl (record {
      free = refl;
      all_idle = λ j. ground (arith, o.others_idle j);
      not_held = o.not_held;
      nothing_new = ground (arith, o.pending);
    })

pub init-Inv : Inv init
init-Inv =
    inl (record { free = refl; all_idle = λ j. refl; not_held = refl; nothing_new = inr refl })

pub Reach-Inv : {s t : State} → Reach s t → Inv s → Inv t
Reach-Inv here v = v
Reach-Inv (later r st) v = step-Inv st (Reach-Inv r v)
