-- ===== src/MemFuller/Laws.antt =====
-- The mutex of mem_fuller (src/trace_util.h), and how `notify(true)` loses it.
use jvm.Common.{ℕ, ◌≡◌, Bool, true, false, some, arith}
use jvm.Common.{update}
use jvm.MemFuller.{
  Fuller, Pc, outside, queued, locked, asleep, woken, relocked, notifying, signalled, wake_all,
  Step, pending_agent, pending, set_stack_trace, lock_pending, wait, spurious, relock,
  unlock_pending, lock_notify, signal, signal_nobody, broadcast, unlock_notify, Steps, here, next,
  init,
}

-- The places at which a thread owns the mutex.
abbrev pub owns : Pc → Bool
owns outside = false
owns queued = false
owns locked = true
owns asleep = false
owns woken = false
owns relocked = true
owns (notifying everyone) = true
owns (signalled everyone) = true

-- Only the owner of the mutex is at such a place.
abbrev pub Exclusive : Fuller → Type 0
Exclusive s = (i : ℕ) → owns (s.pc i) ≡ true → s.mutex ≡ some i

wake_all-owns : (f : ℕ → Pc) (i : ℕ) → owns (wake_all f i) ≡ owns (f i)
unfolding wake_all
wake_all-owns f i = ground arith

Step-Exclusive : {s t : Fuller} → Step s t → Exclusive s → Exclusive t
Step-Exclusive {s} (pending_agent i now o f) v = v
Step-Exclusive {s} (pending i now o f) v = λ j h. ground (arith, v j)
Step-Exclusive {s} (set_stack_trace i o) v = v
Step-Exclusive {s} (lock_pending i o m) v = λ j h. ground (arith, v j)
Step-Exclusive {s} (wait i o m) v = λ j h. ground (arith, v j)
Step-Exclusive {s} (spurious i o) v = λ j h. ground (arith, v j)
Step-Exclusive {s} (relock i o m) v = λ j h. ground (arith, v j)
Step-Exclusive {s} (unlock_pending i o m) v = λ j h. ground (arith, v j)
Step-Exclusive {s} (lock_notify i everyone o m) v = λ j h. ground (arith, v j)
Step-Exclusive {s} (signal i k everyone o p) v = λ j h. ground (arith, v i, v j)
Step-Exclusive {s} (signal_nobody i everyone o p) v = λ j h. ground (arith, v i, v j)
Step-Exclusive {s} (broadcast i o) v = λ j h. ground (arith, v i, v j, wake_all-owns s.pc j)
Step-Exclusive {s} (unlock_notify i o m) v = λ j h. ground (arith, v j)

Steps-Exclusive : {s t : Fuller} → Steps s t → Exclusive s → Exclusive t
Steps-Exclusive here v = v
Steps-Exclusive (next r st) v = Step-Exclusive st (Steps-Exclusive r v)

-- The mutex has an owner that is not at a place from which it gives it back.
record Abandoned (i : ℕ) (s : Fuller) : Type 0 where
  owned : s.mutex ≡ some i
  away : owns (s.pc i) ≡ false
  exclusive : Exclusive s

-- One step of any thread: the mutex keeps its owner, and the owner stays away.
Step-owner :
    (i : ℕ) {s t : Fuller} → Step s t → Abandoned i s → (t.mutex ≡ some i) × (owns (t.pc i) ≡ false)
Step-owner i {s} (pending_agent k now o f) v = ground (arith, v.exclusive k)
Step-owner i {s} (pending k now o f) v = ground (arith, v.exclusive k)
Step-owner i {s} (set_stack_trace k o) v = ground (arith, v.exclusive k)
Step-owner i {s} (lock_pending k o m) v = ground (arith, v.exclusive k)
Step-owner i {s} (wait k o m) v = ground (arith, v.exclusive k)
Step-owner i {s} (spurious k o) v = ground (arith, v.exclusive k)
Step-owner i {s} (relock k o m) v = ground (arith, v.exclusive k)
Step-owner i {s} (unlock_pending k o m) v = ground (arith, v.exclusive k)
Step-owner i {s} (lock_notify k everyone o m) v = ground (arith, v.exclusive k)
Step-owner i {s} (signal k j everyone o p) v = ground (arith, v.exclusive k)
Step-owner i {s} (signal_nobody k everyone o p) v = ground (arith, v.exclusive k)
Step-owner i {s} (broadcast k o) v = ground (arith, v.exclusive k, wake_all-owns s.pc i)
Step-owner i {s} (unlock_notify k o m) v = ground (arith, v.exclusive k)

Step-Abandoned : {i : ℕ} {s t : Fuller} → Step s t → Abandoned i s → Abandoned i t
Step-Abandoned {i} st v =
    let o = Step-owner i st v in
    record { owned = o.0; away = o.1; exclusive = Step-Exclusive st v.exclusive }

Steps-Abandoned : {i : ℕ} {s t : Fuller} → Steps s t → Abandoned i s → Abandoned i t
Steps-Abandoned here v = v
Steps-Abandoned (next r st) v = Step-Abandoned st (Steps-Abandoned r v)

-- The defect: `notify(true)` returns with the mutex locked. After a run in which thread `i` has come
-- to its broadcast, the mutex is owned by `i` in every state that can follow, and `i` is never
-- again at a place from which it gives the mutex back: nobody gets it any more.
pub broadcast-abandons :
    {s t : Fuller} (i : ℕ)
    → Steps init s
    → s.pc i ≡ signalled true
    → Steps (record s { pc = update (wake_all s.pc) i outside }) t
    → (t.mutex ≡ some i) × (owns (t.pc i) ≡ false)
broadcast-abandons {s} {t} i before o after =
    let v = Steps-Exclusive before (λ k h. cc) in
    let w : Abandoned i (record s { pc = update (wake_all s.pc) i outside }) = record {
      owned = ground (arith, v i);
      away = ground arith;
      exclusive = Step-Exclusive {s = s} (broadcast i o) v;
    } in
    let u = Steps-Abandoned after w in (u.owned, u.away)
