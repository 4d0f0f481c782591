-- ===== src/MemFuller.antt =====
-- src/trace_util.h, mem_fuller: threads that found the memory full wait for the agent, which lets
-- them go on one by one. A step is a call of the thread library, or the push before it.
pub mod Instance
pub mod Laws
pub mod Tests
use jvm.Common.{
  update, ℕ, ◌≡◌, ◌≢◌, Bool, true, false, List, [], ◌∷◌, ◌++◌, Option, none, some, ite, ℕ_discrete,
}
use jvm.ZQueue.{push}

-- Where a thread is: in `pending` before the lock, with the lock, in the wait, woken, with the lock
-- again; in `notify` with the lock, before and after the signal.
pub data Pc : Type 0 where
  outside queued locked asleep woken relocked : Pc
  notifying signalled : (everyone : Bool) → Pc

pub record Fuller : Type 0 where
  pub queue : List ℕ
  -- the owner of `c_mutex_`
  pub mutex : Option ℕ
  pub pc : ℕ → Pc
  -- the thread-local flag `stack_trace_`
  pub stack_trace : ℕ → Bool

-- `pthread_cond_broadcast` wakes all that wait.
unfoldable pub wake_all : (ℕ → Pc) → ℕ → Pc
wake_all f j = elim (f j) [ asleep ↦ woken | other ↦ other ]

pub data Step (s : Fuller) : Fuller → Type 0 where
  -- `pending` of a thread of the agent returns after the push
  pending_agent :
      (i now : ℕ)
      → s.pc i ≡ outside
      → s.stack_trace i ≡ true
      → Step s (record s { queue = push s.queue now })
  pending :
      (i now : ℕ)
      → s.pc i ≡ outside
      → s.stack_trace i ≡ false
      → Step s (record s { queue = push s.queue now; pc = update s.pc i queued })
  set_stack_trace :
      (i : ℕ)
      → s.pc i ≡ outside
      → Step s (record s { stack_trace = λ j. ite (ℕ_discrete i j) true (s.stack_trace j) })
  lock_pending :
      (i : ℕ)
      → s.pc i ≡ queued
      → s.mutex ≡ none
      → Step s (record s { mutex = some i; pc = update s.pc i locked })
  -- `pthread_cond_wait` gives the mutex back while it sleeps
  wait :
      (i : ℕ)
      → s.pc i ≡ locked
      → s.mutex ≡ some i
      → Step s (record s { mutex = none; pc = update s.pc i asleep })
  -- and it may return with no signal at all
  spurious : (i : ℕ) → s.pc i ≡ asleep → Step s (record s { pc = update s.pc i woken })
  relock :
      (i : ℕ)
      → s.pc i ≡ woken
      → s.mutex ≡ none
      → Step s (record s { mutex = some i; pc = update s.pc i relocked })
  unlock_pending :
      (i : ℕ)
      → s.pc i ≡ relocked
      → s.mutex ≡ some i
      → Step s (record s { mutex = none; pc = update s.pc i outside })
  lock_notify :
      (i : ℕ) (everyone : Bool)
      → s.pc i ≡ outside
      → s.mutex ≡ none
      → Step s (record s { mutex = some i; pc = update s.pc i (notifying everyone) })
  -- `pthread_cond_signal` wakes one that waits, or nobody
  signal :
      (i j : ℕ) (everyone : Bool)
      → s.pc i ≡ notifying everyone
      → s.pc j ≡ asleep
      → Step s (record s { pc = update (update s.pc j woken) i (signalled everyone) })
  signal_nobody :
      (i : ℕ) (everyone : Bool)
      → s.pc i ≡ notifying everyone
      → ((j : ℕ) → s.pc j ≢ asleep)
      → Step s (record s { pc = update s.pc i (signalled everyone) })
  -- `notify(true)` returns after the broadcast
  broadcast :
      (i : ℕ)
      → s.pc i ≡ signalled true
      → Step s (record s { pc = update (wake_all s.pc) i outside })
  unlock_notify :
      (i : ℕ)
      → s.pc i ≡ signalled false
      → s.mutex ≡ some i
      → Step s (record s { mutex = none; pc = update s.pc i outside })

pub data Steps (s : Fuller) : Fuller → Type 0 where
  here : Steps s s
  next : {t u : Fuller} → Steps s t → Step t u → Steps s u

abbrev pub init : Fuller
init = record { queue = []; mutex = none; pc = λ _. outside; stack_trace = λ _. false }
