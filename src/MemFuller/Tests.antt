-- ===== src/MemFuller/Tests.antt =====
-- Examples for mem_fuller (src/trace_util.h).
use jvm.Common.{arith, ℕ, ◌≡◌, refl, true, false, some, ℕ_discrete, ◌≢◌}
use jvm.Common.{update}
use jvm.MemFuller.{
  Fuller, asleep, outside, notifying, signalled, wake_all, lock_notify, signal_nobody, Steps, here,
  next, init,
}
use jvm.MemFuller.Instance
use jvm.MemFuller.Instance.{got, test_set, return_self}
use jvm.MemFuller.Instance.Laws.{}
use jvm.MemFuller.Laws.{owns, broadcast-abandons}

-- Thread 3 notifies everyone, and nobody waits.
abbrev notifies : Fuller
notifies = record init { mutex = some 3; pc = update init.pc 3 (notifying true) }

notifies-Steps : Steps init notifies
notifies-Steps = next here (lock_notify 3 true refl refl)

notifies-nobody : (j : ℕ) → notifies.pc j ≢ asleep
notifies-nobody j = λ e. ground arith

abbrev before_broadcast : Fuller
before_broadcast = record notifies { pc = update notifies.pc 3 (signalled true) }

before_broadcast-Steps : Steps init before_broadcast
unfolding ℕ_discrete
before_broadcast-Steps = next notifies-Steps (signal_nobody 3 true refl notifies-nobody)

abbrev after : Fuller
after = record before_broadcast { pc = update (wake_all before_broadcast.pc) 3 outside }

broadcast-abandons_example : (after.mutex ≡ some 3) × (owns (after.pc 3) ≡ false)
unfolding ℕ_discrete
broadcast-abandons_example = broadcast-abandons 3 before_broadcast-Steps refl here

-- Thread 1 has got the object; then thread 2 asks for it.
abbrev one_made : Instance.State
one_made = record { self = some 0; made = 1; pc = update (λ _. Instance.outside) 1 (got 0) }

abbrev two_got : Instance.State
two_got = record one_made { pc = update (update one_made.pc 2 Instance.returning) 2 (got 0) }

two_got-Steps : Instance.Steps one_made two_got
unfolding ℕ_discrete
two_got-Steps =
    Instance.next (Instance.next Instance.here (test_set 2 0 refl refl)) (return_self 2 0 refl refl)
