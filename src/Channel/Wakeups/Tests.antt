-- ===== src/Channel/Wakeups/Tests.antt =====
-- Two readers of src/ts/common/unbuffered_channel.h sleep when a writer comes, which wakes one.
use jvm.Common.{ℕ, ◌≡◌, ◌⊎◌, refl, true, ℕ_discrete}
use jvm.Channel.{may_read, may_write, enter, empty}
use jvm.Channel.Wakeups.{
  readers, asleep, awake, predicate, same, one, System, call_write, call_read, sleep, write_enter,
  Reach, start, later,
}
use jvm.Channel.Wakeups.Sleepers.{due}
use jvm.Channel.Wakeups.Laws.{Reach-stirred}

abbrev no_args : ℕ → ℕ
no_args i = 0

-- Readers 0 and 2 sleep, and writer 1 enters with the value 7.
entered :
    (s : System ℕ) × Reach no_args s × (s.pc 2 ≡ asleep readers) × (predicate readers s.zone ≡ true)
unfolding predicate may_read may_write enter awake same ℕ_discrete empty
entered = (
  _,
  later
      (later
        (later
          (later (later (later start (call_read 0 refl)) (sleep 0 readers refl refl))
            (call_read 2 refl))
          (sleep 2 readers refl refl))
        (call_write 1 7 refl))
      (write_enter 1 _ _ refl refl refl (one 0 refl)),
  refl,
  refl,
)

Reach-stirred_example :
    (k : ℕ) × ((awake readers (entered.0.pc k) ≡ true) ⊎ (due readers (entered.0.pc k) ≡ true))
Reach-stirred_example = Reach-stirred no_args entered.0 readers 2 entered.1 entered.2 entered.3
