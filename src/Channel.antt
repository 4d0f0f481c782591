-- ===== src/Channel.antt =====
-- src/ts/common/unbuffered_channel.h (and the interface of channel.h): a channel on which a writer
-- and a reader meet. Each part of Write, Read and Close between two waits runs under the mutex, so
-- it is one function on the members; the condition variables only say when a thread looks again at
-- the predicate that it waits for.
pub mod System
pub mod Spec
pub mod Refinement
pub mod Invariant
pub mod Laws
pub mod Wakeups
pub mod Tests
use jvm.Common.{ℕ, ◌≡◌, Bool, true, false, not, ◌&&◌, ◌||◌, Option, none, some, if◌then◌else◌}

-- The members; `item` is what `item_` points to.
pub record Zone {ℓ} (V : Type ℓ) : Type ℓ where
  pub closed : Bool
  pub writer_in_zone : Bool
  pub reader_in_zone : Bool
  pub item : Option V

module _ {ℓ} {V : Type ℓ} where
  pub empty : Zone V
  empty = record { closed = false; writer_in_zone = false; reader_in_zone = false; item = none }

  -- The predicate of the first wait in Write.
  unfoldable pub may_write : Zone V → Bool
  may_write z = z.closed || not z.writer_in_zone

  -- Write from the first wait to the second. `none` is LOG(FATAL).
  unfoldable pub enter : Zone V → V → Option (Zone V)
  enter z v = if z.closed then none else some (record z { writer_in_zone = true; item = some v })

  -- The predicate of the second wait.
  unfoldable pub may_finish : Zone V → Bool
  may_finish z = z.closed || z.reader_in_zone

  -- Write after a successful handshake. `none` is LOG(FATAL).
  unfoldable pub finish : Zone V → Option (Zone V)
  finish z =
      if not z.reader_in_zone && z.closed
      then none
      else some (record z { writer_in_zone = false; reader_in_zone = false })

  -- Write when the second wait has timed out.
  unfoldable pub give_up : Zone V → Zone V
  give_up z = record z { writer_in_zone = false }

  -- The predicate of the wait in Read.
  unfoldable pub may_read : Zone V → Bool
  may_read z = z.closed || (not z.reader_in_zone && z.writer_in_zone)

  -- Read after its wait: the value, or `none` when it returns false on a closed channel. An
  -- `item_` that is null cannot be read: the outer `none`.
  unfoldable pub read : Zone V → Option (Zone V × Option V)
  read z =
      if z.closed
      then some (z, none)
      else elim z.item [ none ↦ none | some v ↦ some (record z { reader_in_zone = true }, some v) ]

  -- Close. `none` is LOG(FATAL).
  unfoldable pub close : Zone V → Option (Zone V)
  close z = if z.closed then none else some (record z { closed = true })
