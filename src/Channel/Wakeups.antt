-- ===== src/Channel/Wakeups.antt =====
-- The condition variables of src/ts/common/unbuffered_channel.h: who sleeps in Write and Read, and
-- whom Write, Read and Close wake. A step is what a thread does while it holds the mutex, or the
-- wake-up of a thread; Close notifies after it has given the mutex back.
pub mod Sleepers
pub mod Invariant
pub mod Laws
pub mod Tests
use jvm.Common.{update, ite, ℕ, ◌≡◌, ◌≢◌, Bool, true, false, Option, none, some, ℕ_discrete}
use jvm.Channel.{Zone, empty, may_write, enter, may_finish, finish, give_up, may_read, read, close}

pub data Cv : Type 0 where
  writers readers handshake : Cv

-- A thread is outside, about to evaluate the predicate of a wait, asleep, or about to evaluate the
-- predicate for the last time since its time is up; or in Close, with the condition variable that
-- it notifies next.
pub data Pc : Type 0 where
  idle : Pc
  looking asleep expiring closing : (c : Cv) → Pc

unfoldable pub same : Cv → Cv → Bool
same writers writers = true
same readers readers = true
same handshake handshake = true
same c d = false

-- Is a thread about to evaluate the predicate of a wait?
unfoldable pub awake : Cv → Pc → Bool
unfolding same
awake c (looking d) = same c d
awake c (expiring d) = same c d
awake c p = false

unfoldable pub predicate {ℓ} : {V : Type ℓ} → Cv → Zone V → Bool
predicate writers z = may_write z
predicate readers z = may_read z
predicate handshake z = may_finish z

-- `notify_one`.
pub data Notified (c : Cv) (pc : ℕ → Pc) : (ℕ → Pc) → Type 0 where
  nobody : ((j : ℕ) → pc j ≢ asleep c) → Notified c pc pc
  one : (j : ℕ) → pc j ≡ asleep c → Notified c pc (update pc j (looking c))

-- `notify_all`.
unfoldable pub wake : Cv → Pc → Pc
unfolding same
wake c (asleep d) = elim (same c d) [ true ↦ looking d | false ↦ asleep d ]
wake c p = p

-- `arg` is the item that a thread writes.
pub record System {ℓ} (V : Type ℓ) : Type ℓ where
  pub zone : Zone V
  pub pc : ℕ → Pc
  pub arg : ℕ → V

module _ {ℓ} {V : Type ℓ} where
  pub data Step (s : System V) : System V → Type ℓ where
    call_write :
        (i : ℕ) (v : V)
        → s.pc i ≡ idle
        → Step s (record s { pc = update s.pc i (looking writers); arg = update s.arg i v })
    call_read : (i : ℕ) → s.pc i ≡ idle → Step s (record s { pc = update s.pc i (looking readers) })
    sleep :
        (i : ℕ) (c : Cv)
        → s.pc i ≡ looking c
        → predicate c s.zone ≡ false
        → Step s (record s { pc = update s.pc i (asleep c) })
    -- a wait may return with no notification
    spurious :
        (i : ℕ) (c : Cv) → s.pc i ≡ asleep c → Step s (record s { pc = update s.pc i (looking c) })
    expire :
        (i : ℕ) (c : Cv) → s.pc i ≡ asleep c → Step s (record s { pc = update s.pc i (expiring c) })
    -- Write in its first wait, and Read, return with a timeout
    time_out :
        (i : ℕ) (c : Cv)
        → s.pc i ≡ expiring c
        → c ≢ handshake
        → predicate c s.zone ≡ false
        → Step s (record s { pc = update s.pc i idle })
    time_out_zone :
        (i : ℕ) (pc : ℕ → Pc)
        → s.pc i ≡ expiring handshake
        → predicate handshake s.zone ≡ false
        → Notified writers (update s.pc i idle) pc
        → Step s (record s { zone = give_up s.zone; pc = pc })
    write_enter :
        (i : ℕ) (z : Zone V) (pc : ℕ → Pc)
        → awake writers (s.pc i) ≡ true
        → predicate writers s.zone ≡ true
        → enter s.zone (s.arg i) ≡ some z
        → Notified readers (update s.pc i (looking handshake)) pc
        → Step s (record s { zone = z; pc = pc })
    write_finish :
        (i : ℕ) (z : Zone V) (pc : ℕ → Pc)
        → awake handshake (s.pc i) ≡ true
        → predicate handshake s.zone ≡ true
        → finish s.zone ≡ some z
        → Notified writers (update s.pc i idle) pc
        → Step s (record s { zone = z; pc = pc })
    read_value :
        (i : ℕ) (v : V) (z : Zone V) (pc : ℕ → Pc)
        → awake readers (s.pc i) ≡ true
        → predicate readers s.zone ≡ true
        → read s.zone ≡ some (z, some v)
        → Notified handshake (update s.pc i idle) pc
        → Step s (record s { zone = z; pc = pc })
    read_closed :
        (i : ℕ) (z : Zone V)
        → awake readers (s.pc i) ≡ true
        → read s.zone ≡ some (z, none)
        → Step s (record s { zone = z; pc = update s.pc i idle })
    close_open :
        (i : ℕ) (z : Zone V)
        → s.pc i ≡ idle
        → close s.zone ≡ some z
        → Step s (record s { zone = z; pc = update s.pc i (closing writers) })
    notify_writers :
        (i : ℕ)
        → s.pc i ≡ closing writers
        → Step s (record s { pc = update (λ j. wake writers (s.pc j)) i (closing readers) })
    notify_readers :
        (i : ℕ)
        → s.pc i ≡ closing readers
        → Step s (record s { pc = update (λ j. wake readers (s.pc j)) i (closing handshake) })
    notify_handshake :
        (i : ℕ) (pc : ℕ → Pc)
        → s.pc i ≡ closing handshake
        → Notified handshake (update s.pc i idle) pc
        → Step s (record s { pc = pc })

  abbrev pub init : (ℕ → V) → System V
  init arg = record { zone = empty; pc = λ _. idle; arg = arg }

  pub data Reach (arg : ℕ → V) : System V → Type ℓ where
    start : Reach arg (init arg)
    later : {s t : System V} → Reach arg s → Step s t → Reach arg t
