-- ===== src/Channel/System.antt =====
-- Writers and readers of one UnbufferedChannel (src/ts/common/unbuffered_channel.h), interleaved.
use jvm.Common.{update, ℕ, ◌≡◌, true, false, List, [], ◌∷◌, ◌++◌, some}
use jvm.Channel.{Zone, empty, may_write, enter, may_finish, finish, give_up, may_read, read, close}

-- A writer is outside, or has entered the zone with its value.
pub data Writer {ℓ} (V : Type ℓ) : Type ℓ where
  outside : Writer V
  in_zone : (v : V) → Writer V

-- `sent` are the values whose Write has returned without a timeout, `received` those that a Read
-- has returned, both in order.
pub record System {ℓ} (V : Type ℓ) : Type ℓ where
  pub zone : Zone V
  pub writer : ℕ → Writer V
  pub sent : List V
  pub received : List V

module _ {ℓ} {V : Type ℓ} where
  pub data Step (s : System V) : System V → Type ℓ where
    write_enter :
        (i : ℕ) (v : V) (z : Zone V)
        → s.writer i ≡ outside
        → may_write s.zone ≡ true
        → enter s.zone v ≡ some z
        → Step s (record s { zone = z; writer = update s.writer i (in_zone v) })
    write_finish :
        (i : ℕ) (v : V) (z : Zone V)
        → s.writer i ≡ in_zone v
        → may_finish s.zone ≡ true
        → finish s.zone ≡ some z
        → Step s
            (record s { zone = z; writer = update s.writer i outside; sent = s.sent ++ v ∷ [] })
    write_expire :
        (i : ℕ) (v : V)
        → s.writer i ≡ in_zone v
        → may_finish s.zone ≡ false
        → Step s (record s { zone = give_up s.zone; writer = update s.writer i outside })
    read_value :
        (v : V) (z : Zone V)
        → may_read s.zone ≡ true
        → read s.zone ≡ some (z, some v)
        → Step s (record s { zone = z; received = s.received ++ v ∷ [] })
    close_open : (z : Zone V) → close s.zone ≡ some z → Step s (record s { zone = z })

  abbrev pub init : System V
  init = record { zone = empty; writer = λ _. outside; sent = []; received = [] }

  pub data Reach : System V → Type ℓ where
    start : Reach init
    later : {s t : System V} → Reach s → Step s t → Reach t
