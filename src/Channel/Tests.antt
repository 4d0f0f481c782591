-- ===== src/Channel/Tests.antt =====
-- Examples of runs of one channel (src/ts/common/unbuffered_channel.h).
use jvm.Common.{ℕ, ◌≡◌, ◌⊎◌, refl, true, false, [], ◌∷◌, ◌++◌, some, ℕ_discrete}
use jvm.Channel.{Zone, empty, may_write, enter, may_finish, finish, may_read, read}
use jvm.Common.{update}
use jvm.Channel.System.{
  outside, in_zone, System, write_enter, write_finish, read_value, Reach, start, later,
}
use jvm.Channel.Laws.{received-sent}
use jvm.Channel.Spec
use jvm.Channel.Spec.{Channel, written, Accepts}
use jvm.Channel.Refinement.{history, history-Accepts}

-- Writer 0 is in the zone with the value 5.
abbrev entered_zone : Zone ℕ
entered_zone = record {
  closed = false;
  writer_in_zone = true;
  reader_in_zone = false;
  item = some 5;
}

abbrev entered : System ℕ
entered = record {
  zone = entered_zone;
  writer = update (λ _. outside) 0 (in_zone 5);
  sent = [];
  received = [];
}

entered-Reach : Reach entered
unfolding empty may_write enter
entered-Reach = later start (write_enter 0 5 entered_zone refl refl refl)

abbrev read_zone : Zone ℕ
read_zone = record entered_zone { reader_in_zone = true }

abbrev after_read : System ℕ
after_read = record entered { zone = read_zone; received = 5 ∷ [] }

after_read-Reach : Reach after_read
unfolding may_read read
after_read-Reach = later entered-Reach (read_value 5 read_zone refl refl)

received-sent_example :
    ((after_read.zone.reader_in_zone ≡ false) × (after_read.received ≡ after_read.sent))
    ⊎ ((after_read.zone.reader_in_zone ≡ true)
        × ((i : ℕ) × (v : ℕ) × (after_read.writer i ≡ in_zone v)
            × (after_read.received ≡ after_read.sent ++ v ∷ [])))
received-sent_example = received-sent after_read-Reach

-- Writer 0 has found that its value was read, and leaves.
abbrev written_zone : Zone ℕ
written_zone = record read_zone { writer_in_zone = false; reader_in_zone = false }

abbrev after_write : System ℕ
after_write = record after_read {
  zone = written_zone;
  writer = update after_read.writer 0 outside;
  sent = 5 ∷ [];
}

after_write-Reach : Reach after_write
unfolding may_finish finish ℕ_discrete
after_write-Reach = later after_read-Reach (write_finish 0 5 written_zone refl refl refl)

after_write-history : history after_write-Reach ≡ Spec.read 5 ∷ written 5 ∷ []
unfolding after_write-Reach after_read-Reach entered-Reach
after_write-history = refl

history-Accepts_example :
    (c : Channel ℕ) × Accepts (history after_write-Reach) c
    × (c.is_closed ≡ after_write.zone.closed)
history-Accepts_example = history-Accepts after_write-Reach
