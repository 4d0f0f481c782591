-- ===== src/Channel/Laws.antt =====
-- What holds of every interleaving of writers and readers of an UnbufferedChannel
-- (src/ts/common/unbuffered_channel.h).
use jvm.Common.{
  ℕ, ◌≡◌, ◌⊎◌, inl, inr, sym, ◌∙◌, true, false, [], ◌∷◌, ◌++◌, none, some, arith, Bool-cases,
}
use jvm.Channel.{Zone, may_write, may_finish, finish, give_up, may_read, read}
use jvm.Channel.System.{in_zone, System, Reach}
use jvm.Channel.Invariant.{Inv, Reach-Inv, same-writer}

module _ {ℓ} {V : Type ℓ} where
  writers-Inv :
      (s : System V) (i j : ℕ) (v w : V)
      → Inv s
      → s.writer i ≡ in_zone v
      → s.writer j ≡ in_zone w
      → i ≡ j
  writers-Inv s i j v w (inl f) a b = absurd (ground (arith, f.none_inside i))
  writers-Inv s i j v w (inr (k, x, h)) a b =
      same-writer s i k v x a h ∙ sym (same-writer s j k w x b h)

  -- At any time at most one writer is in the handshake zone.
  writers_exclusive :
      {s : System V} (i j : ℕ) (v w : V)
      → Reach s
      → s.writer i ≡ in_zone v
      → s.writer j ≡ in_zone w
      → i ≡ j
  writers_exclusive {s} i j v w r a b = writers-Inv s i j v w (Reach-Inv r) a b

  delivered-Inv :
      (s : System V)
      → Inv s
      → ((s.zone.reader_in_zone ≡ false) × (s.received ≡ s.sent))
        ⊎ ((s.zone.reader_in_zone ≡ true)
            × ((i : ℕ) × (v : V) × (s.writer i ≡ in_zone v) × (s.received ≡ s.sent ++ v ∷ [])))
  delivered-Inv s (inl f) = inl (f.no_reader, f.all_sent)
  delivered-Inv s (inr (i, v, h)) = elim (Bool-cases s.zone.reader_in_zone) [
    | inl e ↦ inr (e, (i, v, h.holds, ground arith))
    | inr e ↦ inl (e, ground arith)
  ]

  -- The values received are those of the writes that have returned in time, each once and in order;
  -- only while a reader is in the zone there is one more, the value of the writer in the zone.
  pub received-sent :
      {s : System V}
      → Reach s
      → ((s.zone.reader_in_zone ≡ false) × (s.received ≡ s.sent))
        ⊎ ((s.zone.reader_in_zone ≡ true)
            × ((i : ℕ) × (v : V) × (s.writer i ≡ in_zone v) × (s.received ≡ s.sent ++ v ∷ [])))
  received-sent {s} r = delivered-Inv s (Reach-Inv r)

  read-Inv :
      (s : System V)
      → Inv s
      → may_read s.zone ≡ true
      → s.zone.closed ≡ false
      → (i : ℕ) × (v : V) × (z : Zone V) × (s.writer i ≡ in_zone v)
        × (s.zone.writer_in_zone ≡ true)
        × (read s.zone ≡ some (z, some v))
  unfolding may_read read
  read-Inv s (inl f) m o = absurd (ground arith)
  read-Inv s (inr (i, v, h)) m o =
      (i, v, record s.zone { reader_in_zone = true }, h.holds, h.a_writer, ground arith)

  -- A reader that passes its wait on an open channel finds a writer in the zone, and reads the value
  -- of that writer: the pointer is never null there.
  read-writer :
      {s : System V}
      → Reach s
      → may_read s.zone ≡ true
      → s.zone.closed ≡ false
      → (i : ℕ) × (v : V) × (z : Zone V) × (s.writer i ≡ in_zone v)
        × (s.zone.writer_in_zone ≡ true)
        × (read s.zone ≡ some (z, some v))
  read-writer {s} r = read-Inv s (Reach-Inv r)

  finish-Inv :
      (s : System V) (i : ℕ) (v : V)
      → Inv s
      → s.writer i ≡ in_zone v
      → may_finish s.zone ≡ true
      → ((finish s.zone ≡ none) × (s.zone.closed ≡ true) × (s.received ≡ s.sent))
        ⊎ ((z : Zone V) × (finish s.zone ≡ some z) × (s.received ≡ s.sent ++ v ∷ []))
  unfolding may_finish finish
  finish-Inv s i v (inl f) o m = absurd (ground (arith, f.none_inside i))
  finish-Inv s i v (inr (j, w, h)) o m = elim (Bool-cases s.zone.reader_in_zone) [
    | inl e ↦ inr (
      record s.zone { writer_in_zone = false; reader_in_zone = false },
      ground arith,
      ground (arith, same-writer s i j v w o h),
    )
    | inr e ↦ inl (ground arith, ground arith, ground arith)
  ]

  -- A writer that passes its second wait aborts the process exactly when the channel was closed
  -- before its value was read; if the value was read, the write returns, also on a closed channel.
  finish-delivered :
      {s : System V} (i : ℕ) (v : V)
      → Reach s
      → s.writer i ≡ in_zone v
      → may_finish s.zone ≡ true
      → ((finish s.zone ≡ none) × (s.zone.closed ≡ true) × (s.received ≡ s.sent))
        ⊎ ((z : Zone V) × (finish s.zone ≡ some z) × (s.received ≡ s.sent ++ v ∷ []))
  finish-delivered {s} i v r = finish-Inv s i v (Reach-Inv r)

  expire-Inv :
      (s : System V) (i : ℕ) (v : V)
      → Inv s
      → s.writer i ≡ in_zone v
      → may_finish s.zone ≡ false
      → (s.received ≡ s.sent) × (may_write (give_up s.zone) ≡ true)
  unfolding may_finish give_up may_write
  expire-Inv s i v (inl f) o m = absurd (ground (arith, f.none_inside i))
  expire-Inv s i v (inr (j, w, h)) o m = (ground arith, ground arith)

  -- A write that times out in the zone has not been read, and leaves a zone that another writer may
  -- enter.
  give_up-unread :
      {s : System V} (i : ℕ) (v : V)
      → Reach s
      → s.writer i ≡ in_zone v
      → may_finish s.zone ≡ false
      → (s.received ≡ s.sent) × (may_write (give_up s.zone) ≡ true)
  give_up-unread {s} i v r = expire-Inv s i v (Reach-Inv r)
