-- ===== src/Channel/Invariant.antt =====
-- The invariant of the writers and readers of an UnbufferedChannel, and that every step keeps it
-- (src/ts/common/unbuffered_channel.h).
use jvm.Common.{
  ℕ, ◌≡◌, ◌≢◌, ◌⊎◌, inl, inr, refl, true, false, [], ◌∷◌, ◌++◌, some, ℕ_discrete, arith,
  if◌then◌else◌,
}
use jvm.Channel.{Zone, empty, may_write, enter, may_finish, finish, give_up, may_read, read, close}
use jvm.Common.{update}
use jvm.Channel.System.{
  outside, in_zone, System, Step, write_enter, write_finish, write_expire, read_value, close_open,
  init, Reach, start, later,
}

module _ {ℓ} {V : Type ℓ} where
  -- The zone is free, and all that was received was sent.
  pub record IsFree (s : System V) : Type ℓ where
    pub no_writer : s.zone.writer_in_zone ≡ false
    pub no_reader : s.zone.reader_in_zone ≡ false
    pub none_inside : (j : ℕ) → s.writer j ≡ outside
    pub all_sent : s.received ≡ s.sent

  -- Writer `i` is in the zone with `v`, which a reader has taken or not.
  pub record IsHeld (s : System V) (i : ℕ) (v : V) : Type ℓ where
    pub a_writer : s.zone.writer_in_zone ≡ true
    pub holds : s.writer i ≡ in_zone v
    pub alone : (j : ℕ) → j ≢ i → s.writer j ≡ outside
    pub shows : s.zone.item ≡ some v
    pub taken : s.received ≡ (if s.zone.reader_in_zone then s.sent ++ v ∷ [] else s.sent)

  abbrev pub Inv : System V → Type ℓ
  Inv s = IsFree s ⊎ ((i : ℕ) × (v : V) × IsHeld s i v)

  init-Inv : Inv init
  unfolding empty
  init-Inv =
      inl (record { no_writer = refl; no_reader = refl; none_inside = λ j. refl; all_sent = refl })

  enter-Inv :
      (s : System V) (i : ℕ) (v : V) (z : Zone V)
      → may_write s.zone ≡ true
      → enter s.zone v ≡ some z
      → Inv s
      → Inv (record s { zone = z; writer = update s.writer i (in_zone v) })
  unfolding may_write enter
  enter-Inv s i v z m e (inl f) = inr (
    i,
    v,
    record {
      a_writer = ground arith;
      holds = ground arith;
      alone = λ j ne. ground (arith, f.none_inside j);
      shows = ground arith;
      taken = ground arith;
    },
  )
  enter-Inv s i v z m e (inr (j, w, h)) = absurd (ground arith)

  -- The writer that leaves is the one inside.
  pub same-writer :
      (s : System V) (i j : ℕ) (v w : V) → s.writer i ≡ in_zone v → IsHeld s j w → i ≡ j
  same-writer s i j v w o h = elim (ℕ_discrete i j) [
    | yes e ↦ e
    | no ne ↦ absurd (ground (arith, h.alone i ne))
  ]

  leave-none_inside :
      (s : System V) (i j : ℕ) (v w : V)
      → s.writer i ≡ in_zone v
      → IsHeld s j w
      → (k : ℕ) → update s.writer i outside k ≡ outside
  leave-none_inside s i j v w o h k = ground (arith, same-writer s i j v w o h, h.alone k)

  finish-Inv :
      (s : System V) (i : ℕ) (v : V) (z : Zone V)
      → s.writer i ≡ in_zone v
      → may_finish s.zone ≡ true
      → finish s.zone ≡ some z
      → Inv s
      → Inv (record s { zone = z; writer = update s.writer i outside; sent = s.sent ++ v ∷ [] })
  unfolding may_finish finish
  finish-Inv s i v z o m e (inl f) = absurd (ground (arith, f.none_inside i))
  finish-Inv s i v z o m e (inr (j, w, h)) = inl (record {
    no_writer = ground arith;
    no_reader = ground arith;
    none_inside = leave-none_inside s i j v w o h;
    all_sent = ground (arith, same-writer s i j v w o h);
  })

  expire-Inv :
      (s : System V) (i : ℕ) (v : V)
      → s.writer i ≡ in_zone v
      → may_finish s.zone ≡ false
      → Inv s
      → Inv (record s { zone = give_up s.zone; writer = update s.writer i outside })
  unfolding may_finish give_up
  expire-Inv s i v o m (inl f) = absurd (ground (arith, f.none_inside i))
  expire-Inv s i v o m (inr (j, w, h)) = inl (record {
    no_writer = ground arith;
    no_reader = ground arith;
    none_inside = leave-none_inside s i j v w o h;
    all_sent = ground arith;
  })

  read-Inv :
      (s : System V) (v : V) (z : Zone V)
      → may_read s.zone ≡ true
      → read s.zone ≡ some (z, some v)
      → Inv s
      → Inv (record s { zone = z; received = s.received ++ v ∷ [] })
  unfolding may_read read
  read-Inv s v z m e (inl f) = absurd (ground arith)
  read-Inv s v z m e (inr (j, w, h)) = inr (
    j,
    w,
    record {
      a_writer = ground arith;
      holds = h.holds;
      alone = h.alone;
      shows = ground arith;
      taken = ground arith;
    },
  )

  close-Inv :
      (s : System V) (z : Zone V) → close s.zone ≡ some z → Inv s → Inv (record s { zone = z })
  unfolding close
  close-Inv s z e (inl f) = inl (record {
    no_writer = ground arith;
    no_reader = ground arith;
    none_inside = f.none_inside;
    all_sent = f.all_sent;
  })
  close-Inv s z e (inr (j, w, h)) = inr (
    j,
    w,
    record {
      a_writer = ground arith;
      holds = h.holds;
      alone = h.alone;
      shows = ground arith;
      taken = ground arith;
    },
  )

  Step-Inv : {s t : System V} → Step s t → Inv s → Inv t
  Step-Inv {s} (write_enter i v z o m e) = enter-Inv s i v z m e
  Step-Inv {s} (write_finish i v z o m e) = finish-Inv s i v z o m e
  Step-Inv {s} (write_expire i v o m) = expire-Inv s i v o m
  Step-Inv {s} (read_value v z m e) = read-Inv s v z m e
  Step-Inv {s} (close_open z e) = close-Inv s z e

  pub Reach-Inv : {s : System V} → Reach s → Inv s
  Reach-Inv start = init-Inv
  Reach-Inv (later r st) = Step-Inv st (Reach-Inv r)
