-- ===== src/Channel/Refinement.antt =====
-- UnbufferedChannel (src/ts/common/unbuffered_channel.h) keeps the contract of Channel
-- (src/ts/common/channel.h): a simulation.
use jvm.Common.{
  ℕ, ◌≡◌, ◌⊎◌, inl, inr, refl, sym, subst, true, false, List, [], ◌∷◌, ◌++◌, append-nil, some,
  arith,
}
use jvm.Channel.{Zone, empty, may_finish, finish, may_write, enter, may_read, read, close, give_up}
use jvm.Common.{update}
use jvm.Channel.System.{
  outside, in_zone, System, Step, write_enter, write_finish, write_expire, read_value, close_open,
  init, Reach, start, later,
}
use jvm.Channel.Invariant.{Inv, Reach-Inv, same-writer}
use jvm.Channel.Spec
use jvm.Channel.Spec.{
  Call, written, closed, Phase, idle, taken, new, Allowed, Accepts, none_yet, one_more,
}

module _ {ℓ} {V : Type ℓ} where
  -- The calls that return at a step.
  abbrev returns : {s t : System V} → Step s t → List (Call V)
  returns (write_enter i v z o m e) = []
  returns (write_finish i v z o m e) = written v ∷ []
  returns (write_expire i v o m) = []
  returns (read_value v z m e) = Spec.read v ∷ []
  returns (close_open z e) = closed ∷ []

  -- The calls of a run, in the order of their returns.
  abbrev pub history : {s : System V} → Reach s → List (Call V)
  history start = []
  history (later r st) = history r ++ returns st

  -- What the contract sees of a state: a reader in the zone has taken the value of the writer there.
  record Shows (s : System V) (c : Spec.Channel V) : Type ℓ where
    same_closed : c.is_closed ≡ s.zone.closed
    same_phase :
        ((s.zone.reader_in_zone ≡ false) × (c.phase ≡ idle))
        ⊎ ((s.zone.reader_in_zone ≡ true)
            × ((i : ℕ) × (v : V) × (s.writer i ≡ in_zone v) × (c.phase ≡ taken v)))

  enter-Shows :
      (s : System V) (i : ℕ) (v : V) (z : Zone V) (c : Spec.Channel V)
      → may_write s.zone ≡ true
      → enter s.zone v ≡ some z
      → Inv s
      → Shows s c
      → Shows (record s { zone = z; writer = update s.writer i (in_zone v) }) c
  unfolding may_write enter
  enter-Shows s i v z c m e (inl f) w = record {
    same_closed = ground (arith, w.same_closed);
    same_phase = elim w.same_phase [
      | inl (a, b) ↦ inl (ground arith, b)
      | inr (a, b) ↦ absurd (ground (arith, f.no_reader))
    ];
  }
  enter-Shows s i v z c m e (inr (j, u, h)) w = absurd (ground (arith, h.a_writer))

  expire-Shows :
      (s : System V) (i : ℕ) (v : V) (c : Spec.Channel V)
      → s.writer i ≡ in_zone v
      → may_finish s.zone ≡ false
      → Shows s c
      → Shows (record s { zone = give_up s.zone; writer = update s.writer i outside }) c
  unfolding may_finish give_up
  expire-Shows s i v c o m w = record {
    same_closed = ground (arith, w.same_closed);
    same_phase = elim w.same_phase [
      | inl (a, b) ↦ inl (ground arith, b)
      | inr (a, b) ↦ absurd (ground arith)
    ];
  }

  -- The value that the reader has taken is the one the leaving writer brought.
  leaves-taken :
      (s : System V) (i : ℕ) (v : V) (c : Spec.Channel V)
      → Inv s
      → s.writer i ≡ in_zone v
      → s.zone.reader_in_zone ≡ true
      → Shows s c
      → c.phase ≡ taken v
  leaves-taken s i v c (inl f) o r w = absurd (ground (arith, f.no_reader))
  leaves-taken s i v c (inr (j, u, h)) o r w = elim w.same_phase [
    | inl (a, b) ↦ absurd (ground arith)
    | inr (a, (k, x, p, q)) ↦
        ground (arith, same-writer s i j v u o h, same-writer s k j x u p h, q)
  ]

  finish-Shows :
      (s : System V) (i : ℕ) (v : V) (z : Zone V) (c : Spec.Channel V)
      → finish s.zone ≡ some z
      → Shows s c
      → Shows
          (record s { zone = z; writer = update s.writer i outside; sent = s.sent ++ v ∷ [] })
          (record c { phase = idle })
  unfolding finish
  finish-Shows s i v z c e w = record {
    same_closed = ground (arith, w.same_closed);
    same_phase = inl (ground arith, refl);
  }

  finish-reader : (z u : Zone V) → may_finish z ≡ true → finish z ≡ some u → z.reader_in_zone ≡ true
  unfolding may_finish finish
  finish-reader z u m e = ground arith

  read-Shows :
      (s : System V) (v : V) (z : Zone V) (c : Spec.Channel V)
      → may_read s.zone ≡ true
      → read s.zone ≡ some (z, some v)
      → Inv s
      → Shows s c
      → Shows
          (record s { zone = z; received = s.received ++ v ∷ [] })
          (record c { phase = taken v })
  unfolding may_read read
  read-Shows s v z c m e (inl f) w = absurd (ground (arith, f.no_writer))
  read-Shows s v z c m e (inr (j, u, h)) w = record {
    same_closed = ground (arith, w.same_closed);
    same_phase = inr (ground arith, (j, v, ground (arith, h.holds, h.shows), refl));
  }

  -- Where a reader may read, the channel is open and idle.
  read-allowed :
      (s : System V) (v : V) (z : Zone V) (c : Spec.Channel V)
      → may_read s.zone ≡ true
      → read s.zone ≡ some (z, some v)
      → Shows s c
      → (c.is_closed ≡ false) × (c.phase ≡ idle)
  unfolding may_read read
  read-allowed s v z c m e w = elim w.same_phase [
    | inl (a, b) ↦ (ground (arith, w.same_closed), b)
    | inr (a, b) ↦ absurd (ground arith)
  ]

  close-Shows :
      (s : System V) (z : Zone V) (c : Spec.Channel V)
      → close s.zone ≡ some z
      → Shows s c
      → (c.is_closed ≡ false) × Shows (record s { zone = z }) (record c { is_closed = true })
  unfolding close
  close-Shows s z c e w = (
    ground (arith, w.same_closed),
    record {
      same_closed = ground arith;
      same_phase = elim w.same_phase [
        | inl (a, b) ↦ inl (ground arith, b)
        | inr (a, b) ↦ inr (ground arith, b)
      ];
    },
  )

  -- A step at which no call returns.
  silent :
      {t : System V} {c : Spec.Channel V} {calls : List (Call V)}
      → Accepts calls c
      → Shows t c
      → (d : Spec.Channel V) × Accepts (calls ++ []) d × Shows t d
  silent {t} {c} {calls} a w = (c, subst (λ l. Accepts l c) (sym (append-nil calls)) a, w)

  step-Shows :
      {s t : System V} (st : Step s t) (c : Spec.Channel V) (calls : List (Call V))
      → Inv s
      → Shows s c
      → Accepts calls c
      → (d : Spec.Channel V) × Accepts (calls ++ returns st) d × Shows t d
  step-Shows {s} (write_enter i v z o m e) c calls h w a = silent a (enter-Shows s i v z c m e h w)
  step-Shows {s} (write_finish i v z o m e) c calls h w a = (
    record c { phase = idle },
    one_more a (Spec.may_write v (leaves-taken s i v c h o (finish-reader s.zone z m e) w)),
    finish-Shows s i v z c e w,
  )
  step-Shows {s} (write_expire i v o m) c calls h w a = silent a (expire-Shows s i v c o m w)
  step-Shows {s} (read_value v z m e) c calls h w a = (
    record c { phase = taken v },
    one_more a (Spec.may_read v (read-allowed s v z c m e w).0 (read-allowed s v z c m e w).1),
    read-Shows s v z c m e h w,
  )
  step-Shows {s} (close_open z e) c calls h w a = (
    record c { is_closed = true },
    one_more a (Spec.may_close (close-Shows s z c e w).0),
    (close-Shows s z c e w).1,
  )

  init-Shows : Shows init new
  unfolding empty
  init-Shows = record { same_closed = refl; same_phase = inl (refl, refl) }

  Reach-Shows :
      {s : System V} (r : Reach s) → (c : Spec.Channel V) × Accepts (history r) c × Shows s c
  Reach-Shows start = (new, none_yet, init-Shows)
  Reach-Shows (later r st) =
      let (c, a, w) = Reach-Shows r in step-Shows st c (history r) (Reach-Inv r) w a

  -- The calls that return in a run of writers, readers and closers of an unbuffered channel, taken
  -- in the order of their returns, are a sequence that the contract of a channel allows: a Read
  -- returns the value of the Write that returns next, nothing is read once Close has returned, and
  -- Close returns once.
  pub history-Accepts :
      {s : System V} (r : Reach s)
      → (c : Spec.Channel V) × Accepts (history r) c × (c.is_closed ≡ s.zone.closed)
  history-Accepts r = let (c, a, w) = Reach-Shows r in (c, a, w.same_closed)
