-- ===== src/Channel/Wakeups/Invariant.antt =====
-- What holds of the sleepers of src/ts/common/unbuffered_channel.h at every step.
use jvm.Common.{ite, ℕ, ◌≡◌, ◌≢◌, subst, sym, ◌∙◌, true, false, ◌⊎◌, inl, inr, ℕ_discrete, arith}
use jvm.Channel.{Zone, empty, may_write, may_finish, may_read}
use jvm.Common.{update}
use jvm.Channel.Wakeups.{
  Cv, Pc, asleep, closing, same, awake, predicate, Notified, nobody, one, wake, System, init,
}
use jvm.Channel.Wakeups.Sleepers.{
  due, in_zone, Notified-asleep, Notified-awake, Notified-closing, Notified-in_zone, same_self,
  ShutAt, ShutAt-update, ShutAt-Notified, wake-asleep, due-wake, in_zone-wake, update-in_zone,
}

module _ {ℓ} {V : Type ℓ} where
  pub closed-predicate : (c : Cv) (z : Zone V) → z.closed ≡ true → predicate c z ≡ true
  unfolding predicate may_write may_read may_finish
  closed-predicate c z h = ground arith

  -- A sleeper whose predicate holds leaves a thread that is about to look at it.
  abbrev pub OpenAt : Cv → Zone V → (ℕ → Pc) → Type 0
  OpenAt c z pc =
      (j : ℕ) → pc j ≡ asleep c → predicate c z ≡ true → (k : ℕ) × (awake c (pc k) ≡ true)

  -- Thread `i` comes to `p`. Where the predicate holds it does not fall asleep, and it does not
  -- stop to be awake.
  pub OpenAt-update :
      (c : Cv) (z z' : Zone V) (pc : ℕ → Pc) (i : ℕ) (p : Pc)
      → (predicate c z' ≡ true
          → (predicate c z ≡ true) × (p ≢ asleep c) × (awake c (pc i) ≡ true → awake c p ≡ true))
      → OpenAt c z pc
      → OpenAt c z' (update pc i p)
  OpenAt-update c z z' pc i p h o j e w = elim (ℕ_discrete i j) [
    | yes same_thread ↦ absurd (ground (arith, h w))
    | no ne ↦
        let (k, a) = o j (ground arith) (h w).0 in
        (
          k,
          elim (ℕ_discrete i k) as (λ d. awake c (ite d p (pc k)) ≡ true) [
            | yes q ↦ (h w).2 (subst (λ m. awake c (pc m) ≡ true) (sym q) a)
            | no q ↦ a
          ],
        )
  ]

  pub OpenAt-Notified :
      (c d : Cv) (z : Zone V) {pc pc' : ℕ → Pc} → Notified d pc pc' → OpenAt c z pc → OpenAt c z pc'
  OpenAt-Notified c d z n o j e w =
      let (k, a) = o j (Notified-asleep c j n e) w in (k, Notified-awake c k n a)

  -- The condition variable that is notified.
  pub OpenAt-told : (c : Cv) (z : Zone V) {pc pc' : ℕ → Pc} → Notified c pc pc' → OpenAt c z pc'
  unfolding awake
  OpenAt-told c z (nobody h) j e w = absurd (h j e)
  OpenAt-told c z {pc} (one k h) j e w = (k, ground (arith, same_self c))

  pub OpenAt-off : (c : Cv) (z : Zone V) (pc : ℕ → Pc) → predicate c z ≡ false → OpenAt c z pc
  OpenAt-off c z pc f j e w = absurd cc

  pub record Inv (s : System V) : Type ℓ where
    pub open_ : s.zone.closed ≡ false → (c : Cv) → OpenAt c s.zone s.pc
    pub shut : s.zone.closed ≡ true → (c : Cv) → ShutAt c s.pc
    pub entered : (j : ℕ) → in_zone (s.pc j) ≡ true → s.zone.writer_in_zone ≡ true
    pub alone : (i j : ℕ) → in_zone (s.pc i) ≡ true → in_zone (s.pc j) ≡ true → i ≡ j
    pub closers : (j : ℕ) (c : Cv) → s.pc j ≡ closing c → s.zone.closed ≡ true

  pub init-Inv : (arg : ℕ → V) → Inv (init arg)
  unfolding in_zone empty
  init-Inv arg = record {
    open_ = λ o c j e w. cc;
    shut = λ x c j e. cc;
    entered = λ j e. cc;
    alone = λ i j e. cc;
    closers = λ j c e. cc;
  }

  -- Thread `i` comes from `p` to `p'` and the members stay as they are.
  pub stays :
      (s : System V) (i : ℕ) (p : Pc) (arg : ℕ → V)
      → ((c : Cv)
          → predicate c s.zone ≡ true
          → (p ≢ asleep c) × (awake c (s.pc i) ≡ true → awake c p ≡ true))
      → ((c : Cv) → (p ≢ closing c) × (due c (s.pc i) ≡ false))
      → (in_zone p ≡ true → in_zone (s.pc i) ≡ true)
      → Inv s
      → Inv (record { zone = s.zone; pc = update s.pc i p; arg = arg })
  unfolding in_zone
  stays s i p arg o d z v = record {
    open_ = λ x c.
        OpenAt-update c s.zone s.zone s.pc i p (λ w. (w, (o c w).0, (o c w).1)) (v.open_ x c);
    shut = λ x c.
        ShutAt-update c s.pc i p (o c (closed-predicate c s.zone x)).0
          (λ e. absurd (ground (arith, d c))) (v.shut x c);
    entered = λ j e. v.entered j (update-in_zone s.pc i j p z e);
    alone = λ j k e f. v.alone j k (update-in_zone s.pc i j p z e) (update-in_zone s.pc i k p z f);
    closers = λ j c e. ground (arith, v.closers j c, d c);
  }

  -- On a closed channel only those who are to notify count.
  pub closed-Inv :
      (z : Zone V) (pc : ℕ → Pc) (arg : ℕ → V)
      → z.closed ≡ true
      → ((c : Cv) → ShutAt c pc)
      → ((j : ℕ) → in_zone (pc j) ≡ true → z.writer_in_zone ≡ true)
      → ((j k : ℕ) → in_zone (pc j) ≡ true → in_zone (pc k) ≡ true → j ≡ k)
      → Inv (record { zone = z; pc = pc; arg = arg })
  closed-Inv z pc arg x o e1 e2 = record {
    open_ = λ y c. absurd cc;
    shut = λ y c. o c;
    entered = e1;
    alone = e2;
    closers = λ j c e. x;
  }

  -- `notify_all` of thread `i` in Close, which then goes on to `d`.
  pub wakes-Inv :
      (s : System V) (i : ℕ) (c d : Cv)
      → s.pc i ≡ closing c
      → ((b : Cv) → (same c b ≡ true) ⊎ (due b (closing d) ≡ true) ⊎ (due b (closing c) ≡ false))
      → Inv s
      → Inv (record s { pc = update (λ j. wake c (s.pc j)) i (closing d) })
  unfolding in_zone
  wakes-Inv s i c d e o v =
      closed-Inv s.zone (update (λ j. wake c (s.pc j)) i (closing d)) s.arg (v.closers i c e) shuts
        (λ j h. v.entered j (back j h)) (λ j k h l. v.alone j k (back j h) (back k l))
    where
      back :
          (j : ℕ)
          → in_zone (update (λ j. wake c (s.pc j)) i (closing d) j) ≡ true
          → in_zone (s.pc j) ≡ true
      back j h = ground (arith, in_zone-wake c (s.pc j))

      shuts : (b : Cv) → ShutAt b (update (λ j. wake c (s.pc j)) i (closing d))
      shuts b j h = elim (o b) [
        | inl told ↦ absurd (ground (arith, wake-asleep c b (s.pc j)))
        | inr (inl next) ↦ (i, ground arith)
        | inr (inr no_part) ↦
            let (k, still) =
              v.shut (v.closers i c e) b j (ground (arith, wake-asleep c b (s.pc j))) in
            (k, ground (arith, due-wake b c (s.pc k)))
      ]

  -- What keeps the sleepers on `c` when thread `i` comes to `p`, the members become `z` and `d` is
  -- notified: they are notified, or need not wake, or are as before.
  abbrev pub Told : System V → ℕ → Pc → Zone V → Cv → Cv → Type 0
  Told s i p z d c =
      (c ≡ d)
      ⊎ (predicate c z ≡ false)
      ⊎ ((predicate c z ≡ predicate c s.zone) × (awake c (s.pc i) ≡ true → awake c p ≡ true))

  pub arrives :
      (s : System V) (i : ℕ) (p : Pc) (z : Zone V) (d : Cv) {pc : ℕ → Pc}
      → Notified d (update s.pc i p) pc
      → z.closed ≡ s.zone.closed
      → ((c : Cv) → (p ≢ asleep c) × (p ≢ closing c) × (due c (s.pc i) ≡ false))
      → (s.zone.closed ≡ false → (c : Cv) → Told s i p z d c)
      → ((j : ℕ) → in_zone (update s.pc i p j) ≡ true → z.writer_in_zone ≡ true)
      → ((j k : ℕ)
          → in_zone (update s.pc i p j) ≡ true
          → in_zone (update s.pc i p k) ≡ true
          → j ≡ k)
      → Inv s
      → Inv (record { zone = z; pc = pc; arg = s.arg })
  arrives s i p z d {pc} n same_closed o told e1 e2 v = record {
    open_ = λ x c. elim (told (sym same_closed ∙ x) c) [
      | inl q ↦ subst (λ c. OpenAt c z pc) (sym q) (OpenAt-told d z n)
      | inr (inl off) ↦ OpenAt-off c z pc off
      | inr (inr (w, a)) ↦ OpenAt-Notified c d z n (
          OpenAt-update c s.zone z s.pc i p (λ h. (sym w ∙ h, (o c).0, a))
            (v.open_ (sym same_closed ∙ x) c))
    ];
    shut = λ x c. ShutAt-Notified c d n (
        ShutAt-update c s.pc i p (o c).0 (λ h. absurd (ground (arith, o c)))
          (v.shut (sym same_closed ∙ x) c));
    entered = λ j e. e1 j (sym (Notified-in_zone j n) ∙ e);
    alone = λ j k e f. e2 j k (sym (Notified-in_zone j n) ∙ e) (sym (Notified-in_zone k n) ∙ f);
    closers = λ j c e. ground (arith, o c, v.closers j c, Notified-closing c j n e);
  }
