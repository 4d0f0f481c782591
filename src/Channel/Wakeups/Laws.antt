-- ===== src/Channel/Wakeups/Laws.antt =====
-- No wake-up of src/ts/common/unbuffered_channel.h is lost.
use jvm.Common.{ℕ, ◌≡◌, refl, sym, ◌∙◌, true, ◌⊎◌, inl, inr, arith, Bool-cases}
use jvm.Channel.{may_write, enter, may_finish, finish, give_up, may_read, read, close}
use jvm.Common.{update}
use jvm.Channel.Wakeups.{
  Cv, writers, readers, handshake, idle, looking, asleep, expiring, closing, same, awake, predicate,
  System, Step, call_write, call_read, sleep, spurious, expire, time_out, time_out_zone,
  write_enter, write_finish, read_value, read_closed, close_open, notify_writers, notify_readers,
  notify_handshake, Reach, start, later,
}
use jvm.Channel.Wakeups.Sleepers.{
  due, in_zone, Notified-in_zone, ShutAt, ShutAt-update, ShutAt-Notified, sole_sleeper,
  update-in_zone,
}
use jvm.Channel.Wakeups.Invariant.{Inv, init-Inv, stays, closed-Inv, wakes-Inv, Told, arrives}

module _ {ℓ} {V : Type ℓ} where
  Step-Inv : {s t : System V} → Step s t → Inv s → Inv t
  unfolding awake due in_zone predicate may_write may_read may_finish enter finish read close
      give_up same
  Step-Inv {s} (call_write i v e) w =
      stays s i (looking writers) (update s.arg i v) (λ c h. ground arith) (λ c. ground arith)
        (λ h. cc) w
  Step-Inv {s} (call_read i e) w =
      stays s i (looking readers) s.arg (λ c h. ground arith) (λ c. ground arith) (λ h. cc) w
  Step-Inv {s} (sleep i c e f) w =
      stays s i (asleep c) s.arg (λ d h. ground arith) (λ d. ground arith) (λ h. ground arith) w
  Step-Inv {s} (spurious i c e) w =
      stays s i (looking c) s.arg (λ d h. ground arith) (λ d. ground arith) (λ h. ground arith) w
  Step-Inv {s} (expire i c e) w =
      stays s i (expiring c) s.arg (λ d h. ground arith) (λ d. ground arith) (λ h. ground arith) w
  Step-Inv {s} (time_out i c e ne f) w =
      stays s i idle s.arg (λ d h. ground arith) (λ d. ground arith) (λ h. cc) w
  Step-Inv {s} (time_out_zone i pc e f n) w =
      arrives s i idle (give_up s.zone) writers n refl (λ c. ground arith)
        (λ x c. elim c as (λ c. Told s i idle (give_up s.zone) writers c) [
          | writers ↦ inl refl
          | readers ↦ inr (inl (ground arith))
          | handshake ↦ inr (inl (ground arith))
        ])
        (λ j h. ground (arith, w.alone i j)) (λ j k h l. ground (arith, w.alone j k)) w
  Step-Inv {s} (write_enter i z pc e f g n) w =
      arrives s i (looking handshake) z readers n ground arith (λ c. ground arith)
        (λ x c. elim c as (λ c. Told s i (looking handshake) z readers c) [
          | writers ↦ inr (inl (ground arith))
          | readers ↦ inl refl
          | handshake ↦ inr (inr (ground arith))
        ])
        (λ j h. ground arith) (λ j k h l. ground (arith, w.entered j, w.entered k)) w
  Step-Inv {s} (write_finish i z pc e f g n) w =
      arrives s i idle z writers n ground arith (λ c. ground arith)
        (λ x c. elim c as (λ c. Told s i idle z writers c) [
          | writers ↦ inl refl
          | readers ↦ inr (inl (ground arith))
          | handshake ↦ inr (inl (ground arith))
        ])
        (λ j h. ground (arith, w.alone i j)) (λ j k h l. ground (arith, w.alone j k)) w
  Step-Inv {s} (read_value i v z pc e f g n) w =
      arrives s i idle z handshake n ground arith (λ c. ground arith)
        (λ x c. elim c as (λ c. Told s i idle z handshake c) [
          | writers ↦ inr (inr (ground arith))
          | readers ↦ inr (inl (ground arith))
          | handshake ↦ inl refl
        ])
        (λ j h. ground (arith, w.entered j)) (λ j k h l. ground (arith, w.alone j k)) w
  Step-Inv {s} (read_closed i z e g) w =
      closed-Inv z (update s.pc i idle) s.arg (ground arith)
        (λ c.
          ShutAt-update c s.pc i idle (λ h. cc) (λ h. absurd (ground arith))
            (w.shut (ground arith) c))
        (λ j h. ground (arith, w.entered j, update-in_zone s.pc i j idle))
        (λ j k h l.
          w.alone j k (update-in_zone s.pc i j idle (λ h. cc) h)
            (update-in_zone s.pc i k idle (λ h. cc) l))
  Step-Inv {s} (close_open i z e g) w =
      closed-Inv z (update s.pc i (closing writers)) s.arg (ground arith)
        (λ c j h. (
          i,
          elim c as (λ c. due c (update s.pc i (closing writers) i) ≡ true) [
            | writers ↦ ground arith
            | readers ↦ ground arith
            | handshake ↦ ground arith
          ],
        ))
        (λ j h. ground (arith, w.entered j, update-in_zone s.pc i j (closing writers)))
        (λ j k h l.
          w.alone j k (update-in_zone s.pc i j (closing writers) (λ h. cc) h)
            (update-in_zone s.pc i k (closing writers) (λ h. cc) l))
  Step-Inv {s} (notify_writers i e) w = wakes-Inv s i writers readers e (λ b. ground arith) w
  Step-Inv {s} (notify_readers i e) w = wakes-Inv s i readers handshake e (λ b. ground arith) w
  Step-Inv {s} (notify_handshake i pc e n) w =
      closed-Inv s.zone pc s.arg (w.closers i handshake e)
        (λ c. elim c as (λ c. ShutAt c pc) [
          | writers ↦ ShutAt-Notified writers handshake n (
              ShutAt-update writers s.pc i idle (λ h. cc) (λ h. absurd (ground arith))
                (w.shut (w.closers i handshake e) writers))
          | readers ↦ ShutAt-Notified readers handshake n (
              ShutAt-update readers s.pc i idle (λ h. cc) (λ h. absurd (ground arith))
                (w.shut (w.closers i handshake e) readers))
          | handshake ↦ λ j h. absurd (
              sole_sleeper n
                (λ k l f g.
                  w.alone k l (update-in_zone s.pc i k idle (λ h. cc) f)
                    (update-in_zone s.pc i l idle (λ h. cc) g))
                j h)
        ])
        (λ j h.
          w.entered j (update-in_zone s.pc i j idle (λ h. cc) (sym (Notified-in_zone j n) ∙ h)))
        (λ j k h l.
          w.alone j k (update-in_zone s.pc i j idle (λ h. cc) (sym (Notified-in_zone j n) ∙ h))
            (update-in_zone s.pc i k idle (λ h. cc) (sym (Notified-in_zone k n) ∙ l)))

  Reach-Inv : {arg : ℕ → V} {s : System V} → Reach arg s → Inv s
  Reach-Inv {arg} start = init-Inv arg
  Reach-Inv (later r st) = Step-Inv st (Reach-Inv r)

  -- No wake-up is lost: whatever the calls of Write, Read and Close, their timeouts and the wake-ups
  -- without a notification, when a thread sleeps on a condition variable though the predicate that
  -- it waits for holds, another thread is about to evaluate this predicate, or is in Close and about
  -- to notify this condition variable.
  pub Reach-stirred :
      (arg : ℕ → V) (s : System V) (c : Cv) (j : ℕ)
      → Reach arg s
      → s.pc j ≡ asleep c
      → predicate c s.zone ≡ true
      → (k : ℕ) × ((awake c (s.pc k) ≡ true) ⊎ (due c (s.pc k) ≡ true))
  Reach-stirred arg s c j r e w =
      let v = Reach-Inv r in
      elim (Bool-cases s.zone.closed) [
        | inl x ↦ let (k, a) = v.shut x c j e in (k, inr a)
        | inr x ↦ let (k, a) = v.open_ x c j e w in (k, inl a)
      ]
