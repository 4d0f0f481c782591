-- ===== src/Channel/Wakeups/Sleepers.antt =====
-- The threads that sleep in src/ts/common/unbuffered_channel.h, when one moves or one is notified.
use jvm.Common.{ite, ℕ, ◌≡◌, ◌≢◌, refl, subst, sym, Bool, true, false, ℕ_discrete, arith}
use jvm.Common.{update}
use jvm.Channel.Wakeups.{
  Cv, writers, readers, handshake, Pc, looking, asleep, expiring, closing, same, awake, Notified,
  nobody, one, wake,
}

-- Is a thread still to notify a condition variable in Close?
unfoldable pub due : Cv → Pc → Bool
due writers (closing writers) = true
due readers (closing writers) = true
due readers (closing readers) = true
due handshake (closing c) = true
due c p = false

-- Is a thread in the handshake zone as a writer?
unfoldable pub in_zone : Pc → Bool
in_zone (looking handshake) = true
in_zone (asleep handshake) = true
in_zone (expiring handshake) = true
in_zone p = false

pub Notified-asleep :
    {d : Cv} {pc pc' : ℕ → Pc} (c : Cv) (j : ℕ)
    → Notified d pc pc'
    → pc' j ≡ asleep c
    → pc j ≡ asleep c
Notified-asleep c j (nobody h) e = e
Notified-asleep c j (one k h) e = ground arith

pub Notified-awake :
    {d : Cv} {pc pc' : ℕ → Pc} (c : Cv) (k : ℕ)
    → Notified d pc pc'
    → awake c (pc k) ≡ true
    → awake c (pc' k) ≡ true
unfolding awake
Notified-awake c k (nobody h) e = e
Notified-awake c k (one j h) e = ground arith

pub Notified-due :
    {d : Cv} {pc pc' : ℕ → Pc} (c : Cv) (k : ℕ)
    → Notified d pc pc'
    → due c (pc k) ≡ true
    → due c (pc' k) ≡ true
unfolding due
Notified-due c k (nobody h) e = e
Notified-due c k (one j h) e = ground arith

pub Notified-closing :
    {d : Cv} {pc pc' : ℕ → Pc} (c : Cv) (j : ℕ)
    → Notified d pc pc'
    → pc' j ≡ closing c
    → pc j ≡ closing c
Notified-closing c j (nobody h) e = e
Notified-closing c j (one k h) e = ground arith

pub Notified-in_zone :
    {d : Cv} {pc pc' : ℕ → Pc} (k : ℕ) → Notified d pc pc' → in_zone (pc' k) ≡ in_zone (pc k)
unfolding in_zone
Notified-in_zone k (nobody h) = refl
Notified-in_zone k (one j h) = ground arith

pub same_self : (c : Cv) → same c c ≡ true
unfolding same
same_self c = ground arith

-- A sleeper on a closed channel leaves a thread that is to notify it.
abbrev pub ShutAt : Cv → (ℕ → Pc) → Type 0
ShutAt c pc = (j : ℕ) → pc j ≡ asleep c → (k : ℕ) × (due c (pc k) ≡ true)

pub ShutAt-update :
    (c : Cv) (pc : ℕ → Pc) (i : ℕ) (p : Pc)
    → p ≢ asleep c
    → (due c (pc i) ≡ true → due c p ≡ true)
    → ShutAt c pc
    → ShutAt c (update pc i p)
ShutAt-update c pc i p ne h o j e = elim (ℕ_discrete i j) [
  | yes same_thread ↦ absurd (ground arith)
  | no other ↦
      let (k, a) = o j (ground arith) in
      (
        k,
        elim (ℕ_discrete i k) as (λ d. due c (ite d p (pc k)) ≡ true) [
          | yes q ↦ h (subst (λ m. due c (pc m) ≡ true) (sym q) a)
          | no q ↦ a
        ],
      )
]

pub ShutAt-Notified : (c d : Cv) {pc pc' : ℕ → Pc} → Notified d pc pc' → ShutAt c pc → ShutAt c pc'
ShutAt-Notified c d n o j e =
    let (k, a) = o j (Notified-asleep c j n e) in (k, Notified-due c k n a)

pub wake-asleep : (c d : Cv) (p : Pc) → wake c p ≡ asleep d → (p ≡ asleep d) × (same c d ≡ false)
unfolding wake
wake-asleep c d p e = ground (arith, same_self c)

pub due-wake : (c d : Cv) (p : Pc) → due c (wake d p) ≡ due c p
unfolding due wake
due-wake c d p = ground arith

pub in_zone-wake : (d : Cv) (p : Pc) → in_zone (wake d p) ≡ in_zone p
unfolding in_zone wake
in_zone-wake d p = ground arith

pub wake-closing : (c d : Cv) (p : Pc) → wake c p ≡ closing d → p ≡ closing d
unfolding wake
wake-closing c d p e = ground arith

-- Where at most one writer is in the zone, `notify_one` leaves no sleeper there.
pub sole_sleeper :
    {pc pc' : ℕ → Pc}
    → Notified handshake pc pc'
    → ((j k : ℕ) → in_zone (pc j) ≡ true → in_zone (pc k) ≡ true → j ≡ k)
    → (j : ℕ) → pc' j ≢ asleep handshake
unfolding in_zone
sole_sleeper (nobody h) alone j e = h j e
sole_sleeper (one k h) alone j e = ground (arith, alone k j)

pub update-in_zone :
    (pc : ℕ → Pc) (i j : ℕ) (p : Pc)
    → (in_zone p ≡ true → in_zone (pc i) ≡ true)
    → in_zone (update pc i p j) ≡ true
    → in_zone (pc j) ≡ true
update-in_zone pc i j p h e = elim (ℕ_discrete i j) [
  | yes q ↦ subst (λ k. in_zone (pc k) ≡ true) q (h (ground arith))
  | no ne ↦ ground arith
]
