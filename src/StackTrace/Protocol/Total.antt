-- ===== src/StackTrace/Protocol/Total.antt =====
-- Sums over the handlers of the signalled threads of src/ts/signal_handler.cc, at any grain of their
-- stages.
use jvm.Common.{ℕ, zero, suc, ◌+◌, ◌≤◌, ◌<◌, ◌≡◌, refl, arith, dec_lt}
use jvm.Common.{update}

module _ {ℓ} {A : Type ℓ} (w : A → ℕ) where
  -- The sum of the weights of the first `n` handlers.
  unfoldable pub total : ℕ → (ℕ → A) → ℕ
  total zero h = 0
  total (suc n) h = total n h + w (h n)

  pub total-update_above :
      (n i : ℕ) (h : ℕ → A) (a : A) → n ≤ i → total n (update h i a) ≡ total n h
  unfolding total
  total-update_above zero i h a le = refl
  total-update_above (suc n) i h a le = ground (arith, total-update_above n i h a)

  -- A change of one handler changes the sum by its weights.
  pub total-update :
      (n i : ℕ) (h : ℕ → A) (a : A) → i < n → total n (update h i a) + w (h i) ≡ total n h + w a
  unfolding total
  total-update zero i h a lt = absurd (omega arith)
  total-update (suc n) i h a lt = elim (dec_lt i n) [
    | yes below ↦ ground (arith, total-update n i h a below)
    | no last ↦ ground (arith, total-update_above n i h a)
  ]
