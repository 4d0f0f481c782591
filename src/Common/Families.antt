-- ===== src/Common/Families.antt =====
-- Families that are indexed by numbers: a change at one index, a search below a bound.
use Prim.Native.Nat.{ℕ, zero, suc, ◌<◌}
use mathlib.Core.Path.{sym, subst}
use mathlib.Core.Logic.{◌⊎◌, inl, inr, ite}
use native.Mathlib.Omega.{arith}
use native.Mathlib.Decide.{ℕ_discrete}

-- The family with `a` at `i`.
abbrev pub update {ℓ} : {A : Type ℓ} → (ℕ → A) → ℕ → A → ℕ → A
update g i a j = ite (ℕ_discrete i j) a (g j)

module _ {ℓ κ} {A : Type ℓ} {P : ℕ → Type κ} where
  -- One number gives what is sought, or all have the property.
  pub found_or_all : (n : ℕ) → ((i : ℕ) → i < n → A ⊎ P i) → A ⊎ ((i : ℕ) → i < n → P i)
  found_or_all zero f = inr (λ i lt. absurd (omega arith))
  found_or_all (suc n) f = elim (f n (omega arith)) [
    | inl a ↦ inl a
    | inr last ↦ elim (found_or_all n (λ i lt. f i (omega arith))) [
      | inl a ↦ inl a
      | inr below ↦ inr (λ i lt. elim (ℕ_discrete i n) [
        | yes e ↦ subst P (sym e) last
        | no ne ↦ below i (omega arith)
      ])
    ]
  ]
