-- ===== src/MmapHook.antt =====
-- src/mm.cpp: mmap and munmap, which forward to those of the C library. `dlsym` and the functions
-- that it finds are arguments; an address is `none` where dlsym finds nothing.
pub mod Laws
use jvm.Common.{ℕ, suc, Bool, true, false, List, [], ◌∷◌, ◌++◌, Option, none, some}

pub data Name : Type 0 where
  mmap_name munmap_name : Name

-- `r_mmap` and `r_munmap` as addresses, and how often init_map has run.
pub record State : Type 0 where
  pub r_mmap : Option ℕ
  pub r_munmap : Option ℕ
  pub inits : ℕ

abbrev pub new : State
new = record { r_mmap = none; r_munmap = none; inits = 0 }

-- A call returns, or goes to the null pointer.
pub data Outcome {ℓ} (R : Type ℓ) : Type ℓ where
  returned : R → State → Outcome R
  crashed : Outcome R

module _ {ℓ κ} {A : Type κ} {R : Type ℓ} (dlsym : Name → Option ℕ) (call : ℕ → A → R) where
  unfoldable pub init_map : State → State
  init_map s = record {
    r_mmap = dlsym mmap_name;
    r_munmap = dlsym munmap_name;
    inits = suc s.inits;
  }

  -- TRACE_INIT, in both functions.
  unfoldable pub trace_init : State → State
  unfolding init_map
  trace_init s = elim s.r_mmap [ none ↦ init_map s | some f ↦ s ]

  -- A call through a pointer.
  unfoldable pub call_at : Option ℕ → A → State → Outcome R
  call_at none args s = crashed
  call_at (some f) args s = returned (call f args) s

  unfoldable pub mmap : A → State → Outcome R
  unfolding trace_init call_at
  mmap args s = let s' = trace_init s in call_at s'.r_mmap args s'

  unfoldable pub munmap : A → State → Outcome R
  unfolding trace_init call_at
  munmap args s = let s' = trace_init s in call_at s'.r_munmap args s'

  unfoldable pub forward : Name → A → State → Outcome R
  unfolding mmap munmap
  forward mmap_name = mmap
  forward munmap_name = munmap

  -- A sequence of calls, with what they return.
  unfoldable pub run : List (Name × A) → State → Outcome (List R)
  unfolding forward
  run [] s = returned [] s
  run ((name, args) ∷ calls) s = elim (forward name args s) [
    | crashed ↦ crashed
    | returned r s' ↦ elim (run calls s') [
      | crashed ↦ crashed
      | returned rs s'' ↦ returned (r ∷ rs) s''
    ]
  ]
