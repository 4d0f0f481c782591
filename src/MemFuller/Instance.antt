-- ===== src/MemFuller/Instance.antt =====
-- src/trace_util.h, mem_fuller::instance: the single object is made by the first call that finds
-- none. A step is a read or a write of `self_`; the calls of the threads interleave.
pub mod Laws
use jvm.Common.{update, ℕ, suc, ◌<◌, ◌≡◌, ◌≢◌, refl, none, some, Option, ite, ℕ_discrete, arith}

-- Where a thread is: before the test, between the test and the assignment, before the return, and
-- behind it, with the object that it has got.
pub data Pc : Type 0 where
  outside creating returning : Pc
  got : (object : ℕ) → Pc

-- `made` objects have been made; they are numbered from 0 on.
pub record State : Type 0 where
  pub self : Option ℕ
  pub made : ℕ
  pub pc : ℕ → Pc

pub data Step (s : State) : State → Type 0 where
  test_null :
      (i : ℕ) → s.pc i ≡ outside → s.self ≡ none → Step s (record s { pc = update s.pc i creating })
  test_set :
      (i object : ℕ)
      → s.pc i ≡ outside
      → s.self ≡ some object
      → Step s (record s { pc = update s.pc i returning })
  create :
      (i : ℕ)
      → s.pc i ≡ creating
      → Step s (record s { self = some s.made; made = suc s.made; pc = update s.pc i returning })
  return_self :
      (i object : ℕ)
      → s.pc i ≡ returning
      → s.self ≡ some object
      → Step s (record s { pc = update s.pc i (got object) })

pub data Steps (s : State) : State → Type 0 where
  here : Steps s s
  next : {t u : State} → Steps s t → Step t u → Steps s u

abbrev pub init : State
init = record { self = none; made = 0; pc = λ _. outside }
