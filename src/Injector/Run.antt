-- ===== src/Injector/Run.antt =====
-- How a function of src/trace.h ends.

-- A result, behaviour that is not defined, the end of the program by error_msg, or no end within
-- the rounds.
pub data Run {ℓ} (A : Type ℓ) : Type ℓ where
  ok : A → Run A
  undefined : Run A
  exited : Run A
  running : Run A

infixl 5 ◌>>=◌
abbrev pub ◌>>=◌ {ℓ κ} : {A : Type ℓ} {B : Type κ} → Run A → (A → Run B) → Run B
ok a >>= f = f a
undefined >>= f = undefined
exited >>= f = exited
running >>= f = running
