-- ===== src/ScopedLambda.antt =====
-- src/ts/common/defer.h: an action that runs when its scope is left. The action is a function on
-- the state `S` of the program.
pub mod Laws
pub mod Tests
use jvm.Common.{Bool, true, false, List, [], ◌∷◌, if◌then◌else◌}

pub record ScopedLambda {ℓ} (S : Type ℓ) : Type ℓ where
  pub fn : S → S
  pub active : Bool

module _ {ℓ} {S : Type ℓ} where
  unfoldable pub make_scoped_lambda : (S → S) → ScopedLambda S
  make_scoped_lambda fn = record { fn = fn; active = true }

  -- The destructor.
  unfoldable pub destroy : ScopedLambda S → S → S
  destroy l s = if l.active then l.fn s else s

  unfoldable pub run_and_expire : ScopedLambda S → S → ScopedLambda S × S
  run_and_expire l s = (record l { active = false }, if l.active then l.fn s else s)

  unfoldable pub activate : ScopedLambda S → ScopedLambda S
  activate l = record l { active = true }

  unfoldable pub deactivate : ScopedLambda S → ScopedLambda S
  deactivate l = record l { active = false }

  -- The default move constructor copies the members: the object moved from, and the new one.
  unfoldable pub move_from : ScopedLambda S → ScopedLambda S × ScopedLambda S
  move_from l = (l, l)

-- What a scope does with the object before it is left.
pub data Op : Type 0 where
  run_op activate_op deactivate_op : Op

module _ {ℓ} {S : Type ℓ} where
  -- A scope: the operations, then the destructor.
  unfoldable pub scope : ScopedLambda S → S → List Op → S
  unfolding destroy run_and_expire activate deactivate
  scope l s [] = destroy l s
  scope l s (run_op ∷ ops) = let r = run_and_expire l s in scope r.0 r.1 ops
  scope l s (activate_op ∷ ops) = scope (activate l) s ops
  scope l s (deactivate_op ∷ ops) = scope (deactivate l) s ops
