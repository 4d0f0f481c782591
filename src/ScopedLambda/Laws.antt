-- ===== src/ScopedLambda/Laws.antt =====
-- How often the action of src/ts/common/defer.h runs.
use jvm.Common.{◌≡◌, refl, Bool, true, false, List, [], ◌∷◌, if◌then◌else◌}
use jvm.ScopedLambda.{make_scoped_lambda, move_from, Op, run_op, activate_op, deactivate_op, scope}

abbrev pub NeverActivated : List Op → Type 0
NeverActivated [] = Unit {0}
NeverActivated (run_op ∷ ops) = NeverActivated ops
NeverActivated (activate_op ∷ ops) = true ≡ false
NeverActivated (deactivate_op ∷ ops) = NeverActivated ops

-- The first operation decides.
abbrev pub runs : List Op → Bool
runs [] = true
runs (run_op ∷ ops) = true
runs (activate_op ∷ ops) = true
runs (deactivate_op ∷ ops) = false

module _ {ℓ} {S : Type ℓ} where
  scope-expired :
      (fn : S → S) (s : S) (ops : List Op)
      → NeverActivated ops
      → scope (record { fn = fn; active = false }) s ops ≡ s
  unfolding scope
  scope-expired fn s [] h = refl
  scope-expired fn s (run_op ∷ ops) h = scope-expired fn s ops h
  scope-expired fn s (activate_op ∷ ops) h = cc
  scope-expired fn s (deactivate_op ∷ ops) h = scope-expired fn s ops h

  -- In a scope that never activates the action again, it runs exactly once if the scope does nothing
  -- with it or first runs it, and never if the scope first deactivates it.
  scope-once :
      (fn : S → S) (s : S) (ops : List Op)
      → NeverActivated ops
      → scope (make_scoped_lambda fn) s ops ≡ (if runs ops then fn s else s)
  unfolding scope make_scoped_lambda
  scope-once fn s [] h = refl
  scope-once fn s (run_op ∷ ops) h = scope-expired fn (fn s) ops h
  scope-once fn s (activate_op ∷ ops) h = cc
  scope-once fn s (deactivate_op ∷ ops) h = scope-expired fn s ops h

  -- The defect: a move leaves the action active in both objects, so that it runs twice when both
  -- scopes are left.
  move_from-twice :
      (fn : S → S) (s : S)
      → let (old, new) = move_from (make_scoped_lambda fn) in
        scope old (scope new s []) [] ≡ fn (fn s)
  unfolding scope make_scoped_lambda move_from
  move_from-twice fn s = refl
