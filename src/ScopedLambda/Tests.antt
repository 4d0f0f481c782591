-- ===== src/ScopedLambda/Tests.antt =====
-- Examples for src/ts/common/defer.h.
use jvm.Common.{ℕ, ◌+◌, ◌≡◌, refl, List, [], ◌∷◌}
use jvm.ScopedLambda.{make_scoped_lambda, Op, run_op, deactivate_op, scope}

abbrev add_two : ℕ → ℕ
add_two n = n + 2

abbrev ops : List Op
ops = run_op ∷ deactivate_op ∷ run_op ∷ []

-- The action runs once, at the first of the three.
ops-scope : scope (make_scoped_lambda add_two) 1 ops ≡ 3
unfolding scope make_scoped_lambda
ops-scope = refl
