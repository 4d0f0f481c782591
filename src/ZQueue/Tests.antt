-- ===== src/ZQueue/Tests.antt =====
-- Examples for src/zqueue.h.
use jvm.Common.{ℕ, ◌≡◌, List, [], ◌∷◌, ◌++◌}
use jvm.ZQueue.{notified, timed_out, Op, push_op, try_pop_op, pop_op}
use jvm.ZQueue.Laws.{run, pushed_by, run-fifo}

abbrev ops : List (Op ℕ)
ops =
    push_op 5
    ∷ try_pop_op []
    ∷ try_pop_op (notified [] ∷ notified (6 ∷ 7 ∷ []) ∷ [])
    ∷ try_pop_op []
    ∷ try_pop_op (timed_out (8 ∷ []) ∷ [])
    ∷ pop_op []
    ∷ []

run-fifo_example : let r = run [] ops in r.1 ++ r.0 ≡ [] ++ pushed_by [] ops
run-fifo_example = run-fifo [] ops
