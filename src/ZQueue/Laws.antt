-- ===== src/ZQueue/Laws.antt =====
-- src/zqueue.h is first in, first out, for all threads together.
use jvm.Common.{◌≡◌, refl, sym, ap, ◌∙◌, List, [], ◌∷◌, ◌++◌, append_assoc, append-nil}
use jvm.ZQueue.{
  Wait, notified, timed_out, Popped, item, timeout, waiting, push, try_pop, pop, Op, push_op,
  try_pop_op, pop_op,
}

module _ {ℓ} {T : Type ℓ} where
  -- What a call has taken out.
  abbrev pub taken : Popped T → List T
  taken (item t) = t ∷ []
  taken timeout = []
  taken waiting = []

  -- What other threads push during the waits that a call makes: none once the queue has an element.
  abbrev pub arrived : List T → List (Wait T) → List T
  arrived (t ∷ que) waits = []
  arrived [] [] = []
  arrived [] (timed_out pushed ∷ waits) = pushed
  arrived [] (notified pushed ∷ waits) = pushed ++ arrived pushed waits

  abbrev pub arrived_pop : List T → List (List T) → List T
  arrived_pop (t ∷ que) waits = []
  arrived_pop [] [] = []
  arrived_pop [] (pushed ∷ waits) = pushed ++ arrived_pop pushed waits

  -- Whatever happens during the waits, what `try_pop` takes and what it leaves are together what
  -- was in the queue followed by what arrived.
  pub try_pop-order :
      (que : List T) (waits : List (Wait T))
      → let r = try_pop que waits in taken r.0 ++ r.1 ≡ que ++ arrived que waits
  unfolding try_pop
  try_pop-order (t ∷ que) waits = ap (◌∷◌ t) (sym (append-nil que))
  try_pop-order [] [] = refl
  try_pop-order [] (timed_out pushed ∷ waits) = refl
  try_pop-order [] (notified pushed ∷ waits) = try_pop-order pushed waits

  pop-order :
      (que : List T) (waits : List (List T))
      → let r = pop que waits in taken r.0 ++ r.1 ≡ que ++ arrived_pop que waits
  unfolding pop
  pop-order (t ∷ que) waits = ap (◌∷◌ t) (sym (append-nil que))
  pop-order [] [] = refl
  pop-order [] (pushed ∷ waits) = pop-order pushed waits

  -- The queue after the operations, and what they have taken out in order.
  pub run : List T → List (Op T) → List T × List T
  run que [] = (que, [])
  run que (push_op t ∷ ops) = run (push que t) ops
  run que (try_pop_op waits ∷ ops) =
      let (p, que') = try_pop que waits in let (last, out) = run que' ops in (last, taken p ++ out)
  run que (pop_op waits ∷ ops) =
      let (p, que') = pop que waits in let (last, out) = run que' ops in (last, taken p ++ out)

  -- All that is pushed, by the operations and during their waits.
  pub pushed_by : List T → List (Op T) → List T
  pushed_by que [] = []
  pushed_by que (push_op t ∷ ops) = t ∷ pushed_by (push que t) ops
  pushed_by que (try_pop_op waits ∷ ops) = arrived que waits ++ pushed_by (try_pop que waits).1 ops
  pushed_by que (pop_op waits ∷ ops) = arrived_pop que waits ++ pushed_by (pop que waits).1 ops

  regroup :
      (out last taken_ que' que arr later : List T)
      → out ++ last ≡ que' ++ later
      → taken_ ++ que' ≡ que ++ arr
      → (taken_ ++ out) ++ last ≡ que ++ (arr ++ later)
  regroup out last taken_ que' que arr later h k =
      append_assoc taken_ out last
      ∙ ap (◌++◌ taken_) h
      ∙ sym (append_assoc taken_ que' later)
      ∙ ap (λ l. l ++ later) k
      ∙ append_assoc que arr later

  -- First in, first out: for every sequence of operations, what comes out, followed by what is
  -- left, is what was there at first followed by all that was pushed, in order. Nothing is lost or
  -- doubled, also by a `try_pop` that times out.
  pub run-fifo :
      (que : List T) (ops : List (Op T))
      → let r = run que ops in r.1 ++ r.0 ≡ que ++ pushed_by que ops
  unfolding run pushed_by push
  run-fifo que [] = sym (append-nil que)
  run-fifo que (push_op t ∷ ops) = run-fifo (push que t) ops ∙ append_assoc que (t ∷ []) _
  run-fifo que (try_pop_op waits ∷ ops) =
      let (p, que') = try_pop que waits in
      let (last, out) = run que' ops in
      regroup out last (taken p) que' que (arrived que waits) (pushed_by que' ops)
        (run-fifo que' ops) (try_pop-order que waits)
  run-fifo que (pop_op waits ∷ ops) =
      let (p, que') = pop que waits in
      let (last, out) = run que' ops in
      regroup out last (taken p) que' que (arrived_pop que waits) (pushed_by que' ops)
        (run-fifo que' ops) (pop-order que waits)
