-- ===== src/ZQueue.antt =====
-- src/zqueue.h: the queue between threads. The lock makes each operation one step; a wait releases
-- it, so what other threads push meanwhile is an argument.
pub mod Laws
pub mod Tests
use jvm.Common.{
  ℕ, suc, ◌+◌, ◌-◌, ◌%◌, ◌^◌, ◌<◌, ◌≡◌, List, [], ◌∷◌, ◌++◌, ltb, if◌then◌else◌, length, ℤ, pos,
  negsuc,
}

-- How a wait of at most two seconds ends, and what was pushed during it.
pub data Wait {ℓ} (T : Type ℓ) : Type ℓ where
  notified : (pushed : List T) → Wait T
  timed_out : (pushed : List T) → Wait T

pub data Popped {ℓ} (T : Type ℓ) : Type ℓ where
  item : T → Popped T
  timeout : Popped T
  waiting : Popped T

module _ {ℓ} {T : Type ℓ} where
  unfoldable pub push : List T → T → List T
  push que t = que ++ t ∷ []

  -- `waiting` means that the call has not returned after the given waits.
  unfoldable pub try_pop : List T → List (Wait T) → Popped T × List T
  try_pop (t ∷ que) waits = (item t, que)
  try_pop [] [] = (waiting, [])
  try_pop [] (timed_out pushed ∷ waits) = (timeout, pushed)
  try_pop [] (notified pushed ∷ waits) = try_pop pushed waits

  -- `pop` waits without a limit.
  unfoldable pub pop : List T → List (List T) → Popped T × List T
  pop (t ∷ que) waits = (item t, que)
  pop [] [] = (waiting, [])
  pop [] (pushed ∷ waits) = pop pushed waits

  -- `size_t` to `int`.
  unfoldable pub count : List T → ℤ
  count que =
      let n = length que % 2 ^ 32 in if ltb n (2 ^ 31) then pos n else negsuc (2 ^ 32 - n - 1)

  -- `while(!que_.empty()) que_.pop()`.
  unfoldable pub clear : List T → List T
  clear [] = []
  clear (t ∷ que) = clear que

-- The operations on one queue, in the order in which they get the lock.
pub data Op {ℓ} (T : Type ℓ) : Type ℓ where
  push_op : T → Op T
  try_pop_op : List (Wait T) → Op T
  pop_op : List (List T) → Op T
