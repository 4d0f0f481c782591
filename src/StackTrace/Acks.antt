-- ===== src/StackTrace/Acks.antt =====
-- src/ts/signal_handler.cc, the fourth step of StackTraceCollector::Collect: the loop that waits
-- for one ack from each signalled thread, or for the timer. What `select` and `read` return in each
-- round is an argument; the loop is blocked in `select` when the list ends.
use jvm.Common.{
  ℕ, ◌+◌, ◌≡◌, Bool, true, false, List, [], ◌∷◌, Option, none, some, arith, ltb, leb, if◌then◌else◌,
  ℤ, pos, eqb_ℤ,
}

pub data Round : Type 0 where
  select_failed : Round
  none_ready : Round
  -- which descriptors are set, and what `read` on the pipe returns if it is called
  ready : (timer pipe : Bool) (num_read : ℤ) → Round

pub data Waited : Type 0 where
  all_acked : Waited
  timed_out : (acks : ℕ) → Waited
  blocked : (acks : ℕ) → Waited

-- One round: the new number of acks, `none` when the timer has fired.
react : ℕ → Round → Option ℕ
react acks select_failed = some acks
react acks none_ready = some acks
react acks (ready true pipe num_read) = none
react acks (ready false false num_read) = some acks
react acks (ready false true num_read) =
    if eqb_ℤ num_read (pos 1) then some (acks + 1) else some acks

-- `while (acks < tids.size())`.
unfoldable pub wait_acks : ℕ → ℕ → List Round → Waited
unfolding react
wait_acks n acks [] = if ltb acks n then blocked acks else all_acked
wait_acks n acks (e ∷ es) = elim (ltb acks n) [
  | false ↦ all_acked
  | true ↦ elim (react acks e) [ none ↦ timed_out acks | some acks' ↦ wait_acks n acks' es ]
]

-- The acks that are read before the timer fires, and whether it fires.
abbrev pub acks_before : List Round → ℕ
acks_before [] = 0
acks_before (select_failed ∷ es) = acks_before es
acks_before (none_ready ∷ es) = acks_before es
acks_before (ready true pipe num_read ∷ es) = 0
acks_before (ready false false num_read ∷ es) = acks_before es
acks_before (ready false true num_read ∷ es) =
    (if eqb_ℤ num_read (pos 1) then 1 else 0) + acks_before es

abbrev pub timer_fires : List Round → Bool
timer_fires [] = false
timer_fires (select_failed ∷ es) = timer_fires es
timer_fires (none_ready ∷ es) = timer_fires es
timer_fires (ready true pipe num_read ∷ es) = true
timer_fires (ready false pipe num_read ∷ es) = timer_fires es

wait_acks-from :
    (n acks : ℕ) (es : List Round)
    → wait_acks n acks es ≡ (
        if leb n (acks + acks_before es)
        then all_acked
        else if timer_fires es
        then timed_out (acks + acks_before es)
        else blocked (acks + acks_before es))
unfolding wait_acks
wait_acks-from n acks [] = ground arith
wait_acks-from n acks (select_failed ∷ es) = ground (arith, wait_acks-from n acks es)
wait_acks-from n acks (none_ready ∷ es) = ground (arith, wait_acks-from n acks es)
wait_acks-from n acks (ready true pipe num_read ∷ es) = ground arith
wait_acks-from n acks (ready false false num_read ∷ es) = ground (arith, wait_acks-from n acks es)
wait_acks-from n acks (ready false true num_read ∷ es) =
    ground (arith, wait_acks-from n acks es, wait_acks-from n (acks + 1) es)

-- The wait succeeds exactly when an ack from each of the `n` threads can be read before the timer
-- fires; else it ends with the timer and reports the acks read so far, or is still blocked.
pub wait_acks_lem :
    (n : ℕ) (es : List Round)
    → wait_acks n 0 es ≡ (
        if leb n (acks_before es)
        then all_acked
        else if timer_fires es
        then timed_out (acks_before es)
        else blocked (acks_before es))
wait_acks_lem n es = ground (arith, wait_acks-from n 0 es)
