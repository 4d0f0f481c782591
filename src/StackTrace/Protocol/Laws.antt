-- ===== src/StackTrace/Protocol/Laws.antt =====
-- What holds of every interleaving of the collector and the handlers of src/ts/signal_handler.cc.
use jvm.Common.{ℕ, zero, suc, ◌+◌, ◌≤◌, ◌<◌, ◌≡◌, ◌≢◌, refl, arith, ℕ_discrete}
use jvm.StackTrace.Protocol.Total.{total, total-update}
use jvm.Common.{update}
use jvm.StackTrace.Protocol.{
  Handler, pending, filled, acked, gave_up, faulted, Collector, waiting, finished, expired, System,
  Step, fill, ack, give_up, fill_late, ack_late, read_ack, finish, expire, init, Reach, start,
  later,
}

unfoldable pub weight : Handler → ℕ
weight pending = 0
weight filled = 0
weight acked = 1
weight gave_up = 0
weight faulted = 0

-- How many of the first `n` handlers have acked.
abbrev pub count : ℕ → (ℕ → Handler) → ℕ
count n h = total weight n h

weight-le : (a : Handler) → weight a ≤ 1
unfolding weight
weight-le pending = omega arith
weight-le filled = omega arith
weight-le acked = omega arith
weight-le gave_up = omega arith
weight-le faulted = omega arith

count-le : (n : ℕ) (h : ℕ → Handler) → count n h ≤ n
unfolding total
count-le zero h = omega arith
count-le (suc n) h = omega (arith, count-le n h, weight-le (h n))

weight-acked : (a : Handler) → 1 ≤ weight a → a ≡ acked
unfolding weight
weight-acked pending h = absurd (omega arith)
weight-acked filled h = absurd (omega arith)
weight-acked acked h = refl
weight-acked gave_up h = absurd (omega arith)
weight-acked faulted h = absurd (omega arith)

count-full : (n : ℕ) (h : ℕ → Handler) → n ≤ count n h → (i : ℕ) → i < n → h i ≡ acked
unfolding total
count-full zero h full i lt = absurd (omega arith)
count-full (suc n) h full i lt = elim (ℕ_discrete i n) [
  | yes e ↦ rw e (weight-acked (h n) (omega (arith, count-le n h)))
  | no ne ↦ count-full n h (omega (arith, weight-le (h n))) i (omega arith)
]

-- While the collector waits, each ack is counted or in the pipe, and nothing has gone wrong.
record Inv (n : ℕ) (s : System) : Type 0 where
  counted : (acks : ℕ) → s.collector ≡ waiting acks → acks + s.pipe ≡ count n s.handler
  complete : s.collector ≡ finished → n ≤ count n s.handler
  safe : (i : ℕ) → s.collector ≢ expired → s.handler i ≢ faulted

count-pending : (n : ℕ) → count n (λ _. pending) ≡ 0
unfolding total weight
count-pending zero = refl
count-pending (suc n) = omega (arith, count-pending n)

init-Inv : (n : ℕ) → Inv n init
init-Inv n = record {
  counted = λ acks e. ground (arith, count-pending n);
  complete = λ e. cc;
  safe = λ i ne e. cc;
}

-- No handler moves late after a return with results: all have acked.
late-expired :
    {n : ℕ} {s : System} (i : ℕ)
    → Inv n s
    → i < n
    → ((acks : ℕ) → s.collector ≢ waiting acks)
    → s.handler i ≢ acked
    → s.collector ≡ expired
late-expired {n} {s} i v lt w ne = go s.collector refl
  where
    go : (c : Collector) → s.collector ≡ c → s.collector ≡ expired
    go (waiting acks) e = absurd (w acks e)
    go finished e = absurd (ne (count-full n s.handler (v.complete e) i lt))
    go expired e = e

late-Inv :
    {n : ℕ} {s : System} (i : ℕ)
    → s.collector ≡ expired
    → Inv n s
    → Inv n (record s { handler = update s.handler i faulted })
late-Inv {n} {s} i x v = record {
  counted = λ acks e. cc;
  complete = λ e. cc;
  safe = λ j ne. absurd (ne x);
}

Step-Inv : {n : ℕ} {s t : System} → Step n s t → Inv n s → Inv n t
unfolding weight
Step-Inv {n} {s} (fill i acks lt w p) v = record {
  counted = λ k e. ground (arith, total-update weight n i s.handler filled lt, v.counted k e);
  complete = λ e. cc;
  safe = λ j ne. ground (arith, v.safe j ne);
}
Step-Inv {n} {s} (ack i acks lt w p) v = record {
  counted = λ k e. ground (arith, total-update weight n i s.handler acked lt, v.counted k e);
  complete = λ e. cc;
  safe = λ j ne. ground (arith, v.safe j ne);
}
Step-Inv {n} {s} (give_up i lt p) v = record {
  counted = λ k e. ground (arith, total-update weight n i s.handler gave_up lt, v.counted k e);
  complete = λ e. ground (arith, total-update weight n i s.handler gave_up lt, v.complete e);
  safe = λ j ne. ground (arith, v.safe j ne);
}
Step-Inv {n} {s} (fill_late i lt w p) v = late-Inv i (late-expired i v lt w (λ e. cc)) v
Step-Inv {n} {s} (ack_late i lt w p) v = late-Inv i (late-expired i v lt w (λ e. cc)) v
Step-Inv {n} {s} (read_ack acks pipe w lt p) v = record {
  counted = λ k e. ground (arith, v.counted acks w);
  complete = λ e. cc;
  safe = λ j ne. v.safe j (λ e. cc);
}
Step-Inv {n} {s} (finish acks w le) v = record {
  counted = λ k e. cc;
  complete = λ e. omega (arith, v.counted acks w);
  safe = λ j ne. v.safe j (λ e. cc);
}
Step-Inv {n} {s} (expire acks w lt) v = record {
  counted = λ k e. cc;
  complete = λ e. cc;
  safe = λ j ne. absurd (ne refl);
}

Reach-Inv : {n : ℕ} {s : System} → Reach n s → Inv n s
Reach-Inv {n} start = init-Inv n
Reach-Inv (later r st) = Step-Inv st (Reach-Inv r)

-- While the collector waits, each ack that was written is counted or in the pipe.
pub acks-count :
    {n : ℕ} {s : System} (acks : ℕ)
    → Reach n s
    → s.collector ≡ waiting acks
    → acks + s.pipe ≡ count n s.handler
acks-count acks r e = let v = Reach-Inv r in v.counted acks e

pub count-acked : (n : ℕ) (h : ℕ → Handler) → ((i : ℕ) → i < n → h i ≡ acked) → count n h ≡ n
unfolding total weight
count-acked zero h all = refl
count-acked (suc n) h all =
    ground (arith, count-acked n h (λ i lt. all i (omega arith)), all n (omega arith))

-- When the collector returns with results, every signalled thread has submitted its form.
pub finished-acked :
    {n : ℕ} {s : System}
    → Reach n s
    → s.collector ≡ finished
    → (i : ℕ) → i < n
    → s.handler i ≡ acked
finished-acked {n} {s} r e i lt = let v = Reach-Inv r in count-full n s.handler (v.complete e) i lt

-- Unless the timer has fired, no handler has touched a form that is gone.
pub Reach-safe :
    {n : ℕ} {s : System} → Reach n s → s.collector ≢ expired → (i : ℕ) → s.handler i ≢ faulted
Reach-safe r ne i = let v = Reach-Inv r in v.safe i ne
