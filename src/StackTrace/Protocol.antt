-- ===== src/StackTrace/Protocol.antt =====
-- src/ts/signal_handler.cc: the collector and the handlers of the signalled threads, interleaved.
-- The collector owns the forms: they live until StackTraceCollector::Collect returns. A handler
-- first writes into its form (AddAddress), then reads the descriptor from it and acks (Submit).
pub mod Total
pub mod Laws
use jvm.Common.{update, ite, ℕ, suc, ◌+◌, ◌≤◌, ◌<◌, ◌≡◌, ◌≢◌, ℕ_discrete}

-- How far the handler of a thread is. `faulted` is an access to a form that is gone.
pub data Handler : Type 0 where
  pending filled acked gave_up faulted : Handler

-- The loop of the fourth step with the acks counted so far, the return with results, and the
-- return after the timer has fired.
pub data Collector : Type 0 where
  waiting : (acks : ℕ) → Collector
  finished expired : Collector

pub record System : Type 0 where
  pub collector : Collector
  -- acks written and not yet read
  pub pipe : ℕ
  pub handler : ℕ → Handler

-- `n` is `tids.size()`. The forms live while the collector waits.
pub data Step (n : ℕ) (s : System) : System → Type 0 where
  fill :
      (i acks : ℕ)
      → i < n
      → s.collector ≡ waiting acks
      → s.handler i ≡ pending
      → Step n s (record s { handler = update s.handler i filled })
  ack :
      (i acks : ℕ)
      → i < n
      → s.collector ≡ waiting acks
      → s.handler i ≡ filled
      → Step n s (record s { handler = update s.handler i acked; pipe = suc s.pipe })
  give_up :
      (i : ℕ)
      → i < n
      → s.handler i ≡ pending
      → Step n s (record s { handler = update s.handler i gave_up })
  fill_late :
      (i : ℕ)
      → i < n
      → ((acks : ℕ) → s.collector ≢ waiting acks)
      → s.handler i ≡ pending
      → Step n s (record s { handler = update s.handler i faulted })
  ack_late :
      (i : ℕ)
      → i < n
      → ((acks : ℕ) → s.collector ≢ waiting acks)
      → s.handler i ≡ filled
      → Step n s (record s { handler = update s.handler i faulted })
  read_ack :
      (acks pipe : ℕ)
      → s.collector ≡ waiting acks
      → acks < n
      → s.pipe ≡ suc pipe
      → Step n s (record s { collector = waiting (suc acks); pipe = pipe })
  finish :
      (acks : ℕ)
      → s.collector ≡ waiting acks
      → n ≤ acks
      → Step n s (record s { collector = finished })
  expire :
      (acks : ℕ)
      → s.collector ≡ waiting acks
      → acks < n
      → Step n s (record s { collector = expired })

abbrev pub init : System
init = record { collector = waiting 0; pipe = 0; handler = λ _. pending }

pub data Reach (n : ℕ) : System → Type 0 where
  start : Reach n init
  later : {s t : System} → Reach n s → Step n s t → Reach n t
