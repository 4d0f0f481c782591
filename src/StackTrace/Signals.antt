-- ===== src/StackTrace/Signals.antt =====
-- src/ts/signal_handler.cc, SignalThread, STLSetDifference and the second step of
-- StackTraceCollector::Collect: a form for each thread, handed over by a signal. A `std::set` of
-- thread ids is the list of its elements in increasing order.
pub mod Laws
use Prim.Native.Nat.{compare, Ordering}
use jvm.Common.{
  ℕ, ◌+◌, ◌≤◌, ◌<◌, ◌≡◌, refl, ap, ◌∙◌, sym, Bool, true, false, not, List, [], ◌∷◌, ◌++◌, map,
  arith, ltb, if◌then◌else◌, ℤ, pos, eqb_ℤ, append_assoc, append-nil, ◌↔◌, dec_lt,
}
use jvm.StackTrace.Form.{StackTraceForm, new_form}

-- `std::set::insert`.
unfoldable pub insert : ℕ → List ℕ → List ℕ
insert t [] = t ∷ []
insert t (x ∷ xs) =
    let rest = insert t xs in if ltb t x then t ∷ x ∷ xs else if ltb x t then x ∷ rest else x ∷ xs

-- The set of the elements of a vector.
unfoldable pub set_of : List ℕ → List ℕ
set_of [] = []
set_of (x ∷ xs) = insert x (set_of xs)

-- `std::set_difference` on two increasing ranges.
unfoldable pub set_difference : List ℕ → List ℕ → List ℕ
set_difference [] ys = []
set_difference (x ∷ xs) [] = x ∷ xs
set_difference (x ∷ xs) (y ∷ ys) = elim (compare x y) [
  | Ordering.lt ↦ x ∷ set_difference xs (y ∷ ys)
  | Ordering.eq ↦ set_difference xs ys
  | Ordering.gt ↦ set_difference (x ∷ xs) ys
]

-- What `rt_tgsigqueueinfo` is given.
pub record QueueInfo : Type 0 where
  pub signo : ℕ
  pub pid : ℕ
  pub tid : ℕ
  pub uid : ℕ
  pub payload : StackTraceForm

-- The system call is an argument.
unfoldable pub signal_thread : (QueueInfo → ℤ) → ℕ → ℕ → ℕ → ℕ → StackTraceForm → ℤ
signal_thread tgsigqueueinfo pid tid uid signum payload =
    tgsigqueueinfo (record { signo = signum; pid = pid; tid = tid; uid = uid; payload = payload })

pub record Signalled : Type 0 where
  pub failed_tids : List ℕ
  pub slot : List StackTraceForm

pub record Process : Type 0 where
  pub pid : ℕ
  pub uid : ℕ
  pub signum : ℕ
  pub tgsigqueueinfo : QueueInfo → ℤ
  -- the memory in which the form of a thread is allocated
  pub memory : ℕ → List ℤ

unfoldable pub request : Process → ℕ → ℕ → StackTraceForm
request p ack_fd tid = new_form tid ack_fd (p.memory tid)

-- Whether the signal to a thread is queued.
unfoldable pub reached : Process → ℕ → ℕ → Bool
unfolding signal_thread
reached p ack_fd tid =
    eqb_ℤ (signal_thread p.tgsigqueueinfo p.pid tid p.uid p.signum (request p ack_fd tid)) (pos 0)

-- The loop over the set of threads.
signal_from : Process → ℕ → Signalled → List ℕ → Signalled
signal_from p ack_fd s [] = s
signal_from p ack_fd s (tid ∷ tids) =
    signal_from p ack_fd
      (if not (reached p ack_fd tid)
        then record s { failed_tids = insert tid s.failed_tids }
        else record s { slot = s.slot ++ request p ack_fd tid ∷ [] })
      tids

unfoldable pub signal_all : Process → ℕ → List ℕ → Signalled
unfolding signal_from
signal_all p ack_fd = signal_from p ack_fd (record { failed_tids = []; slot = [] })

-- The list of a set: strictly increasing.
abbrev pub Above : ℕ → List ℕ → Type 0
Above n [] = Unit {0}
Above n (x ∷ xs) = (n < x) × Above n xs

abbrev pub IsIncreasing : List ℕ → Type 0
IsIncreasing [] = Unit {0}
IsIncreasing (x ∷ xs) = Above x xs × IsIncreasing xs
