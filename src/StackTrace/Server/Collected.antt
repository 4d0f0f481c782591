-- ===== src/StackTrace/Server/Collected.antt =====
-- src/ts/signal_handler.cc: a request to the service thread whose results are those of a collection.
use mathlib.Core.List.{Perm}
use jvm.Common.{
  ℕ, suc, ◌≡◌, ◌≢◌, ◌⊎◌, inl, inr, refl, ap, true, List, [], ◌∷◌, ◌++◌, length, some, none, arith,
}
use jvm.StackTrace.Form.{max_depth}
use jvm.StackTrace.Group.{Result}
use jvm.StackTrace.Group.Laws.{result_tids}
use jvm.StackTrace.Collect.{Os, Collected, collect}
use jvm.StackTrace.Collect.Laws.{signalled, collect-error, collect-perm}
use jvm.StackTrace.Pretty.{to_pretty_string, callbacks}
use jvm.StackTrace.Server.{
  Read, request, Effect, collection_failed, start_report, end_report, print, callback, flush, close,
  request_processor,
}

to_pretty_string-tids : (rs : List Result) → (to_pretty_string rs).1 ≡ result_tids rs
unfolding to_pretty_string
to_pretty_string-tids [] = refl
to_pretty_string-tids (r ∷ rs) = ap (◌++◌ r.tids) (to_pretty_string-tids rs)

-- What a request with results does, where a callback is installed.
abbrev pub answered : ℕ → ℕ → List ℕ → List Result → List Effect
answered count ack_fd tids results =
    start_report count
    ∷ callback tids
    ∷ print (to_pretty_string results).0
    ∷ end_report count
    ∷ flush
    ∷ close ack_fd
    ∷ []

-- What a request without results does.
abbrev pub refused : ℕ → ℕ → List Effect
refused count ack_fd = start_report count ∷ collection_failed ∷ flush ∷ close ack_fd ∷ []

request_processor-results :
    (own count ack_fd : ℕ) (reads : List Read) (rs : List Result)
    → let rest = request_processor true own (suc count) reads in
      ((rs ≡ [])
        × (request_processor true own count (request ack_fd rs ∷ reads)
            ≡ refused (suc count) ack_fd ++ rest))
      ⊎ ((rs ≢ [])
          × (request_processor true own count (request ack_fd rs ∷ reads)
              ≡ answered (suc count) ack_fd (result_tids rs) rs ++ rest))
unfolding request_processor callbacks
request_processor-results own count ack_fd reads [] = inl (refl, refl)
request_processor-results own count ack_fd reads (r ∷ rs) = inr (
  λ e. ground arith,
  ap
      (λ tids.
        start_report (suc count)
        ∷ callback (r.tids ++ tids)
        ∷ print (to_pretty_string (r ∷ rs)).0
        ∷ end_report (suc count)
        ∷ flush
        ∷ close ack_fd
        ∷ request_processor true own (suc count) reads)
      (to_pretty_string-tids rs),
)

-- When the form of each thread lies in memory of the declared size, a callback is installed and the
-- collection for a request returns, then the service thread either reports a failure, because the
-- collection has no results, or hands to the callback the threads that received the signal, each
-- exactly once, prints the report and marks its end, and the collection had no error. In both cases
-- it flushes stderr and then closes the descriptor of the requester, before it reads the next request.
pub request_processor-collect :
    (os : Os) (c : Collected) (own count ack_fd : ℕ) (reads : List Read)
    → ((t : ℕ) → length (os.process.memory t) ≡ max_depth)
    → collect os ≡ some c
    → let rest = request_processor true own (suc count) reads in
      ((c.results ≡ [])
        × (request_processor true own count (request ack_fd c.results ∷ reads)
            ≡ refused (suc count) ack_fd ++ rest))
      ⊎ ((tids : List ℕ) × Perm tids (signalled os)
          × (c.error ≡ none)
          × (request_processor true own count (request ack_fd c.results ∷ reads)
              ≡ answered (suc count) ack_fd tids c.results ++ rest))
request_processor-collect os c own count ack_fd reads sized h =
    elim (request_processor-results own count ack_fd reads c.results) [
      | inl r ↦ inl r
      | inr (ne, r) ↦ elim (collect-error os c h) [
        | inl (e, n) ↦ inr (result_tids c.results, collect-perm os c sized h e, e, r)
        | inr (empty, n) ↦ absurd (ne empty)
      ]
    ]
