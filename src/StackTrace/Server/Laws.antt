-- ===== src/StackTrace/Server/Laws.antt =====
-- What the stack trace service of src/ts/signal_handler.cc promises to those who ask it.
use jvm.Common.{
  ◌⊎◌, ℕ, suc, ◌≡◌, refl, ap, ◌∙◌, Bool, true, false, List, [], ◌∷◌, ◌++◌, arith, ◌==◌,
}
use jvm.StackTrace.Group.{Result}
use jvm.StackTrace.Pretty.{callbacks}
use jvm.StackTrace.Server.{
  Calls, external_signal_handler, Read, failed, end_of_file, partial, request, Effect, flush, close,
  serve_one, request_processor,
}

-- Each descriptor that the handler opens is either closed by it or handed to the service thread,
-- never both and never neither; nothing is opened in a process of another thread group.
pub external_signal_handler-owned :
    (server_tgid pid : ℕ) (c : Calls)
    → let a = external_signal_handler server_tgid pid c in
      (a.closed ++ a.handed ≡ a.opened) × (((server_tgid == pid) ≡ true) ⊎ (a.opened ≡ []))
unfolding external_signal_handler
external_signal_handler-owned server_tgid pid c = ground arith

-- The descriptors that are closed right after a flush of stderr.
abbrev pub acks : List Effect → List ℕ
acks [] = []
acks (flush ∷ close fd ∷ es) = fd ∷ acks es
acks (e ∷ es) = acks es

-- The descriptors of the requests before the end of the input.
abbrev pub requested : List Read → List ℕ
requested [] = []
requested (failed ∷ reads) = requested reads
requested (end_of_file ∷ reads) = []
requested (partial bytes ∷ reads) = requested reads
requested (request ack_fd results ∷ reads) = ack_fd ∷ requested reads

-- Every descriptor that is closed.
abbrev pub closed_fds : List Effect → List ℕ
closed_fds [] = []
closed_fds (close fd ∷ es) = fd ∷ closed_fds es
closed_fds (e ∷ es) = closed_fds es

-- The server's own write end, once the input has ended.
abbrev pub at_end : ℕ → List Read → List ℕ
at_end own [] = []
at_end own (end_of_file ∷ reads) = own ∷ []
at_end own (e ∷ reads) = at_end own reads

serve_one-acks :
    (installed : Bool) (count ack_fd : ℕ) (results : List Result) (es : List Effect)
    → (acks (serve_one installed count ack_fd results ++ es) ≡ ack_fd ∷ acks es)
      × (closed_fds (serve_one installed count ack_fd results ++ es) ≡ ack_fd ∷ closed_fds es)
unfolding serve_one callbacks
serve_one-acks installed count ack_fd [] es = (refl, refl)
serve_one-acks true count ack_fd (r ∷ rs) es = (refl, refl)
serve_one-acks false count ack_fd (r ∷ rs) es = (refl, refl)

-- The service thread closes the descriptor of each request that it reads, in order, right after it
-- has flushed stderr, whether or not the collection succeeded. It closes nothing else but its own
-- write end, once its input has ended, and serves nothing after that.
pub request_processor-acks :
    (installed : Bool) (own count : ℕ) (reads : List Read)
    → (acks (request_processor installed own count reads) ≡ requested reads)
      × (closed_fds (request_processor installed own count reads)
          ≡ requested reads ++ at_end own reads)
unfolding request_processor
request_processor-acks installed own count [] = (refl, refl)
request_processor-acks installed own count (failed ∷ reads) =
    request_processor-acks installed own (suc count) reads
request_processor-acks installed own count (end_of_file ∷ reads) = (refl, refl)
request_processor-acks installed own count (partial bytes ∷ reads) =
    request_processor-acks installed own (suc count) reads
request_processor-acks installed own count (request ack_fd results ∷ reads) =
    let later = request_processor-acks installed own (suc count) reads in
    let now =
      serve_one-acks installed (suc count) ack_fd results
        (request_processor installed own (suc count) reads) in
    (now.0 ∙ ap (◌∷◌ ack_fd) later.0, now.1 ∙ ap (◌∷◌ ack_fd) later.1)
