-- ===== src/StackTrace/Server/Requests.antt =====
-- src/ts/signal_handler.cc: the handler of the external signal, which any thread may run at any
-- time, backtrace, which asks for the same, and the service thread, with the pipe between them. A
-- forked child has the pipe too: each run of the two has the process in which it runs.
pub mod Laws
use jvm.Common.{ℕ, ◌≡◌, Bool, true, false, List, [], ◌∷◌, ◌++◌, ◌==◌, if◌then◌else◌}
use jvm.StackTrace.Group.{Result}
use jvm.StackTrace.Server.{
  Asked, Calls, external_handler, external_signal_handler, Read, failed, end_of_file, request,
  Effect, request_processor,
}

-- A run of the handler or of backtrace in the process `pid`.
pub record Run : Type 0 where
  pub pid : ℕ
  pub asked : Asked

-- `pipe` holds the descriptors written and not yet read; `runs` are the runs of the handler and
-- `reads` the reads of the service thread, in order. `own_open`: the service's process has the write
-- end of the pipe open. `terminated`: the loop of the service thread has come to its end.
pub record Service : Type 0 where
  pub pipe : List ℕ
  pub runs : List Run
  pub reads : List Read
  pub own_open : Bool
  pub terminated : Bool

abbrev pub idle : Service
idle = record { pipe = []; runs = []; reads = []; own_open = true; terminated = false }

-- A run of a handler comes to its end: what it hands over, it has written to the pipe. The writes
-- are atomic, four bytes each.
unfoldable pub hand_over : ℕ → Asked → Service → Service
hand_over pid a s = record s {
  pipe = s.pipe ++ a.handed;
  runs = s.runs ++ record { pid = pid; asked = a } ∷ [];
}

unfoldable pub handle : (server_tgid pid : ℕ) → Calls → Service → Service
unfolding external_signal_handler hand_over
handle server_tgid pid c s = hand_over pid (external_signal_handler server_tgid pid c) s

-- `backtrace`, which asks without a signal and without a look at the thread group.
unfoldable pub backtrace : (pid : ℕ) → Calls → Service → Service
unfolding external_handler hand_over
backtrace pid c s = hand_over pid (external_handler c) s

-- The service thread reads a request, serves it and closes its descriptor, which is the write end
-- of the pipe if it has that number.
unfoldable pub serve : (own fd : ℕ) → List ℕ → List Result → Service → Service
serve own fd rest results s = record s {
  pipe = rest;
  reads = s.reads ++ request fd results ∷ [];
  own_open = if fd == own then false else s.own_open;
}

-- It reads the end of the file, closes the write end, and is at its end.
unfoldable pub terminate : Service → Service
terminate s = record s { reads = s.reads ++ end_of_file ∷ []; own_open = false; terminated = true }

-- The read end of the pipe can see the end of the file only if the pipe is empty and its write end,
-- `own`, is not open in the service's process.
pub data Step (server_tgid own : ℕ) (s : Service) : Service → Type 0 where
  signalled : (pid : ℕ) (c : Calls) → Step server_tgid own s (handle server_tgid pid c s)
  asked_directly : (pid : ℕ) (c : Calls) → Step server_tgid own s (backtrace pid c s)
  served :
      (fd : ℕ) (rest : List ℕ) (results : List Result)
      → s.terminated ≡ false
      → s.pipe ≡ fd ∷ rest
      → Step server_tgid own s (serve own fd rest results s)
  interrupted :
      s.terminated ≡ false → Step server_tgid own s (record s { reads = s.reads ++ failed ∷ [] })
  ended :
      s.terminated ≡ false → s.pipe ≡ [] → s.own_open ≡ false → Step server_tgid own s (terminate s)

pub data Reach (server_tgid own : ℕ) : Service → Type 0 where
  start : Reach server_tgid own idle
  later :
      {s t : Service} → Reach server_tgid own s → Step server_tgid own s t → Reach server_tgid own t

-- What the service thread has done; `own` is the write end of its own pipe.
unfoldable pub effects : (installed : Bool) (own : ℕ) → Service → List Effect
unfolding request_processor
effects installed own s = request_processor installed own 0 s.reads
