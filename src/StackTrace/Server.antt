-- ===== src/StackTrace/Server.antt =====
-- src/ts/signal_handler.cc: ExternalHandler and ExternalStackTraceSignalHandler, which ask the
-- service thread for a report, and RequestProcessor, the loop of that thread. The results of the
-- system calls are arguments.
pub mod Laws
pub mod Tests
pub mod Collected
pub mod Install
pub mod Requests
use jvm.Common.{
  ℕ, suc, ◌+◌, ◌≡◌, Bool, true, false, not, List, [], ◌∷◌, ◌++◌, arith, ◌==◌, if◌then◌else◌, ℤ, pos,
  negsuc, eqb_ℤ,
}
use jvm.StackTrace.Group.{Result}
use jvm.StackTrace.Pretty.{to_pretty_string, callbacks}

pub data LogMsg : Type 0 where
  no_pipe not_sent partly_sent other_thread_group : LogMsg

-- What a handler run leaves: the descriptors opened, closed and handed to the service thread.
pub record Asked : Type 0 where
  pub opened : List ℕ
  pub closed : List ℕ
  pub handed : List ℕ
  pub log : List LogMsg

-- sizeof(int)
abbrev pub fd_size : ℕ
fd_size = 4

pub record Calls : Type 0 where
  pub pipe_ret : ℤ
  pub read_end : ℕ
  pub write_end : ℕ
  pub write_ret : ℤ

unfoldable pub external_handler : Calls → Asked
external_handler c =
    if eqb_ℤ c.pipe_ret (negsuc 0)
    then record { opened = []; closed = []; handed = []; log = no_pipe ∷ [] }
    else if eqb_ℤ c.write_ret (negsuc 0)
    then record {
      opened = c.read_end ∷ c.write_end ∷ [];
      closed = c.read_end ∷ c.write_end ∷ [];
      handed = [];
      log = not_sent ∷ [];
    }
    else if not (eqb_ℤ c.write_ret (pos fd_size))
    then record {
      opened = c.read_end ∷ c.write_end ∷ [];
      closed = c.read_end ∷ c.write_end ∷ [];
      handed = [];
      log = partly_sent ∷ [];
    }
    else record {
      opened = c.read_end ∷ c.write_end ∷ [];
      closed = c.read_end ∷ [];
      handed = c.write_end ∷ [];
      log = [];
    }

-- A forked child has no service thread: it compares its thread group with the server's.
unfoldable pub external_signal_handler : (server_tgid pid : ℕ) → Calls → Asked
unfolding external_handler
external_signal_handler server_tgid pid c =
    if not (server_tgid == pid)
    then record { opened = []; closed = []; handed = []; log = other_thread_group ∷ [] }
    else external_handler c

-- One `read` of the service thread; with a request, what its collection returns.
pub data Read : Type 0 where
  failed end_of_file : Read
  partial : (bytes : ℕ) → Read
  request : (ack_fd : ℕ) (results : List Result) → Read

pub data Effect : Type 0 where
  read_failed terminated read_partial collection_failed : Effect
  start_report end_report : (count : ℕ) → Effect
  print : List ℕ → Effect
  callback : List ℕ → Effect
  flush : Effect
  close : (fd : ℕ) → Effect

call_all : List (List ℕ) → List Effect
call_all [] = []
call_all (tids ∷ rest) = callback tids ∷ call_all rest

-- The report; `results.empty()` stands for a failed collection.
report : Bool → ℕ → List Result → List Effect
unfolding call_all
report installed count [] = collection_failed ∷ []
report installed count (r ∷ rs) =
    call_all (callbacks installed (r ∷ rs))
    ++ (print (to_pretty_string (r ∷ rs)).0 ∷ end_report count ∷ [])

-- The deferred actions run in reverse order: flush, then close the descriptor of the requester.
serve_one : Bool → ℕ → ℕ → List Result → List Effect
unfolding report
serve_one installed count ack_fd results =
    start_report count ∷ (report installed count results ++ (flush ∷ close ack_fd ∷ []))

-- The loop from the `count`-th round on; `own` is the write end of the server's own pipe.
unfoldable pub request_processor : Bool → ℕ → ℕ → List Read → List Effect
unfolding serve_one
request_processor installed own count [] = []
request_processor installed own count (failed ∷ reads) =
    read_failed ∷ request_processor installed own (suc count) reads
request_processor installed own count (end_of_file ∷ reads) = terminated ∷ close own ∷ []
request_processor installed own count (partial bytes ∷ reads) =
    read_partial ∷ request_processor installed own (suc count) reads
request_processor installed own count (request ack_fd results ∷ reads) =
    serve_one installed (suc count) ack_fd results
    ++ request_processor installed own (suc count) reads
