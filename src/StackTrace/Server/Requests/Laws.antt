-- ===== src/StackTrace/Server/Requests/Laws.antt =====
-- What becomes of the descriptors of the requests that signals make (src/ts/signal_handler.cc).
use jvm.Common.{
  occurs, occurs-append, ℕ, ◌+◌, ◌≡◌, refl, sym, ap, ◌∙◌, Bool, true, false, List, [], ◌∷◌, ◌++◌,
  append-nil, append_assoc, arith, ◌==◌, if◌then◌else◌,
}
use jvm.StackTrace.Group.{Result}
use jvm.StackTrace.Server.{
  Asked, Calls, external_handler, external_signal_handler, Read, failed, request, end_of_file,
  partial,
}
use jvm.StackTrace.Server.Laws.{
  external_signal_handler-owned, requested, closed_fds, at_end, request_processor-acks,
}
use jvm.StackTrace.Server.Requests.{
  Run, Service, Step, signalled, asked_directly, served, interrupted, ended, serve, terminate,
  hand_over, handle, backtrace, Reach, start, later, effects,
}

-- The descriptors that the runs in the process of the service have opened and closed, those that
-- the runs of other processes have written to the pipe, and all that were written.
abbrev pub opened_in : ℕ → List Run → List ℕ
opened_in tgid [] = []
opened_in tgid (r ∷ rs) =
    let rest = opened_in tgid rs in if r.pid == tgid then r.asked.opened ++ rest else rest

abbrev pub closed_in : ℕ → List Run → List ℕ
closed_in tgid [] = []
closed_in tgid (r ∷ rs) =
    let rest = closed_in tgid rs in if r.pid == tgid then r.asked.closed ++ rest else rest

abbrev pub handed_outside : ℕ → List Run → List ℕ
handed_outside tgid [] = []
handed_outside tgid (r ∷ rs) =
    let rest = handed_outside tgid rs in if r.pid == tgid then rest else r.asked.handed ++ rest

abbrev pub all_handed : List Run → List ℕ
all_handed [] = []
all_handed (r ∷ rs) = r.asked.handed ++ all_handed rs

all_handed-append :
    (xs : List Run) (r : Run) → all_handed (xs ++ r ∷ []) ≡ all_handed xs ++ r.asked.handed
all_handed-append [] r = append-nil r.asked.handed
all_handed-append (x ∷ xs) r =
    ap (◌++◌ x.asked.handed) (all_handed-append xs r)
    ∙ sym (append_assoc x.asked.handed (all_handed xs) r.asked.handed)

-- Each run of the handler has closed or written what it opened.
abbrev AllOwned : List Run → Type 0
AllOwned [] = Unit {0}
AllOwned (r ∷ rs) = (r.asked.closed ++ r.asked.handed ≡ r.asked.opened) × AllOwned rs

AllOwned-append :
    (xs : List Run) (r : Run)
    → AllOwned xs
    → r.asked.closed ++ r.asked.handed ≡ r.asked.opened
    → AllOwned (xs ++ r ∷ [])
AllOwned-append [] r o e = (e, tt)
AllOwned-append (x ∷ xs) r (f, o) e = (f, AllOwned-append xs r o e)

occurs-AllOwned :
    (tgid fd : ℕ) (xs : List Run)
    → AllOwned xs
    → occurs fd (opened_in tgid xs) + occurs fd (handed_outside tgid xs)
      ≡ occurs fd (closed_in tgid xs) + occurs fd (all_handed xs)
occurs-AllOwned tgid fd [] o = refl
occurs-AllOwned tgid fd (x ∷ xs) (e, o) = ground (
  arith,
  occurs-AllOwned tgid fd xs o,
  occurs-append fd x.asked.opened (opened_in tgid xs),
  occurs-append fd x.asked.closed (closed_in tgid xs),
  occurs-append fd x.asked.handed (all_handed xs),
  occurs-append fd x.asked.handed (handed_outside tgid xs),
  ap (occurs fd) e,
  occurs-append fd x.asked.closed x.asked.handed,
)

-- Before the end of the file the requests of two stretches of reads follow each other.
requested-append :
    (own : ℕ) (xs ys : List Read)
    → at_end own xs ≡ []
    → (requested (xs ++ ys) ≡ requested xs ++ requested ys)
      × (at_end own (xs ++ ys) ≡ at_end own ys)
requested-append own [] ys e = (refl, refl)
requested-append own (failed ∷ xs) ys e = requested-append own xs ys e
requested-append own (end_of_file ∷ xs) ys e = cc
requested-append own (partial bytes ∷ xs) ys e = requested-append own xs ys e
requested-append own (request fd results ∷ xs) ys e =
    let (r, a) = requested-append own xs ys e in (ap (◌∷◌ fd) r, a)

-- The pipe is first in, first out, its write end is open, and the service goes on.
record Inv (own : ℕ) (s : Service) : Type 0 where
  owned : AllOwned s.runs
  fifo : all_handed s.runs ≡ requested s.reads ++ s.pipe
  still_open : at_end own s.reads ≡ []
  writable : s.own_open ≡ true
  running : s.terminated ≡ false

-- The number of the write end was not written to the pipe.
abbrev pub Spared : ℕ → Service → Type 0
Spared own s = occurs own (all_handed s.runs) ≡ 0

hand_over-Spared :
    (own pid : ℕ) (a : Asked) (s : Service) → Spared own (hand_over pid a s) → Spared own s
unfolding hand_over
hand_over-Spared own pid a s h = omega (
  arith,
  h,
  ap (occurs own) (all_handed-append s.runs (record { pid = pid; asked = a })),
  occurs-append own (all_handed s.runs) a.handed,
)

hand_over-Inv :
    (own pid : ℕ) (a : Asked) (s : Service)
    → a.closed ++ a.handed ≡ a.opened
    → Inv own s
    → Inv own (hand_over pid a s)
unfolding hand_over
hand_over-Inv own pid a s e i = record {
  owned = AllOwned-append s.runs (record { pid = pid; asked = a }) i.owned e;
  fifo =
      all_handed-append s.runs (record { pid = pid; asked = a })
      ∙ (ap (λ l. l ++ a.handed) i.fifo ∙ append_assoc (requested s.reads) s.pipe a.handed);
  still_open = i.still_open;
  writable = i.writable;
  running = i.running;
}

external_handler-owned : (c : Calls) → let a = external_handler c in a.closed ++ a.handed ≡ a.opened
unfolding external_handler
external_handler-owned c = ground arith

Step-Spared : {own tgid : ℕ} {s t : Service} → Step tgid own s t → Spared own t → Spared own s
unfolding handle backtrace serve terminate
Step-Spared {own} {tgid} {s} (signalled pid c) h =
    hand_over-Spared own pid (external_signal_handler tgid pid c) s h
Step-Spared {own} {tgid} {s} (asked_directly pid c) h =
    hand_over-Spared own pid (external_handler c) s h
Step-Spared (served fd rest results r e) h = h
Step-Spared (interrupted r) h = h
Step-Spared (ended r e o) h = h

served-Inv :
    (own fd : ℕ) (rest : List ℕ) (results : List Result) (s : Service)
    → s.pipe ≡ fd ∷ rest
    → Spared own s
    → Inv own s
    → Inv own (serve own fd rest results s)
unfolding serve
served-Inv own fd rest results s e h i =
    let (r, a) = requested-append own s.reads (request fd results ∷ []) i.still_open in
    record {
      owned = i.owned;
      fifo =
          i.fifo
          ∙ (ap (◌++◌ (requested s.reads)) e
              ∙ (sym (append_assoc (requested s.reads) (fd ∷ []) rest)
                  ∙ ap (λ l. l ++ rest) (sym r)));
      still_open = a;
      writable = ground (
        arith,
        h,
        i.writable,
        ap (occurs own) i.fifo,
        ap (occurs own) e,
        occurs-append own (requested s.reads) s.pipe,
      );
      running = i.running;
    }

Step-Inv : {own tgid : ℕ} {s t : Service} → Step tgid own s t → Spared own s → Inv own s → Inv own t
unfolding handle backtrace
Step-Inv {own} {tgid} {s} (signalled pid c) h i =
    hand_over-Inv own pid (external_signal_handler tgid pid c) s
      (external_signal_handler-owned tgid pid c).0 i
Step-Inv {own} {tgid} {s} (asked_directly pid c) h i =
    hand_over-Inv own pid (external_handler c) s (external_handler-owned c) i
Step-Inv {own} {tgid} {s} (served fd rest results r e) h i = served-Inv own fd rest results s e h i
Step-Inv {own} {tgid} {s} (interrupted r) h i =
    let (r, a) = requested-append own s.reads (failed ∷ []) i.still_open in
    record {
      owned = i.owned;
      fifo = i.fifo ∙ ap (λ l. l ++ s.pipe) (sym (r ∙ append-nil (requested s.reads)));
      still_open = a;
      writable = i.writable;
      running = i.running;
    }
Step-Inv (ended r e o) h i = absurd (ground (arith, i.writable, o))

Reach-Inv : {own tgid : ℕ} {s : Service} → Reach tgid own s → Spared own s → Inv own s
Reach-Inv start h = record {
  owned = tt;
  fifo = refl;
  still_open = refl;
  writable = refl;
  running = refl;
}
Reach-Inv (later r st) h = let h' = Step-Spared st h in Step-Inv st h' (Reach-Inv r h')

closed_fds-effects :
    (installed : Bool) (own : ℕ) (s : Service)
    → Inv own s
    → closed_fds (effects installed own s) ≡ requested s.reads
unfolding effects
closed_fds-effects installed own s i =
    (request_processor-acks installed own 0 s.reads).1
    ∙ (ap (◌++◌ (requested s.reads)) i.still_open ∙ append-nil (requested s.reads))

-- Whatever signals and calls of backtrace come, in the process of the service and in others, and
-- whether or not the collections succeed, as long as no request has the number of the service's own
-- write end: in the process of the service a descriptor is closed, by its handler or by the service
-- thread, as often as its handlers have opened it and other processes have written its number to the
-- pipe, save those that wait in the pipe. The service thread closes the descriptors in the order in
-- which they were written, whoever wrote them, and has not come to its end.
pub occurs-effects :
    {tgid own : ℕ} {s : Service} (installed : Bool) (fd : ℕ)
    → Reach tgid own s
    → occurs own (all_handed s.runs) ≡ 0
    → let by_server = closed_fds (effects installed own s) in
      (occurs fd (opened_in tgid s.runs) + occurs fd (handed_outside tgid s.runs)
        ≡ occurs fd (closed_in tgid s.runs) + occurs fd by_server + occurs fd s.pipe)
      × (all_handed s.runs ≡ by_server ++ s.pipe)
      × (s.terminated ≡ false)
occurs-effects {tgid} {own} {s} installed fd r spared =
    let i = Reach-Inv r spared in
    let c = closed_fds-effects installed own s i in
    let h = i.fifo ∙ ap (λ l. l ++ s.pipe) (sym c) in
    (
      omega (
        arith,
        occurs-AllOwned tgid fd s.runs i.owned,
        ap (occurs fd) h,
        occurs-append fd (closed_fds (effects installed own s)) s.pipe,
      ),
      h,
      i.running,
    )
