-- ===== src/TraceAgent/Workers/Laws.antt =====
-- What the threads of the agent (src/trace_agent.h) do with the time stamps that they are sent.
use jvm.Common.{
  ℕ, ◌≡◌, refl, ap, sym, ◌∙◌, true, false, List, [], ◌∷◌, ◌++◌, append_assoc, append-nil,
  Bool-cases, inl, inr,
}
use jvm.ZQueue.{Popped, item, timeout, waiting, try_pop}
use jvm.ZQueue.Laws.{arrived, try_pop-order}
use jvm.TraceAgent.Workers.{Round, Worker, worker}

-- All that arrives while the worker runs: it looks at no round after its end.
abbrev pub sent : Worker → List Round → List ℕ
sent w [] = []
sent w (r ∷ rs) =
    let (p, que') = try_pop w.que r.waits in
    arrived w.que r.waits ++ (elim p [
      | item tm ↦ sent (record { que = que'; traced = w.traced ++ tm ∷ [] }) rs
      | timeout ↦
          let w' : Worker = record w { que = que' } in
          elim r.stop [ true ↦ [] | false ↦ sent w' rs ]
      | waiting ↦ []
    ])

glue :
    (t tk q' q arr s : List ℕ)
    → tk ++ q' ≡ q ++ arr
    → (t ++ tk) ++ (q' ++ s) ≡ t ++ (q ++ (arr ++ s))
glue t tk q' q arr s h =
    append_assoc t tk (q' ++ s)
    ∙ ap (◌++◌ t) (sym (append_assoc tk q' s) ∙ ap (λ l. l ++ s) h ∙ append_assoc q arr s)

abbrev Serves : Worker → List Round → Type 0
Serves w rs = let r = (worker w rs).1 in r.traced ++ r.que ≡ w.traced ++ (w.que ++ sent w rs)

-- The worker makes one collection for each time stamp, in the order in which they were sent:
-- what it has served and what is left in the queue are together all that was sent.
pub worker-serves :
    (w : Worker) (rs : List Round)
    → let r = (worker w rs).1 in r.traced ++ r.que ≡ w.traced ++ (w.que ++ sent w rs)
unfolding worker
worker-serves w [] = ap (◌++◌ w.traced) (sym (append-nil w.que))
worker-serves w (r ∷ rs) = serve (try_pop w.que r.waits).0 refl (λ w'. worker-serves w' rs)
  where
    left :
        (q : List ℕ) (s : List ℕ)
        → q ≡ w.que ++ arrived w.que r.waits
        → w.traced ++ (q ++ s) ≡ w.traced ++ (w.que ++ (arrived w.que r.waits ++ s))
    left q s h =
        ap (λ l. w.traced ++ (l ++ s)) h
        ∙ ap (◌++◌ w.traced) (append_assoc w.que (arrived w.que r.waits) s)

    serve :
        (x : Popped ℕ)
        → (try_pop w.que r.waits).0 ≡ x
        → ((w' : Worker) → Serves w' rs)
        → Serves w (r ∷ rs)
    serve (item tm) e ih =
        rw (e, worker)
          (ih (record { que = (try_pop w.que r.waits).1; traced = w.traced ++ tm ∷ [] })
            ∙ glue w.traced (tm ∷ []) (try_pop w.que r.waits).1 w.que (arrived w.que r.waits) _
                (rw e at (try_pop-order w.que r.waits)))
    serve waiting e ih =
        rw (e, worker)
          (ap (◌++◌ w.traced) (sym (append-nil (try_pop w.que r.waits).1))
            ∙ left (try_pop w.que r.waits).1 [] (rw e at (try_pop-order w.que r.waits)))
    serve timeout e ih = elim (Bool-cases r.stop) [
      | inl halt ↦
          rw (e, halt, worker)
            (ap (◌++◌ w.traced) (sym (append-nil (try_pop w.que r.waits).1))
              ∙ left (try_pop w.que r.waits).1 [] (rw e at (try_pop-order w.que r.waits)))
      | inr on ↦
          rw (e, on, worker)
            (ih (record w { que = (try_pop w.que r.waits).1 })
              ∙ left (try_pop w.que r.waits).1 _ (rw e at (try_pop-order w.que r.waits)))
    ]
