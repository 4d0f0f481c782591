-- ===== src/StackTrace/Group/Laws.antt =====
-- What the grouping of src/ts/signal_handler.cc (StackTraceCollector::Collect) promises.
use mathlib.Core.List.{Perm, perm_middle}
use mathlib.Core.List.Perm
use jvm.Common.{
  sym, subst, ◌∙◌, ℕ, ◌≡◌, refl, true, List, [], ◌∷◌, ◌++◌, Option, none, some, map, arith,
  if◌then◌else◌, ℤ, append_assoc, append-nil, Option-cases, inl, inr,
}
use jvm.StackTrace.Form.{StackTraceForm}
use jvm.StackTrace.Order.{eqb_trace, eqb_trace_iff, less, key, less_irrefl, less-total, less_trans}
use jvm.StackTrace.Group.{
  Traces, find, subscript, push_back, group_one, group_from, unique_traces, Result, resolve,
  results_of,
}

-- One pass that finds the place of a thread, the reference for the two passes of the code.
add : StackTraceForm → Traces → Traces
add f [] = (f, f.tid ∷ []) ∷ []
add f ((e, ts) ∷ m) =
    let rest = add f m in
    if less e f
    then (e, ts) ∷ rest
    else if less f e
    then (f, f.tid ∷ []) ∷ (e, ts) ∷ m
    else (e, ts ++ f.tid ∷ []) ∷ m

push_back-subscript :
    (f : StackTraceForm) (m : Traces)
    → find f m ≡ none
    → push_back f f.tid (subscript f m) ≡ add f m
unfolding find subscript push_back add
push_back-subscript f [] h = ground (arith, less_irrefl f f refl)
push_back-subscript f ((e, ts) ∷ m) h =
    ground (arith, less_irrefl f f refl, push_back-subscript f m)

push_back-add :
    (f : StackTraceForm) (m : Traces) (ts : List ℕ)
    → find f m ≡ some ts
    → push_back f f.tid m ≡ add f m
unfolding find push_back add
push_back-add f [] ts h = cc
push_back-add f ((e, us) ∷ m) ts h = ground (arith, push_back-add f m ts)

group_one-add : (m : Traces) (f : StackTraceForm) → group_one m f ≡ add f m
unfolding group_one
group_one-add m f = elim (Option-cases (find f m)) [
  | inl e ↦ rw (e, group_one) (push_back-subscript f m e)
  | inr (ts, e) ↦ rw (e, group_one) (push_back-add f m ts e)
]

-- Every key of the map stands above `f`.
abbrev Above : StackTraceForm → Traces → Type 0
Above f [] = Unit {0}
Above f ((e, ts) ∷ m) = (less f e ≡ true) × Above f m

-- The keys strictly increase, so that no two groups have the same stack.
abbrev pub IsSorted : Traces → Type 0
IsSorted [] = Unit {0}
IsSorted ((e, ts) ∷ m) = Above e m × IsSorted m

Above-trans : (f e : StackTraceForm) (m : Traces) → less f e ≡ true → Above e m → Above f m
Above-trans f e [] h a = tt
Above-trans f e ((g, ts) ∷ m) h a = (less_trans f e g h a.0, Above-trans f e m h a.1)

add-Above : (g f : StackTraceForm) (m : Traces) → less g f ≡ true → Above g m → Above g (add f m)
unfolding add
add-Above g f [] h a = (h, tt)
add-Above g f ((e, ts) ∷ m) h a = ground (arith, add-Above g f m h a.1)

add-IsSorted : (f : StackTraceForm) (m : Traces) → IsSorted m → IsSorted (add f m)
unfolding add
add-IsSorted f [] s = (tt, tt)
add-IsSorted f ((e, ts) ∷ m) s =
    ground (arith, add-IsSorted f m s.1, add-Above e f m, Above-trans f e m)

group_from-IsSorted :
    (m : Traces) (slot : List StackTraceForm) → IsSorted m → IsSorted (group_from m slot)
unfolding group_from
group_from-IsSorted m [] s = s
group_from-IsSorted m (f ∷ slot) s =
    group_from-IsSorted (group_one m f) slot (rw (group_one-add m f) (add-IsSorted f m s))

-- The groups are in strictly increasing order of their stacks: no stack has two groups.
unique_traces-IsSorted : (slot : List StackTraceForm) → IsSorted (unique_traces slot)
unfolding unique_traces
unique_traces-IsSorted slot = group_from-IsSorted [] slot tt

-- The threads in the groups of a given stack.
abbrev pub gather : List ℤ → Traces → List ℕ
gather xs [] = []
gather xs ((e, ts) ∷ m) = (if eqb_trace xs (key e) then ts else []) ++ gather xs m

-- The threads whose form holds a given stack, in the order of the forms.
abbrev pub tids_at : List ℤ → List StackTraceForm → List ℕ
tids_at xs [] = []
tids_at xs (f ∷ slot) = (if eqb_trace xs (key f) then f.tid ∷ [] else []) ++ tids_at xs slot

gather-Above :
    (f : StackTraceForm) (m : Traces) (xs : List ℤ) → Above f m → xs ≡ key f → gather xs m ≡ []
gather-Above f [] xs a e = refl
gather-Above f ((g, ts) ∷ m) xs a e =
    ground (arith, eqb_trace_iff xs (key g), less_irrefl f g, gather-Above f m xs a.1 e)

gather-add :
    (xs : List ℤ) (f : StackTraceForm) (m : Traces)
    → IsSorted m
    → gather xs (add f m) ≡ gather xs m ++ (if eqb_trace xs (key f) then f.tid ∷ [] else [])
unfolding add
gather-add xs f [] s = append-nil _
gather-add xs f ((e, ts) ∷ m) s = ground (
  arith,
  gather-add xs f m s.1,
  eqb_trace_iff xs (key e),
  eqb_trace_iff xs (key f),
  less_irrefl e f,
  less_irrefl f e,
  less-total e f,
  gather-Above e m xs s.0,
  gather-Above f m xs,
  Above-trans f e m,
  append-nil (f.tid ∷ []),
  append-nil (gather xs m),
  append-nil (ts ++ gather xs m),
  append-nil (ts ++ f.tid ∷ []),
  append-nil ts,
  append_assoc ts (gather xs m) (f.tid ∷ []),
)

gather-group_from :
    (xs : List ℤ) (m : Traces) (slot : List StackTraceForm)
    → IsSorted m
    → gather xs (group_from m slot) ≡ gather xs m ++ tids_at xs slot
unfolding group_from
gather-group_from xs m [] s = sym (append-nil (gather xs m))
gather-group_from xs m (f ∷ slot) s = rw (group_one-add m f) (
    gather-group_from xs (add f m) slot (add-IsSorted f m s)
    ∙ (rw (gather-add xs f m s) (append_assoc (gather xs m) _ (tids_at xs slot))))

-- All threads of the groups.
abbrev pub all_tids : Traces → List ℕ
all_tids [] = []
all_tids ((e, ts) ∷ m) = ts ++ all_tids m

add-perm : (f : StackTraceForm) (m : Traces) → Perm (all_tids (add f m)) (f.tid ∷ all_tids m)
unfolding add
add-perm f [] = Perm.refl _
add-perm f ((e, ts) ∷ m) = ground (
  arith,
  Perm.trans (Perm.append_left ts (add-perm f m)) (perm_middle ts (all_tids m)),
  Perm.refl (f.tid ∷ ts ++ all_tids m),
  subst (λ l. Perm l (f.tid ∷ ts ++ all_tids m)) (sym (append_assoc ts (f.tid ∷ []) (all_tids m)))
      (perm_middle ts (all_tids m)),
)

group_from-perm :
    (m : Traces) (slot : List StackTraceForm)
    → Perm (all_tids (group_from m slot)) (map (λ f. f.tid) slot ++ all_tids m)
unfolding group_from
group_from-perm m [] = Perm.refl _
group_from-perm m (f ∷ slot) = rw (group_one-add m f) (
    Perm.trans (group_from-perm (add f m) slot) (
      Perm.trans (Perm.append_left (map (λ g. g.tid) slot) (add-perm f m))
        (perm_middle (map (λ g. g.tid) slot) (all_tids m))))

-- The addresses that a result shows.
abbrev pub addresses : Result → List ℤ
addresses r = map (λ p. p.0) r.trace

-- The threads of the results that show a given stack.
abbrev pub tids_for : List ℤ → List Result → List ℕ
tids_for xs [] = []
tids_for xs (r ∷ rs) = (if eqb_trace xs (addresses r) then r.tids else []) ++ tids_for xs rs

abbrev pub result_tids : List Result → List ℕ
result_tids [] = []
result_tids (r ∷ rs) = r.tids ++ result_tids rs

module _ (symbolize : ℤ → Option (List ℕ)) where
  resolve-addresses : (xs : List ℤ) → map (λ p. p.0) (resolve symbolize xs) ≡ xs
  unfolding resolve
  resolve-addresses [] = refl
  resolve-addresses (a ∷ xs) = ground (arith, resolve-addresses xs)

  tids_for-gather : (xs : List ℤ) (m : Traces) → tids_for xs (results_of symbolize m) ≡ gather xs m
  unfolding results_of
  tids_for-gather xs [] = refl
  tids_for-gather xs ((e, ts) ∷ m) = rw (resolve-addresses (key e), tids_for-gather xs m)

  result_tids-all : (m : Traces) → result_tids (results_of symbolize m) ≡ all_tids m
  unfolding results_of
  result_tids-all [] = refl
  result_tids-all ((e, ts) ∷ m) = rw (result_tids-all m)

  -- For every stack, the results that show it name exactly the threads whose form holds it, in the
  -- order of the forms.
  pub results-tids_at :
      (xs : List ℤ) (slot : List StackTraceForm)
      → tids_for xs (results_of symbolize (unique_traces slot)) ≡ tids_at xs slot
  unfolding unique_traces
  results-tids_at xs slot =
      tids_for-gather xs (group_from [] slot) ∙ gather-group_from xs [] slot tt

  -- Every thread with a form stands in exactly one result: the threads of all results together are
  -- those of the forms, each as often.
  pub results-perm :
      (slot : List StackTraceForm)
      → Perm (result_tids (results_of symbolize (unique_traces slot))) (map (λ f. f.tid) slot)
  unfolding unique_traces
  results-perm slot =
      rw
        (
          result_tids-all (group_from [] slot),
          ← append-nil (map (λ (f : StackTraceForm). f.tid) slot),
        )
        (group_from-perm [] slot)
