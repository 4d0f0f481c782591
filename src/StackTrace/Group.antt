-- ===== src/StackTrace/Group.antt =====
-- src/ts/signal_handler.cc, the last step of StackTraceCollector::Collect: threads with the same
-- stack are grouped by a `std::map` under StackComparator, here a list in the order of its keys,
-- and each group becomes a result.
pub mod Laws
use mathlib.Core.List.{Perm, perm_middle}
use mathlib.Core.List.Perm
use jvm.Common.{
  sym, subst, ◌∙◌, ℕ, ◌≡◌, refl, true, List, [], ◌∷◌, ◌++◌, Option, none, some, map, arith,
  if◌then◌else◌, ℤ, append_assoc, append-nil, Option-cases, inl, inr,
}
use jvm.StackTrace.Form.{StackTraceForm}
use jvm.StackTrace.Order.{eqb_trace, eqb_trace_iff, less, key, less_irrefl, less-total, less_trans}

-- `std::map<StackTraceForm*, std::vector<pid_t>, StackComparator>`.
abbrev pub Traces : Type 0
Traces = List (StackTraceForm × List ℕ)

find : StackTraceForm → Traces → Option (List ℕ)
find k [] = none
find k ((e, ts) ∷ m) =
    let rest = find k m in if less e k then rest else if less k e then none else some ts

-- `operator[]`: a missing key is inserted with an empty vector.
subscript : StackTraceForm → Traces → Traces
subscript k [] = (k, []) ∷ []
subscript k ((e, ts) ∷ m) =
    let rest = subscript k m in
    if less e k then (e, ts) ∷ rest else if less k e then (k, []) ∷ (e, ts) ∷ m else (e, ts) ∷ m

-- `push_back` on the vector of a key that is there.
push_back : StackTraceForm → ℕ → Traces → Traces
push_back k t [] = []
push_back k t ((e, ts) ∷ m) =
    let rest = push_back k t m in
    if less e k then (e, ts) ∷ rest else if less k e then (e, ts) ∷ m else (e, ts ++ t ∷ []) ∷ m

group_one : Traces → StackTraceForm → Traces
unfolding find subscript push_back
group_one m f = elim (find f m) [
  | none ↦ push_back f f.tid (subscript f m)
  | some _ ↦ push_back f f.tid m
]

group_from : Traces → List StackTraceForm → Traces
group_from m [] = m
group_from m (f ∷ slot) = group_from (group_one m f) slot

unfoldable pub unique_traces : List StackTraceForm → Traces
unfolding group_one group_from
unique_traces slot = group_from [] slot

-- A symbol is a text, as its codes.
pub record Result : Type 0 where
  pub trace : List (ℤ × List ℕ)
  pub tids : List ℕ

abbrev pub unknown : List ℕ
unknown = b'(' ∷ b'u' ∷ b'n' ∷ b'k' ∷ b'n' ∷ b'o' ∷ b'w' ∷ b'n' ∷ b')' ∷ []

-- `google::Symbolize` is an argument: `none` where it fails.
resolve : (ℤ → Option (List ℕ)) → List ℤ → List (ℤ × List ℕ)
resolve symbolize [] = []
resolve symbolize (a ∷ rest) = elim (symbolize a) [
  | none ↦ (a, unknown) ∷ resolve symbolize rest
  | some name ↦ (a, name) ∷ resolve symbolize rest
]

result_of : (ℤ → Option (List ℕ)) → StackTraceForm × List ℕ → Result
unfolding resolve
result_of symbolize (f, ts) = record { trace = resolve symbolize (key f); tids = ts }

unfoldable pub results_of : (ℤ → Option (List ℕ)) → Traces → List Result
unfolding result_of
results_of symbolize m = map (result_of symbolize) m
