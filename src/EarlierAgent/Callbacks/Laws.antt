-- ===== src/EarlierAgent/Callbacks/Laws.antt =====
-- What the callbacks of src/__trace_agent.h print, allocate and give back.
use jvm.Common.{
  ◌≡◌, Bool, ◌&&◌, List, [], ◌∷◌, ◌++◌, Option, none, some, arith, ℤ, pos, eqb_ℤ, if◌then◌else◌,
}
use jvm.EarlierAgent.Callbacks.{
  Line, error_line, Log, Entry, entry_line_of, enter_method, method_entry,
}

-- The three calls that give the name work.
abbrev pub named : Entry → Bool
named e =
    eqb_ℤ e.class_error (pos 0) && eqb_ℤ e.signature_error (pos 0) && eqb_ℤ e.name_error (pos 0)

-- The first call that fails ends the body.
abbrev pub first_error : List ℤ → Option ℤ
first_error [] = none
first_error (err ∷ errs) =
    let rest = first_error errs in if eqb_ℤ err (pos 0) then rest else some err

abbrev pub errors : Entry → List ℤ
errors e =
    e.class_error ∷ e.signature_error ∷ e.name_error ∷ e.free_name_error ∷ e.free_signature_error
    ∷ []

abbrev pub with_error : List Line → Option ℤ → List Line
with_error lines none = lines
with_error lines (some err) = lines ++ error_line err ∷ []

-- A method whose name can be had is printed; then the first error, if there is one.
method_entry-lines :
    (e : Entry) (l : Log)
    → (method_entry e l).lines
      ≡ with_error
          (if named e then l.lines ++ entry_line_of e.name ∷ [] else l.lines)
          (first_error (errors e))
unfolding method_entry enter_method
method_entry-lines e l = ground arith

-- If every call works, both strings are given back.
method_entry-freed :
    (e : Entry) (l : Log)
    → first_error (errors e) ≡ none
    → ((method_entry e l).allocated ≡ (l.allocated ++ e.signature ∷ []) ++ e.name ∷ [])
      × ((method_entry e l).freed ≡ (l.freed ++ e.name ∷ []) ++ e.signature ∷ [])
unfolding method_entry enter_method
method_entry-freed e l h = (ground arith, ground arith)
