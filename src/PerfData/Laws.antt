-- ===== src/PerfData/Laws.antt =====
-- What src/hsperfdata_parser.h prints, and when it gives its buffer back.
use jvm.Common.{
  ℕ, zero, suc, ◌≡◌, ◌≢◌, ◌⊎◌, inl, inr, refl, true, false, List, [], ◌∷◌, ◌++◌, Option, none, some,
  ℤ, pos, arith, to_int64, add_int, subst, Option-cases,
}
use jvm.PerfData.{
  number, c_string, entry_of, Header, header_of, slice, EntryHeader, Line, int_value, str_value,
  name_only, complete, Parsed, Entry, next, stop, is_generation, shown, advance, scalar, vector,
  parse_value, parse_name, parse_entry, parse_entries, parse_body, parse_header, parse,
}

-- The name that a line shows.
abbrev pub name_of : Line → List ℕ
name_of (int_value name value) = name
name_of (str_value name value) = name
name_of (name_only name) = name

abbrev pub AllGenerations : List Line → Type 0
AllGenerations [] = Unit {0}
AllGenerations (l ∷ ls) = (is_generation (name_of l) ≡ true) × AllGenerations ls

AllGenerations-append :
    (ls ms : List Line) → AllGenerations ls → AllGenerations ms → AllGenerations (ls ++ ms)
AllGenerations-append [] ms a b = b
AllGenerations-append (l ∷ ls) ms a b = (a.0, AllGenerations-append ls ms a.1 b)

shown-AllGenerations : (name : List ℕ) (l : Line) → name_of l ≡ name → AllGenerations (shown name l)
unfolding shown
shown-AllGenerations name l e = ground arith

-- The lines are those of generations, and an entry never ends the call as complete.
abbrev Sound : Entry → Type 0
Sound (next lines position) = AllGenerations lines
Sound (stop lines end) = AllGenerations lines × (end ≢ complete)

advance-Sound : (lines : List Line) (p : Option ℤ) → AllGenerations lines → Sound (advance lines p)
unfolding advance
advance-Sound lines none a = (a, λ e. cc)
advance-Sound lines (some position) a = a

scalar-Sound :
    (buf : List ℕ) (position : ℤ) (e : EntryHeader) (name : List ℕ) (start : ℤ)
    → Sound (scalar buf position e name start)
unfolding scalar
scalar-Sound buf position e name start = ground (
  arith,
  shown-AllGenerations name (name_only name) refl,
  λ (bytes : List ℕ).
      advance-Sound (shown name (int_value name (to_int64 (number bytes))))
        (add_int position e.entry_length)
        (shown-AllGenerations name (int_value name (to_int64 (number bytes))) refl),
)

vector-Sound :
    (buf : List ℕ) (position : ℤ) (e : EntryHeader) (name : List ℕ) (start : ℤ)
    → Sound (vector buf position e name start)
unfolding vector
vector-Sound buf position e name start = ground (
  arith,
  shown-AllGenerations name (name_only name) refl,
  λ (bytes : List ℕ).
      advance-Sound (shown name (str_value name (c_string bytes))) (add_int position e.entry_length)
        (shown-AllGenerations name (str_value name (c_string bytes)) refl),
)

parse_value-Sound :
    (buf : List ℕ) (position : ℤ) (e : EntryHeader) (name : List ℕ)
    → Sound (parse_value buf position e name)
unfolding parse_value
parse_value-Sound buf position e name = ground (
  arith,
  shown-AllGenerations name (name_only name) refl,
  scalar-Sound buf position e name,
  vector-Sound buf position e name,
)

parse_entry-Sound : (buf : List ℕ) (position : ℤ) → Sound (parse_entry buf position)
unfolding parse_entry parse_name
parse_entry-Sound buf position =
    ground (arith, λ (bytes name : List ℕ). parse_value-Sound buf position (entry_of bytes) name)

-- The buffer is given back exactly at a complete end, and only generations are shown.
abbrev Closed : Parsed → Type 0
Closed p =
    AllGenerations p.lines
    × (((p.end ≡ complete) × (p.buffer_freed ≡ true))
        ⊎ ((p.end ≢ complete) × (p.buffer_freed ≡ false)))

parse_entries-Closed :
    (buf : List ℕ) (n : ℕ) (position : ℤ) (lines : List Line)
    → AllGenerations lines
    → Closed (parse_entries buf n position lines)
unfolding parse_entries
parse_entries-Closed buf zero position lines a = (a, inl (refl, refl))
parse_entries-Closed buf (suc n) position lines a =
    after (parse_entry buf position) refl (λ p ls s. parse_entries-Closed buf n p ls s)
  where
    after :
        (x : Entry)
        → parse_entry buf position ≡ x
        → ((p : ℤ) (ls : List Line) → AllGenerations ls → Closed (parse_entries buf n p ls))
        → Closed (parse_entries buf (suc n) position lines)
    after (next ls p) e ih =
        let s = subst Sound e (parse_entry-Sound buf position) in
        rw (e, parse_entries) (ih p (lines ++ ls) (AllGenerations-append lines ls a s))
    after (stop ls end) e ih =
        let s = subst Sound e (parse_entry-Sound buf position) in
        rw (e, parse_entries) (AllGenerations-append lines ls a s.0, inr (s.1, refl))

parse_body-Closed : (buf : List ℕ) → Closed (parse_body buf)
unfolding parse_body
parse_body-Closed buf = elim (Option-cases (slice buf (pos 7) 25)) [
  | inl e ↦ rw (e, parse_body) (tt, inr (λ e. cc, refl))
  | inr (bytes, e) ↦ rw (e, parse_body) (parse_entries-Closed buf _ _ [] tt)
]

parse_header-Closed : (buf : List ℕ) (h : Header) → Closed (parse_header buf h)
unfolding parse_header
parse_header-Closed buf h = ground (arith, parse_body-Closed buf)

-- For every file, whether it is well formed or not, only entries whose name is that of a generation
-- are printed. The buffer is given back exactly when the end of the loop is reached; at every
-- other end it is not.
pub parse-Closed :
    (file : Option (List ℕ))
    → let p = parse file in
      AllGenerations p.lines
      × (((p.end ≡ complete) × (p.buffer_freed ≡ true))
          ⊎ ((p.end ≢ complete) × (p.buffer_freed ≡ false)))
unfolding parse
parse-Closed none = (tt, inr (λ e. cc, refl))
parse-Closed (some buf) = elim (Option-cases (slice buf (pos 0) 7)) [
  | inl e ↦ rw (e, parse) (tt, inr (λ e. cc, refl))
  | inr (bytes, e) ↦ rw (e, parse) (parse_header-Closed buf (header_of bytes))
]
