-- ===== src/StackTrace/Pretty.antt =====
-- src/ts/signal_handler.cc, StackTraceCollector::ToPrettyString: the report of the results.
pub mod Laws
use jvm.Common.{
  ℕ, zero, suc, ◌+◌, ◌-◌, Bool, true, false, List, [], ◌∷◌, ◌++◌, if◌then◌else◌, length, replicate,
  ℤ, pos, negsuc, two64,
}
use jvm.Text.{codes, newline, decimal, hex}
use jvm.StackTrace.Group.{Result}

-- `std::hex` prints the bits of an int64_t as an unsigned number.
unfoldable pub to_word : ℤ → ℕ
to_word (pos n) = n
to_word (negsuc n) = two64 - n - 1

-- `std::setw(16)`: fill with blanks on the left.
unfoldable pub setw : ℕ → List ℕ → List ℕ
setw w text = replicate (w - length text) b' ' ++ text

unfoldable pub address_text : ℤ → List ℕ
unfolding to_word
address_text a = codes "0x" ++ hex (to_word a)

-- "t₁, t₂, … tₙ" with the end of the line.
tids_text : ℕ → List ℕ → List ℕ
tids_text t [] = decimal t ++ newline ∷ []
tids_text t (u ∷ ts) = decimal t ++ (codes ", " ++ tids_text u ts)

frames_text : List (ℤ × List ℕ) → List ℕ
unfolding address_text setw
frames_text [] = []
frames_text ((a, name) ∷ rest) =
    setw 16 (address_text a) ++ (codes " : " ++ (name ++ newline ∷ frames_text rest))

result_text : Result → List ℕ → List ℕ
unfolding frames_text tids_text
result_text r [] = codes "No Threads" ++ newline ∷ []
result_text r (t ∷ ts) =
    codes "Threads: "
    ++ (tids_text t ts ++ (codes "Stack trace:" ++ newline ∷ (frames_text r.trace ++ newline ∷ [])))

-- The text, and the threads that `backtrace_cb_` is given.
unfoldable pub to_pretty_string : List Result → List ℕ × List ℕ
unfolding result_text
to_pretty_string [] = ([], [])
to_pretty_string (r ∷ rs) =
    let (text, tids) = to_pretty_string rs in (result_text r r.tids ++ text, r.tids ++ tids)

-- The calls of the callback: none where none is installed.
unfoldable pub callbacks : Bool → List Result → List (List ℕ)
unfolding to_pretty_string
callbacks installed rs = if installed then (to_pretty_string rs).1 ∷ [] else []
