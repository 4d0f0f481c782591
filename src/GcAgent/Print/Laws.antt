-- ===== src/GcAgent/Print/Laws.antt =====
-- What the callbacks of agent.cpp print.
use jvm.Common.{
  ℕ, zero, suc, ◌+◌, ◌-◌, ◌^◌, ◌<◌, ◌≡◌, refl, ap, ◌∙◌, Bool, true, false, ◌&&◌, List, [], ◌∷◌,
  ◌++◌, append_assoc, append-nil, Option, none, some, length, replicate, arith, if◌then◌else◌,
}
use jvm.Text.{decimal, decode, char_digit}
use jvm.Text.Laws.{decode-append, decode-decimal}
use jvm.GcAgent.Print.{Event, Printed, six, ◌>>=◌, line, print_gc_time, run}

decode-zeros : (k : ℕ) → decode 10 0 (replicate k b'0') ≡ 0
unfolding decode char_digit
decode-zeros zero = refl
decode-zeros (suc k) = decode-zeros k

-- The microseconds are read back from the line.
six-decode : (n : ℕ) → n < 2 ^ 64 → decode 10 0 (six n) ≡ n
unfolding six
six-decode n h =
    decode-append 10 0 (replicate (6 - length (decimal n)) b'0') (decimal n)
    ∙ (ap (λ a. decode 10 a (decimal n)) (decode-zeros (6 - length (decimal n)))
        ∙ decode-decimal n h)

shift :
    (p : Printed) (x : List ℕ) (xs : List (List ℕ)) (n : ℕ)
    → ◌≡◌ {A = Printed}
        (record {
          lines = (p.lines ++ x ∷ []) ++ xs;
          allocated = suc p.allocated + n;
          freed = suc p.freed + n;
        })
        (record {
          lines = p.lines ++ x ∷ xs;
          allocated = p.allocated + suc n;
          freed = p.freed + suc n;
        })
shift p x xs n = ground (arith, append_assoc p.lines (x ∷ []) xs)

after :
    (b all : Bool) (q r : Printed) (f : Printed → Option Printed)
    → f q ≡ (if all then some r else none)
    → ((if b then some q else none) >>= f) ≡ (if b && all then some r else none)
after true all q r f h = h
after false all q r f h = refl

module _ (strftime : ℕ → List ℕ) where
  abbrev lines_of : List Event → List (List ℕ)
  lines_of [] = []
  lines_of (e ∷ es) = line strftime e ∷ lines_of es

  abbrev all_allocated : List Event → Bool
  all_allocated [] = true
  all_allocated (e ∷ es) = e.calloc && all_allocated es

  -- If every allocation works each callback prints its line, in order, and frees what it allocates;
  -- otherwise the process crashes in one of them.
  pub run-lines :
      (es : List Event) (p : Printed)
      → run strftime es p ≡ (
          if all_allocated es
          then some (record {
            lines = p.lines ++ lines_of es;
            allocated = p.allocated + length es;
            freed = p.freed + length es;
          })
          else none)
  unfolding run print_gc_time
  run-lines [] p = ground (arith, append-nil p.lines)
  run-lines (e ∷ es) p = after e.calloc (all_allocated es) _ _ (run strftime es) (
      run-lines es _
      ∙ ap (λ r. if all_allocated es then some r else none)
          (shift p (line strftime e) (lines_of es) (length es)))
