-- ===== src/StackTrace/Order.antt =====
-- src/ts/signal_handler.cc, StackComparator: the order by which the collector tells stacks apart.
use jvm.Common.{
  ℕ, zero, suc, ◌+◌, ◌≤◌, ◌≡◌, refl, ap, ◌∙◌, sym, Bool, true, false, not, List, [], ◌∷◌, arith,
  ◌==◌, ◌&&◌, ◌↔◌, ltb, if◌then◌else◌, length, take, drop, get_or, ℤ, pos, eqb_ℤ, ltb_ℤ, eqb_ℤ_iff,
}
use jvm.StackTrace.Form.{StackTraceForm, trace, IsForm}

-- The `for` loop from index `i` with `n` rounds left.
less_from : ℕ → ℕ → List ℤ → List ℤ → Bool
less_from zero i a b = false
less_from (suc n) i a b =
    let rest = less_from n (suc i) a b in
    let x = get_or a i (pos 0) in
    let y = get_or b i (pos 0) in if not (eqb_ℤ x y) then ltb_ℤ x y else rest

unfoldable pub less : StackTraceForm → StackTraceForm → Bool
unfolding less_from
less a b =
    if not (a.depth == b.depth)
    then ltb a.depth b.depth
    else less_from a.depth 0 a.address b.address

-- The same order on the traces themselves: shorter first, then lexicographic.
lex : List ℤ → List ℤ → Bool
lex [] ys = false
lex (x ∷ xs) [] = false
lex (x ∷ xs) (y ∷ ys) = if not (eqb_ℤ x y) then ltb_ℤ x y else lex xs ys

pub trace_less : List ℤ → List ℤ → Bool
trace_less xs ys = if not (length xs == length ys) then ltb (length xs) (length ys) else lex xs ys

-- The addresses that the loop reads from index `i` on.
cells : ℕ → ℕ → List ℤ → List ℤ
cells zero i a = []
cells (suc n) i a = get_or a i (pos 0) ∷ cells n (suc i) a

-- The trace as the comparison sees it.
unfoldable pub key : StackTraceForm → List ℤ
unfolding cells
key f = cells f.depth 0 f.address

length-cells : (n i : ℕ) (a : List ℤ) → length (cells n i a) ≡ n
unfolding cells
length-cells zero i a = refl
length-cells (suc n) i a = ap suc (length-cells n (suc i) a)

window :
    (n i : ℕ) (a : List ℤ)
    → i + suc n ≤ length a
    → take (suc n) (drop i a) ≡ get_or a i (pos 0) ∷ take n (drop (suc i) a)
window n i [] h = absurd (omega arith)
window n zero (x ∷ a) h = refl
window n (suc i) (x ∷ a) h = window n i a (omega arith)

cells-take : (n i : ℕ) (a : List ℤ) → i + n ≤ length a → cells n i a ≡ take n (drop i a)
unfolding cells
cells-take zero i a h = refl
cells-take (suc n) i a h = rw (cells-take n (suc i) a (omega arith), window n i a h)

-- On a well-formed form this is its trace.
pub key-trace : (f : StackTraceForm) → IsForm f → key f ≡ trace f
unfolding key
key-trace f v = cells-take f.depth 0 f.address (omega (arith, v.sized, v.within))

less_from-lex : (n i : ℕ) (a b : List ℤ) → less_from n i a b ≡ lex (cells n i a) (cells n i b)
unfolding less_from lex cells
less_from-lex zero i a b = refl
less_from-lex (suc n) i a b = rw (less_from-lex n (suc i) a b)

-- The comparison of the arrays is that of the traces.
pub less-trace_less : (a b : StackTraceForm) → less a b ≡ trace_less (key a) (key b)
unfolding less trace_less key
less-trace_less a b = ground (
  arith,
  length-cells a.depth 0 a.address,
  length-cells b.depth 0 b.address,
  less_from-lex a.depth 0 a.address b.address,
)

lex_irrefl : (xs : List ℤ) → lex xs xs ≡ false
unfolding lex
lex_irrefl [] = refl
lex_irrefl (x ∷ xs) = rw ((eqb_ℤ_iff x x).1 refl) (lex_irrefl xs)

lex-total :
    (xs ys : List ℤ) → length xs ≡ length ys → lex xs ys ≡ false → lex ys xs ≡ false → xs ≡ ys
unfolding lex
lex-total [] [] e h k = refl
lex-total [] (y ∷ ys) e h k = absurd (omega arith)
lex-total (x ∷ xs) [] e h k = absurd (omega arith)
lex-total (x ∷ xs) (y ∷ ys) e h k = ground (arith, lex-total xs ys)

lex_trans : (xs ys zs : List ℤ) → lex xs ys ≡ true → lex ys zs ≡ true → lex xs zs ≡ true
unfolding lex
lex_trans [] ys zs h k = cc
lex_trans (x ∷ xs) [] zs h k = cc
lex_trans (x ∷ xs) (y ∷ ys) [] h k = cc
lex_trans (x ∷ xs) (y ∷ ys) (z ∷ zs) h k = ground (arith, lex_trans xs ys zs)

pub trace_less_irrefl : (xs : List ℤ) → trace_less xs xs ≡ false
unfolding trace_less
trace_less_irrefl xs = ground (arith, lex_irrefl xs)

pub trace_less-total :
    (xs ys : List ℤ) → trace_less xs ys ≡ false → trace_less ys xs ≡ false → xs ≡ ys
unfolding trace_less
trace_less-total xs ys h k = ground (arith, lex-total xs ys)

pub trace_less_trans :
    (xs ys zs : List ℤ)
    → trace_less xs ys ≡ true
    → trace_less ys zs ≡ true
    → trace_less xs zs ≡ true
unfolding trace_less
trace_less_trans xs ys zs h k = ground (arith, lex_trans xs ys zs)

pub less_irrefl : (a b : StackTraceForm) → key a ≡ key b → less a b ≡ false
less_irrefl a b e = rw (less-trace_less a b, e) (trace_less_irrefl (key b))

pub less-total : (a b : StackTraceForm) → less a b ≡ false → less b a ≡ false → key a ≡ key b
less-total a b h k =
    trace_less-total (key a) (key b) (sym (less-trace_less a b) ∙ h) (sym (less-trace_less b a) ∙ k)

-- The comparator of the map is transitive.
pub less_trans : (a b c : StackTraceForm) → less a b ≡ true → less b c ≡ true → less a c ≡ true
less_trans a b c h k =
    less-trace_less a c
    ∙ trace_less_trans (key a) (key b) (key c) (sym (less-trace_less a b) ∙ h)
        (sym (less-trace_less b c) ∙ k)

-- The test for equal traces.
pub eqb_trace : List ℤ → List ℤ → Bool
eqb_trace [] [] = true
eqb_trace [] (y ∷ ys) = false
eqb_trace (x ∷ xs) [] = false
eqb_trace (x ∷ xs) (y ∷ ys) = eqb_ℤ x y && eqb_trace xs ys

pub eqb_trace_iff : (xs ys : List ℤ) → (eqb_trace xs ys ≡ true) ↔ (xs ≡ ys)
unfolding eqb_trace
eqb_trace_iff [] [] = ground arith
eqb_trace_iff [] (y ∷ ys) = ground arith
eqb_trace_iff (x ∷ xs) [] = ground arith
eqb_trace_iff (x ∷ xs) (y ∷ ys) = ground (arith, eqb_ℤ_iff x y, eqb_trace_iff xs ys)
