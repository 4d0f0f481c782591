-- ===== src/Hook/Laws.antt =====
-- What src/hook.cpp and src/mem_checker.cpp count of the allocations of a program.
use jvm.Common.{
  ℕ, ◌+◌, ◌%◌, ◌<◌, ◌≡◌, ◌≢◌, refl, ap, ◌∙◌, true, false, List, [], ◌∷◌, Option, none, some, ◌==◌,
  if◌then◌else◌, ℤ, to_int64, two64, map, to_uint64-to_int64, arith, Option-cases, inl, inr,
}
use jvm.MemChecker.{Checker, find, insert, erase, add, del}
use jvm.MemChecker.Laws.{total, IsBalanced, add-IsBalanced, del-IsBalanced, add-null, del-null}
use jvm.Hook.{
  Hook, set_in_mem, Call, malloc_call, free_call, free, trace_malloc, nested_call, nested_calls,
  malloc, Event, malloc_event, free_event, run, init,
}

-- All calls are made by thread `t`.
abbrev pub OnThread : ℕ → List Call → Type 0
OnThread t [] = Unit {0}
OnThread t (malloc_call u size p ∷ cs) = (u ≡ t) × OnThread t cs
OnThread t (free_call u ptr ∷ cs) = (u ≡ t) × OnThread t cs

nested_calls-ignored :
    (h : Hook) (t : ℕ) (cs : List Call) → h.in_mem t ≡ true → OnThread t cs → nested_calls h cs ≡ h
unfolding nested_calls
nested_calls-ignored h t [] flag on = refl
nested_calls-ignored h t (malloc_call u size p ∷ cs) flag on =
    rw (on.0, flag) (nested_calls-ignored h t cs flag on.1)
nested_calls-ignored h t (free_call u ptr ∷ cs) flag on =
    rw (on.0, flag) (nested_calls-ignored h t cs flag on.1)

-- A traced `malloc` adds its own block and none of the tracer's, and leaves every thread's flag as
-- it was.
malloc-checker :
    (h : Hook) (t size p : ℕ) (nested : List Call)
    → h.in_mem t ≡ false
    → OnThread t nested
    → ((malloc h t size p nested).checker ≡ add h.checker p size)
      × ((u : ℕ) → (malloc h t size p nested).in_mem u ≡ h.in_mem u)
unfolding malloc
malloc-checker h t size p nested flag on =
    let inside = trace_malloc (set_in_mem h t true) size p in
    let e = nested_calls-ignored inside t nested (ground arith) on in
    (ground (arith, e), λ u. ground (arith, e))

-- The blocks that the program holds, newest first, with their sizes.
abbrev pub Live : Type 0
Live = List (ℕ × ℕ)

abbrev pub size_of : ℕ → Live → Option ℕ
size_of p [] = none
size_of p ((q, n) ∷ live) = if q == p then some n else size_of p live

abbrev pub release : ℕ → Live → Live
release p [] = []
release p ((q, n) ∷ live) = if q == p then live else (q, n) ∷ release p live

-- Freeing the null address, or an address that is not held, changes nothing.
abbrev pub held : Live → List Event → Live
held live [] = live
held live (malloc_event t size p nested ∷ es) = held ((p, size) ∷ live) es
held live (free_event t ptr ∷ es) = held (release ptr live) es

-- The allocator succeeds, with an address that is not held, and the tracer's own calls during a
-- `malloc` are made by its thread.
abbrev pub Behaves : Live → List Event → Type 0
Behaves live [] = Unit {0}
Behaves live (malloc_event t size p nested ∷ es) =
    (p ≢ 0)
    × (size < two64)
    × (size_of p live ≡ none)
    × OnThread t nested
    × Behaves ((p, size) ∷ live) es
Behaves live (free_event t ptr ∷ es) = Behaves (release ptr live) es

abbrev pub entry : ℕ × ℕ → ℕ × ℤ
entry b = (b.0, to_int64 b.1)

abbrev pub bytes : Live → ℕ
bytes [] = 0
bytes ((p, n) ∷ live) = n + bytes live

-- The checker records exactly the blocks that are held; outside `malloc` no flag is set.
record Counts (live : Live) (h : Hook) : Type 0 where
  recorded : h.checker.blocks ≡ map entry live
  balanced : IsBalanced h.checker
  flags : (t : ℕ) → h.in_mem t ≡ false

-- No held block is at the null address, and the sizes fit.
abbrev Sound : Live → Type 0
Sound [] = Unit {0}
Sound ((p, n) ∷ live) = (p ≢ 0) × (n < two64) × Sound live

find-entry :
    (p : ℕ) (live : Live)
    → find p (map entry live) ≡ elim (size_of p live) [ none ↦ none | some n ↦ some (to_int64 n) ]
unfolding find
find-entry p [] = refl
find-entry p ((q, n) ∷ live) = ground (arith, find-entry p live)

erase-entry : (p : ℕ) (live : Live) → erase p (map entry live) ≡ map entry (release p live)
unfolding erase
erase-entry p [] = refl
erase-entry p ((q, n) ∷ live) = ground (arith, erase-entry p live)

release-unheld : (p : ℕ) (live : Live) → size_of p live ≡ none → release p live ≡ live
release-unheld p [] h = refl
release-unheld p ((q, n) ∷ live) h = ground (arith, release-unheld p live)

Sound-null : (live : Live) → Sound live → size_of 0 live ≡ none
Sound-null [] s = refl
Sound-null ((q, n) ∷ live) s = ground (arith, Sound-null live s.2)

Sound-release : (p : ℕ) (live : Live) → Sound live → Sound (release p live)
Sound-release p [] s = tt
Sound-release p ((q, n) ∷ live) s = ground (arith, Sound-release p live s.2)

del-entry :
    (c : Checker) (p : ℕ) (live : Live)
    → c.blocks ≡ map entry live
    → Sound live
    → (del c p).blocks ≡ map entry (release p live)
unfolding del
del-entry c p live e s =
    ground (arith, find-entry p live, erase-entry p live, release-unheld p live, Sound-null live s)

total-entry : (live : Live) → Sound live → total (map entry live) ≡ bytes live
total-entry [] s = refl
total-entry ((p, n) ∷ live) s = omega (arith, to_uint64-to_int64 n s.1, total-entry live s.2)

add-entry :
    (c : Checker) (p n : ℕ) (live : Live)
    → c.blocks ≡ map entry live
    → size_of p live ≡ none
    → (find p c.blocks ≡ none) × ((add c p n).blocks ≡ map entry ((p, n) ∷ live))
unfolding add
add-entry c p n live e fresh = ground (arith, find-entry p live)

malloc-Counts :
    (live : Live) (h : Hook) (t size p : ℕ) (nested : List Call)
    → size < two64
    → size_of p live ≡ none
    → OnThread t nested
    → Counts live h
    → Counts ((p, size) ∷ live) (malloc h t size p nested)
malloc-Counts live h t size p nested small fresh on v =
    let m = malloc-checker h t size p nested (v.flags t) on in
    let a = add-entry h.checker p size live v.recorded fresh in
    record {
      recorded = rw m.0 a.1;
      balanced = rw m.0 (add-IsBalanced h.checker p size small a.0 v.balanced);
      flags = λ u. m.1 u ∙ v.flags u;
    }

free-Counts :
    (live : Live) (h : Hook) (t ptr : ℕ)
    → Sound live
    → Counts live h
    → Counts (release ptr live) (free h t ptr)
unfolding free
free-Counts live h t ptr s v =
    rw (v.flags t, free)
      (record {
        recorded = del-entry h.checker ptr live v.recorded s;
        balanced = del-IsBalanced h.checker ptr v.balanced;
        flags = v.flags;
      })

run-Counts :
    (live : Live) (h : Hook) (es : List Event)
    → Sound live
    → Behaves live es
    → Counts live h
    → Counts (held live es) (run h es) × Sound (held live es)
unfolding run
run-Counts live h [] s b v = (v, s)
run-Counts live h (malloc_event t size p nested ∷ es) s b v =
    run-Counts ((p, size) ∷ live) (malloc h t size p nested) es (b.0, b.1, s) b.4
      (malloc-Counts live h t size p nested b.1 b.2 b.3 v)
run-Counts live h (free_event t ptr ∷ es) s b v =
    run-Counts (release ptr live) (free h t ptr) es (Sound-release ptr live s) b
      (free-Counts live h t ptr s v)

init-Counts : Counts [] init
init-Counts = record {
  recorded = refl;
  balanced = record { agrees = refl; sizes = tt };
  flags = λ t. refl;
}

-- Along every history in which the allocator succeeds with addresses that are not held, the
-- checker knows exactly the blocks that the program holds, with their sizes, and its count is the
-- sum of their sizes in 64 bits.
pub run-bytes :
    (es : List Event)
    → Behaves [] es
    → ((run init es).checker.blocks ≡ map entry (held [] es))
      × ((run init es).checker.mem ≡ bytes (held [] es) % two64)
run-bytes es b =
    let (v, s) = run-Counts [] init es tt b init-Counts in
    (v.recorded, omega (arith, v.balanced.agrees, ap total v.recorded, total-entry (held [] es) s))

nested_calls-null :
    (h : Hook) (cs : List Call) (l : ℤ)
    → find 0 h.checker.blocks ≡ some l
    → find 0 (nested_calls h cs).checker.blocks ≡ some l
unfolding nested_calls
nested_calls-null h [] l known = known
nested_calls-null h (malloc_call t size p ∷ cs) l known =
    nested_calls-null (nested_call h (malloc_call t size p)) cs l
      (ground (arith, add-null h.checker p size l known))
nested_calls-null h (free_call t ptr ∷ cs) l known =
    nested_calls-null (nested_call h (free_call t ptr)) cs l
      (ground (arith, del-null h.checker ptr l known))

run-null :
    (h : Hook) (es : List Event) (l : ℤ)
    → find 0 h.checker.blocks ≡ some l
    → find 0 (run h es).checker.blocks ≡ some l
unfolding run
run-null h [] l known = known
run-null h (malloc_event t size p nested ∷ es) l known = run-null (malloc h t size p nested) es l (
    ground (
      arith,
      nested_calls-null (trace_malloc (set_in_mem h t true) size p) nested l,
      add-null h.checker p size l known,
    ))
run-null h (free_event t ptr ∷ es) l known =
    run-null (free h t ptr) es l (ground (arith, del-null h.checker ptr l known))

find-insert : (p : ℕ) (k : ℤ) (m : List (ℕ × ℤ)) → (l : ℤ) × (find p (insert p k m) ≡ some l)
unfolding insert find
find-insert p k m = elim (Option-cases (find p m)) [
  | inl e ↦ (k, ground arith)
  | inr (l, e) ↦ (l, ground arith)
]

-- The defect: once `__libc_malloc` has failed in a traced `malloc`, the null address has an entry,
-- and no later call of the program removes it: its size counts as held for good.
malloc-null :
    (h : Hook) (t size : ℕ) (nested : List Call) (es : List Event)
    → h.in_mem t ≡ false
    → OnThread t nested
    → (l : ℤ) × (find 0 (run (malloc h t size 0 nested) es).checker.blocks ≡ some l)
unfolding add
malloc-null h t size nested es flag on =
    let m = malloc-checker h t size 0 nested flag on in
    let (l, known) = find-insert 0 (to_int64 size) h.checker.blocks in
    (l, run-null (malloc h t size 0 nested) es l (ap (λ c. find 0 c.blocks) m.0 ∙ known))
