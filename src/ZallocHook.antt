-- ===== src/ZallocHook.antt =====
-- src/__hook.cpp__, an alternative hook: malloc, free, calloc, realloc and reallocarray, found by
-- dlsym, whose own allocations come from mmap. What mmap and the C library return is an argument,
-- 0 where it is null; dlsym finds all five functions. One call after another.
pub mod Laws
pub mod Tests
use jvm.Common.{
  ℕ, ◌+◌, ◌*◌, ◌-◌, ◌%◌, Bool, true, false, ◌||◌, List, [], ◌∷◌, ◌++◌, Option, none, some, length,
  ◌==◌, leb, if◌then◌else◌, two64,
}
use jvm.MemChecker.{Checker, add, del}

-- `zalloc_list` up to `zalloc_cnt`, whether r_malloc is set, the checker, and the addresses that
-- have been given to the free of the C library.
pub record Hook : Type 0 where
  pub zalloc_list : List ℕ
  pub loaded : Bool
  pub checker : Checker
  pub freed : List ℕ

abbrev pub init : Hook
init = record {
  zalloc_list = [];
  loaded = false;
  checker = record { mem = 0; blocks = [] };
  freed = [];
}

abbrev pub zalloc_max : ℕ
zalloc_max = 1024

-- `mapped` is what mmap returns, `none` for MAP_FAILED.
unfoldable pub zalloc_internal : Option ℕ → Hook → ℕ × Hook
zalloc_internal mapped h =
    if leb (zalloc_max - 1) (length h.zalloc_list) then (0, h) else elim mapped [
      | none ↦ (0, h)
      | some ptr ↦ (ptr, record h { zalloc_list = h.zalloc_list ++ ptr ∷ [] })
    ]

-- The calls, with what mmap returns for those that dlsym makes.
pub data Internal : Type 0 where
  malloc_inside : (mapped : Option ℕ) → Internal
  free_inside : (ptr : ℕ) → Internal
  calloc_inside : (mapped : Option ℕ) → Internal
  realloc_inside : (ptr : ℕ) (mapped : Option ℕ) → Internal
  reallocarray_inside : (mapped : Option ℕ) → Internal

-- A call while `alloc_init_pending` is set; free does nothing.
unfoldable pub inside : Internal → Hook → ℕ × Hook
unfolding zalloc_internal
inside (malloc_inside mapped) h = zalloc_internal mapped h
inside (free_inside ptr) h = (0, h)
inside (calloc_inside mapped) h = zalloc_internal mapped h
inside (realloc_inside ptr mapped) h = if ptr == 0 then zalloc_internal mapped h else (0, h)
inside (reallocarray_inside mapped) h = zalloc_internal mapped h

unfoldable pub inside_all : List Internal → Hook → Hook
unfolding inside
inside_all [] h = h
inside_all (c ∷ cs) h = inside_all cs (inside c h).1

-- TRACE_INIT; `calls` are those of dlsym.
unfoldable pub trace_init : List Internal → Hook → Hook
unfolding inside_all
trace_init calls h = if h.loaded then h else record (inside_all calls h) { loaded = true }

abbrev pub contains : ℕ → List ℕ → Bool
contains p [] = false
contains p (x ∷ xs) = (x == p) || contains p xs

-- The product of two `size_t`.
abbrev pub product : ℕ → ℕ → ℕ
product nmemb size = (nmemb * size) % two64

-- The calls of the program; `p` is what the C library returns.
pub data Call : Type 0 where
  malloc : (size p : ℕ) → Call
  free : (ptr : ℕ) → Call
  calloc : (nmemb size p : ℕ) → Call
  realloc : (ptr size p : ℕ) → Call
  reallocarray : (ptr nmemb size p : ℕ) → Call

note : ℕ → ℕ → Hook → ℕ × Hook
note p size h = (p, record h { checker = add h.checker p size })

unfoldable pub step : List Internal → Call → Hook → ℕ × Hook
unfolding trace_init note
step calls (malloc size p) h = note p size (trace_init calls h)
step calls (free ptr) h =
    if contains ptr h.zalloc_list
    then (0, h)
    else let h' = trace_init calls h in
      (0, record h' { checker = del h'.checker ptr; freed = h'.freed ++ ptr ∷ [] })
step calls (calloc nmemb size p) h = note p (product nmemb size) (trace_init calls h)
step calls (realloc ptr size p) h = note p size (trace_init calls h)
step calls (reallocarray ptr nmemb size p) h = note p (product nmemb size) (trace_init calls h)

unfoldable pub run : List (List Internal × Call) → Hook → Hook
unfolding step
run [] h = h
run ((calls, c) ∷ rest) h = run rest (step calls c h).1
