-- ===== src/ZallocHook/Laws.antt =====
-- What the hook of src/__hook.cpp__ keeps and gives back.
use jvm.Common.{
  ℕ, ◌≤◌, ◌≡◌, refl, ap, ◌∙◌, true, ◌||◌, List, [], ◌∷◌, ◌++◌, Option, none, some, length,
  length-append, arith,
}
use jvm.ZallocHook.{
  Hook, zalloc_internal, Internal, malloc_inside, free_inside, calloc_inside, realloc_inside,
  reallocarray_inside, inside, inside_all, trace_init, contains, Call, malloc, free, calloc,
  realloc, reallocarray, step, run,
}

-- The list has room for 1024 addresses and holds at most 1023.
abbrev pub Bounded : Hook → Type 0
Bounded h = length h.zalloc_list ≤ 1023

zalloc_internal-Bounded :
    (mapped : Option ℕ) (h : Hook) → Bounded h → Bounded (zalloc_internal mapped h).1
unfolding zalloc_internal
zalloc_internal-Bounded none h b = ground arith
zalloc_internal-Bounded (some ptr) h b = ground (arith, length-append h.zalloc_list (ptr ∷ []))

inside-Bounded : (c : Internal) (h : Hook) → Bounded h → Bounded (inside c h).1
unfolding inside
inside-Bounded (malloc_inside mapped) h b = zalloc_internal-Bounded mapped h b
inside-Bounded (free_inside ptr) h b = b
inside-Bounded (calloc_inside mapped) h b = zalloc_internal-Bounded mapped h b
inside-Bounded (realloc_inside ptr mapped) h b = ground (arith, zalloc_internal-Bounded mapped h b)
inside-Bounded (reallocarray_inside mapped) h b = zalloc_internal-Bounded mapped h b

inside_all-Bounded : (cs : List Internal) (h : Hook) → Bounded h → Bounded (inside_all cs h)
unfolding inside_all
inside_all-Bounded [] h b = b
inside_all-Bounded (c ∷ cs) h b = inside_all-Bounded cs (inside c h).1 (inside-Bounded c h b)

trace_init-Bounded : (cs : List Internal) (h : Hook) → Bounded h → Bounded (trace_init cs h)
unfolding trace_init
trace_init-Bounded cs h b = ground (arith, inside_all-Bounded cs h b)

step-Bounded : (cs : List Internal) (c : Call) (h : Hook) → Bounded h → Bounded (step cs c h).1
unfolding step
step-Bounded cs (malloc size p) h b = trace_init-Bounded cs h b
step-Bounded cs (free ptr) h b = ground (arith, trace_init-Bounded cs h b)
step-Bounded cs (calloc nmemb size p) h b = trace_init-Bounded cs h b
step-Bounded cs (realloc ptr size p) h b = trace_init-Bounded cs h b
step-Bounded cs (reallocarray ptr nmemb size p) h b = trace_init-Bounded cs h b

-- Whatever the program and dlsym call, no address is written behind the end of the list.
pub run-Bounded :
    (calls : List (List Internal × Call)) (h : Hook) → Bounded h → Bounded (run calls h)
unfolding run
run-Bounded [] h b = b
run-Bounded ((cs, c) ∷ rest) h b = run-Bounded rest (step cs c h).1 (step-Bounded cs c h b)

contains-append :
    (p : ℕ) (xs ys : List ℕ) → contains p (xs ++ ys) ≡ (contains p xs || contains p ys)
contains-append p [] ys = refl
contains-append p (x ∷ xs) ys = ground (arith, contains-append p xs ys)

-- One call once the functions are found.
step-loaded :
    (cs : List Internal) (c : Call) (h : Hook) (p : ℕ)
    → h.loaded ≡ true
    → let h' = (step cs c h).1 in
      (h'.loaded ≡ true)
      × (h'.zalloc_list ≡ h.zalloc_list)
      × (contains p h.zalloc_list ≡ true → contains p h'.freed ≡ contains p h.freed)
unfolding step trace_init
step-loaded cs (malloc size q) h p l = (ground arith, ground arith, λ i. ground arith)
step-loaded cs (free ptr) h p l =
    (ground arith, ground arith, λ i. ground (arith, contains-append p h.freed (ptr ∷ [])))
step-loaded cs (calloc nmemb size q) h p l = (ground arith, ground arith, λ i. ground arith)
step-loaded cs (realloc ptr size q) h p l = (ground arith, ground arith, λ i. ground arith)
step-loaded cs (reallocarray ptr nmemb size q) h p l =
    (ground arith, ground arith, λ i. ground arith)

-- Once the functions of the C library are found, the addresses that dlsym was given stay known, and
-- none of them is given to the free of the C library, whatever the program calls.
pub run-freed :
    (calls : List (List Internal × Call)) (h : Hook) (p : ℕ)
    → h.loaded ≡ true
    → contains p h.zalloc_list ≡ true
    → ((run calls h).zalloc_list ≡ h.zalloc_list)
      × (contains p (run calls h).freed ≡ contains p h.freed)
unfolding run
run-freed [] h p l i = (refl, refl)
run-freed ((cs, c) ∷ rest) h p l i =
    let (loaded, same, freed) = step-loaded cs c h p l in
    let (list, rest_freed) = run-freed rest (step cs c h).1 p loaded (ap (contains p) same ∙ i) in
    (list ∙ same, rest_freed ∙ freed i)
