-- ===== src/ZallocHook/Tests.antt =====
-- An example for the hook of src/__hook.cpp__.
use jvm.Common.{arith, ◌≡◌, refl, List, [], ◌∷◌, some}
use jvm.ZallocHook.{
  Hook, init, Internal, calloc_inside, contains, Call, malloc, free, step, inside, inside_all,
  trace_init, zalloc_internal, run,
}
use jvm.ZallocHook.Laws.{Bounded, run-freed, run-Bounded}

-- dlsym has allocated a block at 64; the program has one at 512.
abbrev found : Hook
found = (step (calloc_inside (some 64) ∷ []) (malloc 8 512) init).1

found-zalloc_list : found.zalloc_list ≡ 64 ∷ []
unfolding step trace_init inside_all inside zalloc_internal
found-zalloc_list = refl

abbrev frees : List (List Internal × Call)
frees = ([], free 64) ∷ ([], free 512) ∷ []

frees-freed : (run frees found).freed ≡ 512 ∷ []
unfolding run step trace_init inside_all inside zalloc_internal
frees-freed = refl

run-freed_example :
    ((run frees found).zalloc_list ≡ found.zalloc_list)
    × (contains 64 (run frees found).freed ≡ contains 64 found.freed)
unfolding step trace_init inside_all inside zalloc_internal
run-freed_example = run-freed frees found 64 refl refl

-- dlsym allocates before the functions are found, and the list starts empty.
abbrev calls : List (List Internal × Call)
calls = (calloc_inside (some 64) ∷ calloc_inside (some 128) ∷ [], malloc 8 512) ∷ frees

run-Bounded_example : Bounded (run calls init)
run-Bounded_example = run-Bounded calls init (omega arith)
