-- ===== src/Hook/Tests.antt =====
-- Examples for src/hook.cpp.
use jvm.Common.{◌%◌, ◌≡◌, refl, List, [], ◌∷◌, map, two64, arith}
use jvm.Hook.{Call, malloc_call, Event, malloc_event, free_event, run, init}
use jvm.Hook.Laws.{held, Behaves, entry, bytes, run-bytes}

-- The tracer itself allocates the node of its map.
abbrev nested : List Call
nested = malloc_call 1 48 200 ∷ []

abbrev events : List Event
events = malloc_event 1 8 64 nested ∷ malloc_event 2 4 96 [] ∷ free_event 2 64 ∷ []

events-Behaves : Behaves [] events
events-Behaves = (
  λ e. absurd (omega arith),
  omega arith,
  refl,
  (refl, tt),
  (λ e. absurd (omega arith), omega arith, refl, tt, tt),
)

run-bytes_example :
    ((run init events).checker.blocks ≡ map entry (held [] events))
    × ((run init events).checker.mem ≡ bytes (held [] events) % two64)
run-bytes_example = run-bytes events events-Behaves
