-- ===== src/MemChecker/Tests.antt =====
-- Examples for src/mem_checker.cpp.
use jvm.Common.{◌+◌}
use jvm.MemChecker.Lock.{System, Reach, AllEntered, no_exclusion}

no_exclusion_example : (s : System) × Reach (λ i. i + 1) s × AllEntered 3 s.pc
no_exclusion_example = no_exclusion (λ i. i + 1) 3
