-- ===== src/MemChecker.antt =====
-- src/mem_checker.cpp: the bytes in use, and the size of each block by its address.
pub mod Laws
pub mod Tests
pub mod Lock
use jvm.Common.{
  ℕ, ◌+◌, ◌-◌, ◌%◌, List, [], ◌∷◌, Option, none, some, ◌==◌, if◌then◌else◌, ℤ, to_int64, to_uint64,
  two64,
}

-- `mem_` (a uint64_t) and `map_` (a `std::map<void *, int64_t>`, as the list of its entries).
pub record Checker : Type 0 where
  pub mem : ℕ
  pub blocks : List (ℕ × ℤ)

unfoldable pub find : ℕ → List (ℕ × ℤ) → Option ℤ
find p [] = none
find p ((q, l) ∷ m) = let rest = find p m in if q == p then some l else rest

-- `std::map::insert` does not touch an entry that is there.
unfoldable pub insert : ℕ → ℤ → List (ℕ × ℤ) → List (ℕ × ℤ)
unfolding find
insert p l m = elim (find p m) [ none ↦ (p, l) ∷ m | some old ↦ m ]

unfoldable pub erase : ℕ → List (ℕ × ℤ) → List (ℕ × ℤ)
erase p [] = []
erase p ((q, l) ∷ m) = let rest = erase p m in if q == p then m else (q, l) ∷ rest

unfoldable pub add : Checker → ℕ → ℕ → Checker
unfolding insert
add c p len = record { mem = (c.mem + len) % two64; blocks = insert p (to_int64 len) c.blocks }

unfoldable pub del : Checker → ℕ → Checker
unfolding find erase
del c p = if p == 0 then c else elim (find p c.blocks) [
  | none ↦ c
  | some l ↦ record { mem = (c.mem + two64 - to_uint64 l) % two64; blocks = erase p c.blocks }
]
