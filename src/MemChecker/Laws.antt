-- ===== src/MemChecker/Laws.antt =====
-- When the count of src/mem_checker.cpp agrees with the blocks that it knows.
use jvm.Common.{
  ℕ, ◌+◌, ◌%◌, ◌<◌, ◌≡◌, ◌≢◌, refl, List, [], ◌∷◌, none, some, ℤ, to_uint64, two64,
  to_uint64-to_int64, arith, Option-cases, inl, inr,
}
use jvm.MemChecker.{Checker, find, insert, erase, add, del}

-- The sizes of the known blocks, as the unsigned numbers that they stand for.
abbrev pub total : List (ℕ × ℤ) → ℕ
total [] = 0
total ((p, l) ∷ m) = to_uint64 l + total m

-- The sizes fit their type.
abbrev pub Sizes : List (ℕ × ℤ) → Type 0
Sizes [] = Unit {0}
Sizes ((p, l) ∷ m) = (to_uint64 l < two64) × Sizes m

-- The count is the sum of the known blocks, in 64 bits.
pub record IsBalanced (c : Checker) : Type 0 where
  pub agrees : c.mem ≡ total c.blocks % two64
  pub sizes : Sizes c.blocks

erase-total :
    (p : ℕ) (m : List (ℕ × ℤ)) (l : ℤ)
    → find p m ≡ some l
    → Sizes m
    → (total m ≡ total (erase p m) + to_uint64 l) × (to_uint64 l < two64) × Sizes (erase p m)
unfolding find erase
erase-total p [] l h s = cc
erase-total p ((q, k) ∷ m) l h s = ground (arith, erase-total p m l)

-- Adding a block at an address that is not known keeps the balance.
pub add-IsBalanced :
    (c : Checker) (p len : ℕ)
    → len < two64
    → find p c.blocks ≡ none
    → IsBalanced c
    → IsBalanced (add c p len)
unfolding add
add-IsBalanced c p len small fresh v =
    let e = to_uint64-to_int64 len small in
    record {
      agrees = rw (fresh, add, insert) (omega (arith, v.agrees, e));
      sizes = rw (fresh, add, insert) (rw e small, v.sizes);
    }

-- Deleting keeps the balance, whatever the address.
pub del-IsBalanced : (c : Checker) (p : ℕ) → IsBalanced c → IsBalanced (del c p)
unfolding del
del-IsBalanced c p v = elim (Option-cases (find p c.blocks)) [
  | inl e ↦ ground arith
  | inr (l, e) ↦ let r = erase-total p c.blocks l e v.sizes in ground (arith, r)
]

-- Adding a block at an address that is known counts it and records nothing: the balance is lost
-- unless the length is 0.
add-drift :
    (c : Checker) (p len : ℕ) (l : ℤ)
    → 0 < len
    → len < two64
    → find p c.blocks ≡ some l
    → IsBalanced c
    → (add c p len).blocks ≡ c.blocks × ¬ IsBalanced (add c p len)
unfolding add
add-drift c p len l pos_ small known v =
    (rw (known, add, insert), λ w. ground (arith, w.agrees, v.agrees))

-- The entry of the null address stays, whatever is added and deleted.
pub add-null :
    (c : Checker) (p len : ℕ) (l : ℤ)
    → find 0 c.blocks ≡ some l
    → find 0 (add c p len).blocks ≡ some l
unfolding add find
add-null c p len l h = ground arith

find-erase_ne : (p q : ℕ) (m : List (ℕ × ℤ)) → p ≢ q → find q (erase p m) ≡ find q m
unfolding find erase
find-erase_ne p q [] ne = refl
find-erase_ne p q ((r, l) ∷ m) ne = ground (arith, find-erase_ne p q m ne)

pub del-null :
    (c : Checker) (p : ℕ) (l : ℤ) → find 0 c.blocks ≡ some l → find 0 (del c p).blocks ≡ some l
unfolding del
del-null c p l h = ground (arith, find-erase_ne p 0 c.blocks)
