-- ===== src/Sysutil/Laws.antt =====
-- What src/ts/common/sysutil.cc finds in a directory.
use jvm.Common.{
  ℕ, ◌≡◌, ◌≢◌, ◌⊎◌, inl, inr, refl, Bool, true, false, not, ◌&&◌, ◌||◌, List, [], ◌∷◌, none, some,
  ◌==◌, if◌then◌else◌, ℤ, pos, eqb_ℤ, arith, Option-cases,
}
use jvm.Sysutil.{Readdir, before, insert, is_dots, read_entries, Contents, get_directory_contents}

abbrev pub eqb_name : List ℕ → List ℕ → Bool
eqb_name [] [] = true
eqb_name [] (y ∷ ys) = false
eqb_name (x ∷ xs) [] = false
eqb_name (x ∷ xs) (y ∷ ys) = (x == y) && eqb_name xs ys

abbrev pub elem : List ℕ → List (List ℕ) → Bool
elem n [] = false
elem n (x ∷ xs) = eqb_name n x || elem n xs

-- The entries that are read before the loop ends, without "." and "..", and how it ends.
abbrev pub entries : List Readdir → List (List ℕ)
entries [] = []
entries (r ∷ rs) = elim r.name [
  | none ↦ []
  | some child ↦
      if not (eqb_ℤ r.ret (pos 0))
      then []
      else if is_dots child
      then entries rs
      else child ∷ entries rs
]

eqb_name-before :
    (n x y : List ℕ) → before x y ≡ false → before y x ≡ false → eqb_name n x ≡ eqb_name n y
unfolding before
eqb_name-before n [] [] h k = refl
eqb_name-before n [] (y ∷ ys) h k = cc
eqb_name-before n (x ∷ xs) [] h k = cc
eqb_name-before [] (x ∷ xs) (y ∷ ys) h k = refl
eqb_name-before (n ∷ ns) (x ∷ xs) (y ∷ ys) h k = ground (arith, eqb_name-before ns xs ys)

elem-insert :
    (n c : List ℕ) (xs : List (List ℕ)) → elem n (insert c xs) ≡ (eqb_name n c || elem n xs)
unfolding insert
elem-insert n c [] = refl
elem-insert n c (x ∷ xs) = ground (arith, elem-insert n c xs, eqb_name-before n c x)

elem-read_entries :
    (n : List ℕ) (rs : List Readdir) (children : List (List ℕ)) (found : List (List ℕ) × ℤ)
    → read_entries rs children ≡ some found
    → elem n found.0 ≡ (elem n children || elem n (entries rs))
unfolding read_entries
elem-read_entries n [] children found h = cc
elem-read_entries n (r ∷ rs) children found h = elim (Option-cases r.name) [
  | inl e ↦ ground arith
  | inr (child, e) ↦ ground (
    arith,
    elem-read_entries n rs children found,
    elem-read_entries n rs (insert child children) found,
    elem-insert n child children,
  )
]

-- A call that returns either lists exactly the entries that are read before the end, without "."
-- and ".."; or it has an error and lists nothing. It closes the directory exactly when
-- it has opened it.
pub get_directory_contents-elem :
    (n : List ℕ) (opened : Bool) (rs : List Readdir) (c : Contents)
    → get_directory_contents opened rs ≡ some c
    → (c.closed ≡ opened)
      × (((c.error ≡ none) × (elem n c.children ≡ elem n (entries rs)))
          ⊎ ((c.error ≢ none) × (c.children ≡ [])))
unfolding get_directory_contents
get_directory_contents-elem n opened rs c h = elim (Option-cases (read_entries rs [])) [
  | inl e ↦ ground arith
  | inr (found, e) ↦ ground (arith, elem-read_entries n rs [] found e)
]
