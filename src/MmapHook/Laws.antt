-- ===== src/MmapHook/Laws.antt =====
-- mmap and munmap of src/mm.cpp are those of the C library.
use jvm.Common.{ℕ, ◌≡◌, refl, List, [], ◌∷◌, Option, some, arith}
use jvm.MmapHook.{Name, mmap_name, munmap_name, State, new, returned, forward, run}

module _ {ℓ κ} {A : Type κ} {R : Type ℓ} (dlsym : Name → Option ℕ) (call : ℕ → A → R) (f g : ℕ)
    (has_mmap : dlsym mmap_name ≡ some f) (has_munmap : dlsym munmap_name ≡ some g) where
  -- The function of the C library with a name.
  abbrev pub real : Name → ℕ
  real mmap_name = f
  real munmap_name = g

  abbrev loaded : State
  loaded = record { r_mmap = some f; r_munmap = some g; inits = 1 }

  abbrev pub results : List (Name × A) → List R
  results [] = []
  results ((name, args) ∷ calls) = call (real name) args ∷ results calls

  forward-loaded :
      (name : Name) (args : A)
      → forward dlsym call name args loaded ≡ returned (call (real name) args) loaded
  unfolding forward
  forward-loaded mmap_name args = refl
  forward-loaded munmap_name args = refl

  forward-new :
      (name : Name) (args : A)
      → forward dlsym call name args new ≡ returned (call (real name) args) loaded
  unfolding forward
  forward-new mmap_name args = rw (has_mmap, has_munmap)
  forward-new munmap_name args = rw (has_mmap, has_munmap)

  run-loaded :
      (calls : List (Name × A)) → run dlsym call calls loaded ≡ returned (results calls) loaded
  unfolding run
  run-loaded [] = refl
  run-loaded ((name, args) ∷ calls) = ground (arith, forward-loaded name args, run-loaded calls)

  -- When dlsym finds both functions, every call, from the first one on, returns what the function of
  -- the C library returns for the same arguments, and init_map runs once.
  pub run-results :
      (first : Name × A) (calls : List (Name × A))
      → run dlsym call (first ∷ calls) new ≡ returned (results (first ∷ calls)) loaded
  unfolding run
  run-results (name, args) calls = ground (arith, forward-new name args, run-loaded calls)
