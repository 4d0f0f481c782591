-- ===== src/StackTrace/Listed.antt =====
-- src/ts/common/sysutil.cc and src/ts/signal_handler.cc together: a collection over the threads that
-- ListThreads finds in the task directory.
use native.Mathlib.Nat.{ℕ_set}
use mathlib.Core.Logic.{∥∥₁_elim}
use mathlib.Core.List.{Perm, Permᴰ, head-eq_of_cons-eq, tail-eq_of_cons-eq}
use jvm.Common.{
  ℕ, ◌+◌, ◌<◌, ◌^◌, ◌≡◌, ◌≢◌, ◌⊎◌, inl, inr, refl, ap, sym, ◌∙◌, Bool, true, false, ◌||◌, List, [],
  ◌∷◌, map, Option, none, some, ◌==◌, arith, occurs, length, ℤ, pos, if◌then◌else◌, Bool-cases,
}
use jvm.Sysutil.{Readdir, Contents, get_directory_contents, pids_of, list_threads, to_pid}
use jvm.Sysutil.Laws.{eqb_name, elem, entries, get_directory_contents-elem}
use jvm.StackTrace.Form.{max_depth}
use jvm.StackTrace.Group.Laws.{result_tids}
use jvm.StackTrace.Signals.{insert, set_of, reached, Above, IsIncreasing}
use jvm.StackTrace.Signals.Laws.{set_of-IsIncreasing, kept}
use jvm.StackTrace.Collect.{Os, Collected, collect}
use jvm.StackTrace.Collect.Laws.{collect-perm}

abbrev contains : ℕ → List ℕ → Bool
contains t [] = false
contains t (x ∷ xs) = (t == x) || contains t xs

contains-insert : (t x : ℕ) (xs : List ℕ) → contains t (insert x xs) ≡ ((t == x) || contains t xs)
unfolding insert
contains-insert t x [] = refl
contains-insert t x (y ∷ ys) = ground (arith, contains-insert t x ys)

contains-set_of : (t : ℕ) (xs : List ℕ) → contains t (set_of xs) ≡ contains t xs
unfolding set_of
contains-set_of t [] = refl
contains-set_of t (x ∷ xs) =
    contains-insert t x (set_of xs) ∙ ap (λ b. (t == x) || b) (contains-set_of t xs)

occurs-Above : (t n : ℕ) (xs : List ℕ) → Above n xs → t < n + 1 → occurs t xs ≡ 0
occurs-Above t n [] a h = refl
occurs-Above t n (x ∷ xs) a h = ground (arith, occurs-Above t n xs a.1 h)

-- A set holds each of its elements once.
occurs-IsIncreasing :
    (t : ℕ) (xs : List ℕ) → IsIncreasing xs → occurs t xs ≡ (if contains t xs then 1 else 0)
occurs-IsIncreasing t [] s = refl
occurs-IsIncreasing t (x ∷ xs) s =
    ground (arith, occurs-IsIncreasing t xs s.1, occurs-Above t x xs s.0)

occurs-kept :
    (p : ℕ → Bool) (t : ℕ) (xs : List ℕ) → occurs t (kept p xs) ≡ (if p t then occurs t xs else 0)
occurs-kept p t [] = ground arith
occurs-kept p t (x ∷ xs) = ground (arith, occurs-kept p t xs)

occurs-Permᴰ : (t : ℕ) {xs ys : List ℕ} → Permᴰ xs ys → occurs t xs ≡ occurs t ys
occurs-Permᴰ t Permᴰ.nil = refl
occurs-Permᴰ t (Permᴰ.cons e d) = ground (arith, occurs-Permᴰ t d)
occurs-Permᴰ t (Permᴰ.swap e f) = ground arith
occurs-Permᴰ t (Permᴰ.trans d e) = occurs-Permᴰ t d ∙ occurs-Permᴰ t e

occurs-perm : (t : ℕ) {xs ys : List ℕ} → Perm xs ys → occurs t xs ≡ occurs t ys
occurs-perm t {xs} {ys} p = ∥∥₁_elim p (ℕ_set (occurs t xs) (occurs t ys)) (occurs-Permᴰ t)

eqb_name-eq : (n c : List ℕ) → eqb_name n c ≡ true → n ≡ c
eqb_name-eq [] [] h = refl
eqb_name-eq [] (y ∷ ys) h = cc
eqb_name-eq (x ∷ xs) [] h = cc
eqb_name-eq (x ∷ xs) (y ∷ ys) h = ground (arith, eqb_name-eq xs ys)

to_pid-pos : (t : ℕ) → t < 2 ^ 31 → to_pid (pos t) ≡ pos t
to_pid-pos t h = ground arith

-- The number of a listed name is among the numbers.
contains-pids_of :
    (stoll : List ℕ → Option ℤ) (n : List ℕ) (t : ℕ) (cs : List (List ℕ)) (xs : List ℕ)
    → elem n cs ≡ true
    → stoll n ≡ some (pos t)
    → t < 2 ^ 31
    → pids_of stoll cs ≡ map pos xs
    → contains t xs ≡ true
unfolding pids_of
contains-pids_of stoll n t [] xs e s b h = cc
contains-pids_of stoll n t (c ∷ cs) xs e s b h =
    after (stoll c) refl xs h (λ ys e' h'. contains-pids_of stoll n t cs ys e' s b h')
  where
    same_number : (y : ℕ) (ys : List ℕ) → pos t ≡ pos y → contains t (y ∷ ys) ≡ true
    same_number y ys e = ground arith

    after :
        (r : Option ℤ)
        → stoll c ≡ r
        → (ys : List ℕ)
        → (elim r [ none ↦ pids_of stoll cs | some m ↦ to_pid m ∷ pids_of stoll cs ]) ≡ map pos ys
        → ((zs : List ℕ) → elem n cs ≡ true → pids_of stoll cs ≡ map pos zs → contains t zs ≡ true)
        → contains t ys ≡ true
    after none q ys k ih = elim (Bool-cases (eqb_name n c)) [
      | inl same ↦ absurd (ground (arith, eqb_name-eq n c same))
      | inr other ↦ ih ys (ground arith) k
    ]
    after (some m) q [] k ih = cc
    after (some m) q (y ∷ ys) k ih = elim (Bool-cases (eqb_name n c)) [
      | inl same ↦
          let is_t : m ≡ pos t = ground (arith, eqb_name-eq n c same) in
          let is_y : to_pid m ≡ pos y = head-eq_of_cons-eq k in
          same_number y ys (sym (to_pid-pos t b) ∙ (ap to_pid (sym is_t) ∙ is_y))
      | inr other ↦ ground (arith, ih ys (ground arith) (tail-eq_of_cons-eq k))
    ]

list_threads-pids_of :
    (stoll : List ℕ → Option ℤ) (rs : List Readdir) (dir : Contents) (ns : List ℤ)
    → list_threads stoll true rs ≡ some ns
    → get_directory_contents true rs ≡ some dir
    → dir.error ≡ none
    → pids_of stoll dir.children ≡ ns
unfolding list_threads
list_threads-pids_of stoll rs dir ns h d e = ground arith

module _ (stoll : List ℕ → Option ℤ) (rs : List Readdir) (os : Os) (c : Collected)
    (listed : list_threads stoll true rs ≡ some (map pos os.threads))
    (collected : collect os ≡ some c) (no_error : c.error ≡ none)
    (sized : (t : ℕ) → length (os.process.memory t) ≡ max_depth) where
  -- When the task directory can be read to its end, the threads of the collection are those listed,
  -- the form of each lies in memory of the declared size and the collection returns no error: each
  -- entry that `stoll` reads as the number of a thread, less than 2^31, is named by the results
  -- exactly once if the signal reaches the thread, and else not at all.
  pub occurs-list_threads :
      (t : ℕ) (name : List ℕ) (dir : Contents)
      → get_directory_contents true rs ≡ some dir
      → dir.error ≡ none
      → elem name (entries rs) ≡ true
      → stoll name ≡ some (pos t)
      → t < 2 ^ 31
      → occurs t (result_tids c.results) ≡ (if reached os.process os.write_fd t then 1 else 0)
  occurs-list_threads t name dir d e m s b =
      let (_, found) = get_directory_contents-elem name true rs dir d in
      let pids = list_threads-pids_of stoll rs dir (map pos os.threads) listed d e in
      let within =
        contains-pids_of stoll name t dir.children os.threads (in_children found) s b pids in
      occurs-perm t (collect-perm os c sized collected no_error)
      ∙ once _ _ _ _ (occurs-kept (reached os.process os.write_fd) t (set_of os.threads))
          (occurs-IsIncreasing t (set_of os.threads) (set_of-IsIncreasing os.threads))
          (contains-set_of t os.threads ∙ within)
    where
      in_children :
          ((dir.error ≡ none) × (elem name dir.children ≡ elem name (entries rs)))
            ⊎ ((dir.error ≢ none) × (dir.children ≡ []))
          → elem name dir.children ≡ true
      in_children (inl f) = f.1 ∙ m
      in_children (inr f) = absurd (f.0 e)

      once :
          (p : Bool) (k n : ℕ) (b : Bool)
          → k ≡ (if p then n else 0)
          → n ≡ (if b then 1 else 0)
          → b ≡ true
          → k ≡ (if p then 1 else 0)
      once p k n b f g h = ground arith
