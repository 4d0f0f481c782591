-- ===== src/Sysutil.antt =====
-- src/ts/common/sysutil.cc: listing the threads of the process from its task directory. What
-- `readdir_r` returns and `std::stoll` are arguments. A name is the list of its bytes, a `std::set`
-- of names the list of its elements in increasing order.
pub mod Laws
pub mod Tests
use jvm.Common.{
  ℕ, ◌%◌, ◌^◌, Bool, true, false, not, ◌||◌, List, [], ◌∷◌, ◌++◌, Option, none, some, ◌==◌, ltb,
  if◌then◌else◌, ℤ, pos, eqb_ℤ, to_int32, to_uint64,
}

-- One call: its return value, and the name of the entry, `none` where `result` is null.
pub record Readdir : Type 0 where
  pub ret : ℤ
  pub name : Option (List ℕ)

-- `operator<` on strings.
unfoldable pub before : List ℕ → List ℕ → Bool
before [] [] = false
before [] (y ∷ ys) = true
before (x ∷ xs) [] = false
before (x ∷ xs) (y ∷ ys) = let rest = before xs ys in if x == y then rest else ltb x y

unfoldable pub insert : List ℕ → List (List ℕ) → List (List ℕ)
insert n [] = n ∷ []
insert n (x ∷ xs) =
    let rest = insert n xs in
    if before n x then n ∷ x ∷ xs else if before x n then x ∷ rest else x ∷ xs

-- "." and "..".
abbrev pub is_dots : List ℕ → Bool
is_dots [] = false
is_dots (c ∷ []) = c == b'.'
is_dots (c ∷ d ∷ []) = if c == b'.' then d == b'.' else false
is_dots (c ∷ d ∷ e ∷ cs) = false

-- The loop: the names and the last return value; `none` where the calls end before the loop does.
unfoldable pub read_entries : List Readdir → List (List ℕ) → Option (List (List ℕ) × ℤ)
unfolding insert
read_entries [] children = none
read_entries (r ∷ rs) children = elim r.name [
  | none ↦ some (children, r.ret)
  | some child ↦
      if not (eqb_ℤ r.ret (pos 0))
      then some (children, r.ret)
      else if is_dots child
      then read_entries rs children
      else read_entries rs (insert child children)
]

pub data DirError : Type 0 where
  not_opened : DirError
  read_error : (posix_error : ℤ) → DirError

-- What the call leaves: its children, its error, and whether the directory was closed.
pub record Contents : Type 0 where
  pub children : List (List ℕ)
  pub error : Option DirError
  pub closed : Bool

unfoldable pub get_directory_contents : Bool → List Readdir → Option Contents
unfolding read_entries
get_directory_contents opened rs =
    if not opened
    then some (record { children = []; error = some not_opened; closed = false })
    else elim (read_entries rs []) [
      | none ↦ none
      | some found ↦
          if not (eqb_ℤ found.1 (pos 0))
          then some (record { children = []; error = some (read_error found.1); closed = true })
          else some (record { children = found.0; error = none; closed = true })
    ]

-- `long long` to `pid_t`.
abbrev pub to_pid : ℤ → ℤ
to_pid n = to_int32 (to_uint64 n % 2 ^ 32)

-- A name that `stoll` refuses is left out.
unfoldable pub pids_of : (List ℕ → Option ℤ) → List (List ℕ) → List ℤ
pids_of stoll [] = []
pids_of stoll (c ∷ cs) = elim (stoll c) [
  | none ↦ pids_of stoll cs
  | some n ↦ to_pid n ∷ pids_of stoll cs
]

unfoldable pub list_threads : (List ℕ → Option ℤ) → Bool → List Readdir → Option (List ℤ)
unfolding get_directory_contents pids_of
list_threads stoll opened rs = elim (get_directory_contents opened rs) [
  | none ↦ none
  | some c ↦ elim c.error [ none ↦ some (pids_of stoll c.children) | some e ↦ some [] ]
]
