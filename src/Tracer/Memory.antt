-- ===== src/Tracer/Memory.antt =====
-- src/tt.cpp, ptrace_read and ptrace_readstr. A `long` of the tracer has four bytes.
pub mod Laws
use jvm.Common.{
  ℕ, zero, suc, ◌+◌, ◌*◌, ◌/◌, ◌%◌, ◌^◌, Bool, true, false, List, [], ◌∷◌, ◌++◌, ◌==◌, ltb, leb,
  if◌then◌else◌, get_or,
}

abbrev pub two32 : ℕ
two32 = 2 ^ 32

-- Addresses wrap.
abbrev pub add_addr : ℕ → ℕ → ℕ
add_addr a b = (a + b) % two32

-- The loop of ptrace_read from `count` on: the words of a struct of `len` bytes. Each round takes
-- four bytes, so `len` rounds are enough.
read_from : (ℕ → ℕ) → ℕ → ℕ → ℕ → ℕ → List ℕ
read_from peek addr len zero count = []
read_from peek addr len (suc fuel) count =
    let rest = read_from peek addr len fuel (count + 4) in
    if ltb count len then peek (add_addr addr count) ∷ rest else []

unfoldable pub ptrace_read : (ℕ → ℕ) → ℕ → ℕ → List ℕ
unfolding read_from
ptrace_read peek addr len = read_from peek addr len len 0

-- The word at index `i` of a struct that has been read.
abbrev pub word : List ℕ → ℕ → ℕ
word ws i = get_or ws i 0

-- What ptrace_readstr leaves in the 64 bytes that it allocates: the bytes before the 0, and
-- whether it has written a 0.
pub record Str : Type 0 where
  pub bytes : List ℕ
  pub terminated : Bool

-- The bytes of a word, the lowest first.
abbrev pub byte_of : ℕ → ℕ → ℕ
byte_of w zero = w % 256
byte_of w (suc i) = byte_of (w / 256) i

-- `while(i <= 60)`; `i` and `count` are equal at its head. Each round takes four bytes.
unfoldable pub read_chars : (ℕ → ℕ) → ℕ → ℕ → ℕ → List ℕ → Str
read_chars peek addr zero i str = record { bytes = str; terminated = false }
read_chars peek addr (suc fuel) i str = elim (leb i 60) [
  | false ↦ record { bytes = str; terminated = false }
  | true ↦
      let w = peek (add_addr addr i) in
      elim (byte_of w 0 == 0) [
        | true ↦ record { bytes = str; terminated = true }
        | false ↦ elim (byte_of w 1 == 0) [
          | true ↦ record { bytes = str ++ byte_of w 0 ∷ []; terminated = true }
          | false ↦ elim (byte_of w 2 == 0) [
            | true ↦ record { bytes = str ++ byte_of w 0 ∷ byte_of w 1 ∷ []; terminated = true }
            | false ↦ elim (byte_of w 3 == 0) [
              | true ↦ record {
                bytes = str ++ byte_of w 0 ∷ byte_of w 1 ∷ byte_of w 2 ∷ [];
                terminated = true;
              }
              | false ↦
                  read_chars peek addr fuel (i + 4)
                    (str ++ byte_of w 0 ∷ byte_of w 1 ∷ byte_of w 2 ∷ byte_of w 3 ∷ [])
            ]
          ]
        ]
      ]
]

-- From 0 to 60 in steps of 4: sixteen rounds.
unfoldable pub ptrace_readstr : (ℕ → ℕ) → ℕ → Str
unfolding read_chars
ptrace_readstr peek addr = read_chars peek addr 17 0 []
