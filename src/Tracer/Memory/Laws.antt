-- ===== src/Tracer/Memory/Laws.antt =====
-- What src/tt.cpp reads as a string.
use jvm.Common.{
  ℕ, zero, suc, ◌+◌, ◌*◌, ◌%◌, ◌≤◌, ◌<◌, ◌≡◌, ◌≢◌, ◌⊎◌, refl, true, false, List, [], ◌∷◌, ◌++◌,
  length, length-append, append_assoc, append-nil, arith,
}
use jvm.Tracer.Memory.{two32, add_addr, byte_of, read_chars, ptrace_readstr}

length-read_chars :
    (peek : ℕ → ℕ) (addr fuel i : ℕ) (str : List ℕ)
    → length str ≡ i
    → i ≤ 64
    → i % 4 ≡ 0
    → 68 ≤ 4 * fuel + i
    → let s = read_chars peek addr fuel i str in
      ((s.terminated ≡ true) × (length s.bytes < 64))
      ⊎ ((s.terminated ≡ false) × (length s.bytes ≡ 64))
unfolding read_chars
length-read_chars peek addr zero i str e le m f = absurd (omega arith)
length-read_chars peek addr (suc fuel) i str e le m f =
    let w = peek (add_addr addr i) in
    ground (
      arith,
      length-append str (byte_of w 0 ∷ []),
      length-append str (byte_of w 0 ∷ byte_of w 1 ∷ []),
      length-append str (byte_of w 0 ∷ byte_of w 1 ∷ byte_of w 2 ∷ []),
      length-append str (byte_of w 0 ∷ byte_of w 1 ∷ byte_of w 2 ∷ byte_of w 3 ∷ []),
      length-read_chars peek addr fuel (i + 4)
          (str ++ byte_of w 0 ∷ byte_of w 1 ∷ byte_of w 2 ∷ byte_of w 3 ∷ []),
    )

-- Whatever the process holds, the string with its 0 lies within the 64 bytes that are allocated; or
-- all 64 bytes are filled and no 0 is written, so that it is no C string.
length-ptrace_readstr :
    (peek : ℕ → ℕ) (addr : ℕ)
    → let s = ptrace_readstr peek addr in
      ((s.terminated ≡ true) × (length s.bytes < 64))
      ⊎ ((s.terminated ≡ false) × (length s.bytes ≡ 64))
unfolding ptrace_readstr
length-ptrace_readstr peek addr =
    length-read_chars peek addr 17 0 [] refl (omega arith) refl (omega arith)

-- The bytes of a process: what PTRACE_PEEKTEXT shows of them.
abbrev pub Shows : (ℕ → ℕ) → (ℕ → ℕ) → Type 0
Shows bytes peek =
    (a : ℕ) → peek a ≡ bytes a + 256 * (bytes (a + 1) + 256 * (bytes (a + 2) + 256 * bytes (a + 3)))

-- The bytes from `a` on are those of `xs`, which are not 0, and then a 0.
abbrev pub Holds : (ℕ → ℕ) → ℕ → List ℕ → Type 0
Holds bytes a [] = bytes a ≡ 0
Holds bytes a (x ∷ xs) = (bytes a ≡ x) × (x ≢ 0) × (x < 256) × Holds bytes (a + 1) xs

module _ (bytes peek : ℕ → ℕ) (shows : Shows bytes peek) (small : (a : ℕ) → bytes a < 256) where
  read_chars-Holds :
      (addr fuel i : ℕ) (str xs : List ℕ)
      → addr + i + length xs < two32
      → i + length xs < 64
      → i % 4 ≡ 0
      → 68 ≤ 4 * fuel + i
      → Holds bytes (addr + i) xs
      → read_chars peek addr fuel i str ≡ record { bytes = str ++ xs; terminated = true }
  unfolding read_chars
  read_chars-Holds addr zero i str xs a l m f h = absurd (omega arith)
  read_chars-Holds addr (suc fuel) i str [] a l m f h =
      ground (arith, shows (addr + i), append-nil str, small (addr + i))
  read_chars-Holds addr (suc fuel) i str (x ∷ []) a l m f h =
      ground (arith, shows (addr + i), small (addr + i), small (addr + i + 1))
  read_chars-Holds addr (suc fuel) i str (x ∷ y ∷ []) a l m f h =
      ground (arith, shows (addr + i), small (addr + i + 2))
  read_chars-Holds addr (suc fuel) i str (x ∷ y ∷ z ∷ []) a l m f h =
      ground (arith, shows (addr + i))
  read_chars-Holds addr (suc fuel) i str (x ∷ y ∷ z ∷ u ∷ xs) a l m f h = ground (
    arith,
    shows (addr + i),
    append_assoc str (x ∷ y ∷ z ∷ u ∷ []) xs,
    read_chars-Holds addr fuel (i + 4) (str ++ x ∷ y ∷ z ∷ u ∷ []) xs,
  )

  -- A string of fewer than 64 bytes, none of them 0, is read back as it stands in the process.
  ptrace_readstr-Holds :
      (addr : ℕ) (xs : List ℕ)
      → addr + length xs < two32
      → length xs < 64
      → Holds bytes addr xs
      → ptrace_readstr peek addr ≡ record { bytes = xs; terminated = true }
  unfolding ptrace_readstr
  ptrace_readstr-Holds addr xs a l h =
      let e : addr + 0 ≡ addr = omega arith in
      read_chars-Holds addr 17 0 [] xs (omega arith) (omega arith) refl (omega arith) (rw e h)
