-- ===== src/Tracer/Push/Laws.antt =====
-- What a push of src/tt.cpp leaves on the stack of the process.
use jvm.Common.{
  ℕ, zero, suc, ◌+◌, ◌-◌, ◌*◌, ◌/◌, ◌%◌, ◌≤◌, ◌<◌, ◌≡◌, refl, ap, ltb, if◌then◌else◌, arith, leb,
  ◌&&◌, dec_lt,
}
use jvm.Tracer.Memory.{two32, add_addr, byte_of}
use jvm.Tracer.Push.{Process, word_at, write_from, ptrace_write, aligned_below, ptrace_push}

aligned_below_lem :
    (esp size : ℕ)
    → esp % 4 ≡ 0
    → size ≤ esp
    → esp < two32
    → let a = aligned_below esp size in
      (a % 4 ≡ 0) × (a + (size + 3) / 4 * 4 ≡ esp) × (a + size ≤ esp)
unfolding aligned_below
aligned_below_lem esp size al room top = omega arith

-- PTRACE_POKETEXT writes the four bytes of a word and nothing else.
abbrev pub Pokes : {M : Type 0} → (M → ℕ → ℕ → M) → (M → ℕ → ℕ) → Type 0
Pokes {M} poke byte =
    (m : M) (a w b : ℕ)
    → byte (poke m a w) b ≡ (if leb a b && ltb b (a + 4) then byte_of w (b - a) else byte m b)

byte_of-word_at :
    (source : ℕ → ℕ) (count i : ℕ)
    → ((j : ℕ) → source j < 256)
    → i < 4
    → byte_of (word_at source count) i ≡ source (count + i)
byte_of-word_at source count zero small lt = ground (arith, small count)
byte_of-word_at source count (suc zero) small lt = ground (arith, small count, small (count + 1))
byte_of-word_at source count (suc (suc zero)) small lt =
    ground (arith, small count, small (count + 1), small (count + 2))
byte_of-word_at source count (suc (suc (suc zero))) small lt =
    ground (arith, small count, small (count + 1), small (count + 2), small (count + 3))
byte_of-word_at source count (suc (suc (suc (suc i)))) small lt = absurd (omega arith)

module _ {M : Type 0} (poke : M → ℕ → ℕ → M) (byte : M → ℕ → ℕ) (pokes : Pokes poke byte) where
  -- From `count` on, whole words are written: up to the next multiple of four behind `len`.
  byte-write_from :
      (m : M) (addr : ℕ) (source : ℕ → ℕ) (len fuel count b : ℕ)
      → ((j : ℕ) → source j < 256)
      → count % 4 ≡ 0
      → len ≤ 4 * fuel + count
      → addr + len + 3 < two32
      → byte (write_from poke m addr source len fuel count) b ≡ (
          if leb (addr + count) b && ltb b (addr + (len + 3) / 4 * 4)
          then source (b - addr)
          else byte m b)
  unfolding write_from
  byte-write_from m addr source len zero count b small c f a = ground arith
  byte-write_from m addr source len (suc fuel) count b small c f a = elim (dec_lt count len) [
    | yes more ↦
        let here : add_addr addr count ≡ addr + count = omega arith in
        let ih =
          byte-write_from (poke m (addr + count) (word_at source count)) addr source len fuel
            (count + 4) b small (omega arith) (omega arith) a in
        ground (
          arith,
          here,
          ih,
          pokes m (addr + count) (word_at source count) b,
          byte_of-word_at source count (b - (addr + count)) small,
          index count addr b,
        )
    | no done ↦ ground arith
  ]
    where
      index : (k a x : ℕ) → a + k ≤ x → source (k + (x - (a + k))) ≡ source (x - a)
      index k a x le = ap source (omega arith)

  -- When the stack pointer is a multiple of four and there is room below it, a push aligns it below
  -- the bytes, the process holds the bytes at the new stack pointer, and nothing at the old stack
  -- pointer or above it, nor below the new one, has changed.
  pub ptrace_push-bytes :
      (p : Process M) (source : ℕ → ℕ) (size b : ℕ)
      → ((j : ℕ) → source j < 256)
      → p.regs.esp % 4 ≡ 0
      → size ≤ p.regs.esp
      → p.regs.esp + 3 < two32
      → let (p', esp) = ptrace_push poke p source size in
        (p'.regs.esp ≡ esp)
        × (esp % 4 ≡ 0)
        × (esp + size ≤ p.regs.esp)
        × (byte p'.memory b
            ≡ (if leb esp b && ltb b p.regs.esp then source (b - esp) else byte p.memory b))
  unfolding ptrace_push ptrace_write
  ptrace_push-bytes p source size b small al room top =
      let esp = aligned_below p.regs.esp size in
      let e = aligned_below_lem p.regs.esp size al room (omega arith) in
      (
        refl,
        e.0,
        e.2,
        ground (
          arith,
          e,
          byte-write_from p.memory esp source size size 0 b small refl (omega arith)
              (omega (arith, e)),
        ),
      )
