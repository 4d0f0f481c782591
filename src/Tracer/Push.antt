-- ===== src/Tracer/Push.antt =====
-- src/tt.cpp, ptrace_write, ptrace_push, and the first part of ptrace_call: a call prepared on the stack
-- of the process. `M` is the memory of the process and `poke` what PTRACE_POKETEXT makes of it;
-- `data` is the memory of the tracer from the pointer on that it writes from.
pub mod Laws
use jvm.Common.{
  ℕ, zero, suc, ◌+◌, ◌-◌, ◌*◌, ◌/◌, ◌%◌, ◌^◌, Bool, true, false, List, [], ◌∷◌, ltb, length, get_or,
  if◌then◌else◌,
}
use jvm.Tracer.Memory.{two32, add_addr, byte_of}

-- The registers that are changed.
pub record Regs : Type 0 where
  pub esp : ℕ
  pub eip : ℕ
  pub eax : ℕ
  pub ecx : ℕ
  pub edx : ℕ

-- The stopped process.
pub record Process (M : Type 0) : Type 0 where
  pub memory : M
  pub regs : Regs

-- The word that `memcpy` takes from `vptr + count`.
abbrev pub word_at : (ℕ → ℕ) → ℕ → ℕ
word_at source count =
    source count
    + 256 * (source (count + 1) + 256 * (source (count + 2) + 256 * source (count + 3)))

-- `esp -= size; esp = esp - esp % 4`
unfoldable pub aligned_below : ℕ → ℕ → ℕ
aligned_below esp size = let e = (esp + two32 - size) % two32 in e - e % 4

abbrev pub return_address : ℕ
return_address = 0x41414140

module _ {M : Type 0} (poke : M → ℕ → ℕ → M) where
  -- The loop from `count` on; each round takes four bytes, so `len` rounds are enough.
  unfoldable pub write_from : M → ℕ → (ℕ → ℕ) → ℕ → ℕ → ℕ → M
  write_from m addr source len zero count = m
  write_from m addr source len (suc fuel) count = elim (ltb count len) [
    | false ↦ m
    | true ↦
        write_from (poke m (add_addr addr count) (word_at source count)) addr source len fuel
          (count + 4)
  ]

  unfoldable pub ptrace_write : M → ℕ → (ℕ → ℕ) → ℕ → M
  unfolding write_from
  ptrace_write m addr source len = write_from m addr source len len 0

  unfoldable pub ptrace_push : Process M → (ℕ → ℕ) → ℕ → Process M × ℕ
  unfolding ptrace_write aligned_below
  ptrace_push p source size =
      let esp = aligned_below p.regs.esp size in
      (
        record {
          memory = ptrace_write p.memory esp source size;
          regs = record p.regs { esp = esp };
        },
        esp,
      )

  -- The part of ptrace_call before PTRACE_CONT.
  unfoldable pub set_up_call : Process M → ℕ → Process M
  unfolding ptrace_push
  set_up_call p addr =
      let (p', esp) = ptrace_push p (byte_of return_address) 4 in
      record p' { regs = record p'.regs { eip = addr } }
