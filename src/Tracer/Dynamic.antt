-- ===== src/Tracer/Dynamic.antt =====
-- src/tt.cpp, get_sym_info and get_dyn_info: what the dynamic section of a library says of its
-- symbols. It is kept in global variables.
pub mod Laws
use jvm.Common.{
  ℕ, zero, suc, ◌+◌, ◌*◌, ◌/◌, ◌%◌, ◌^◌, List, [], ◌∷◌, Bool, true, false, ◌==◌, if◌then◌else◌, ℤ,
  pos, to_int32,
}
use jvm.Tracer.Memory.{two32, add_addr, ptrace_read, word}

-- The global variables.
pub record Globals : Type 0 where
  pub nchains : ℤ
  pub symtab : ℕ
  pub strtab : ℕ
  pub jmprel : ℕ
  pub totalrelsize : ℕ
  pub relsize : ℕ
  pub nrels : ℕ
  pub dyn_addr : ℕ

abbrev pub new_globals : Globals
new_globals = record {
  nchains = pos 0;
  symtab = 0;
  strtab = 0;
  jmprel = 0;
  totalrelsize = 0;
  relsize = 0;
  nrels = 0;
  dyn_addr = 0;
}

-- A result, the end of the tracer by a fault (a division by 0, a value that was never read), by
-- `exit(-1)`, or no end within the rounds.
pub data Run {ℓ} (A : Type ℓ) : Type ℓ where
  ok : A → Run A
  crashed : Run A
  exited : Run A
  running : Run A

infixl 5 ◌>>=◌
abbrev pub ◌>>=◌ {ℓ κ} : {A : Type ℓ} {B : Type κ} → Run A → (A → Run B) → Run B
ok a >>= f = f a
crashed >>= f = crashed
exited >>= f = exited
running >>= f = running

-- An entry of the section: `d_tag` and `d_un`.
pub record Dyn : Type 0 where
  pub d_tag : ℕ
  pub d_un : ℕ

-- sizeof(Elf32_Dyn)
abbrev pub dyn_size : ℕ
dyn_size = 8

unfoldable pub read_dyn : (ℕ → ℕ) → ℕ → Dyn
unfolding ptrace_read
read_dyn peek addr =
    let ws = ptrace_read peek addr dyn_size in record { d_tag = word ws 0; d_un = word ws 1 }

-- DT_SYMTAB, DT_STRTAB, DT_HASH, DT_JMPREL, DT_PLTRELSZ, DT_RELAENT, DT_RELENT.
abbrev pub dt_symtab : ℕ
dt_symtab = 6

abbrev pub dt_strtab : ℕ
dt_strtab = 5

abbrev pub dt_hash : ℕ
dt_hash = 4

abbrev pub dt_jmprel : ℕ
dt_jmprel = 23

abbrev pub dt_pltrelsz : ℕ
dt_pltrelsz = 2

abbrev pub dt_relaent : ℕ
dt_relaent = 9

abbrev pub dt_relent : ℕ
dt_relent = 19

-- The `switch` of get_sym_info.
unfoldable pub apply_tag : (ℕ → ℕ) → Globals → Dyn → Globals
apply_tag peek g d =
    if d.d_tag == dt_symtab
    then record g { symtab = d.d_un }
    else if d.d_tag == dt_strtab
    then record g { strtab = d.d_un }
    else if d.d_tag == dt_hash
    then record g { nchains = to_int32 (peek (add_addr d.d_un 4)) }
    else if d.d_tag == dt_jmprel
    then record g { jmprel = d.d_un }
    else if d.d_tag == dt_pltrelsz
    then record g { totalrelsize = d.d_un }
    else if d.d_tag == dt_relaent
    then record g { relsize = d.d_un }
    else if d.d_tag == dt_relent
    then record g { relsize = d.d_un }
    else g

-- The loop over the section, up to DT_NULL.
unfoldable pub read_section : (ℕ → ℕ) → ℕ → ℕ → Globals → Run Globals
unfolding apply_tag read_dyn
read_section peek zero addr g = running
read_section peek (suc fuel) addr g =
    let d = read_dyn peek addr in
    elim (d.d_tag == 0) [
      | true ↦ ok g
      | false ↦ read_section peek fuel (add_addr addr dyn_size) (apply_tag peek g d)
    ]

-- `nrels = totalrelsize / relsize`
unfoldable pub set_nrels : Globals → Run Globals
set_nrels g =
    if g.relsize == 0 then crashed else ok (record g { nrels = g.totalrelsize / g.relsize })

unfoldable pub get_sym_info : (ℕ → ℕ) → ℕ → Globals → (l_ld : ℕ) → Run Globals
unfolding read_section set_nrels
get_sym_info peek fuel g l_ld = read_section peek fuel l_ld g >>= set_nrels

-- The `switch` of get_dyn_info has no DT_HASH.
unfoldable pub apply_dyn_tag : (ℕ → ℕ) → Globals → Dyn → Globals
unfolding apply_tag
apply_dyn_tag peek g d = if d.d_tag == dt_hash then g else apply_tag peek g d

unfoldable pub read_dyn_section : (ℕ → ℕ) → ℕ → ℕ → Globals → Run Globals
unfolding apply_dyn_tag read_dyn
read_dyn_section peek zero addr g = running
read_dyn_section peek (suc fuel) addr g =
    let d = read_dyn peek addr in
    elim (d.d_tag == 0) [
      | true ↦ ok g
      | false ↦ read_dyn_section peek fuel (add_addr addr dyn_size) (apply_dyn_tag peek g d)
    ]

unfoldable pub get_dyn_info : (ℕ → ℕ) → ℕ → Globals → Run Globals
unfolding read_dyn_section set_nrels
get_dyn_info peek fuel g = read_dyn_section peek fuel g.dyn_addr g >>= set_nrels
