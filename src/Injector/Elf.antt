-- ===== src/Injector/Elf.antt =====
-- src/trace.h, get_linkmap and handle_one_lmap: the list of the libraries of a process, and what the
-- dynamic section of one says. ptrace_getdata is an argument, and so is IMAGE_ADDR. A local variable
-- that has no value yet is `none`.
pub mod Laws
use jvm.Common.{
  ℕ, zero, suc, ◌+◌, ◌*◌, ◌/◌, ◌%◌, Bool, true, false, List, Option, none, some, ◌==◌,
  if◌then◌else◌,
}
use jvm.PerfData.{field_of}
use jvm.Tracer.Dynamic.{Dyn}
use jvm.Injector.Run.{Run, ok, undefined, exited, running, ◌>>=◌}
use jvm.Injector.Inject.{add_addr}

-- sizeof(Elf_Ehdr), sizeof(Elf_Phdr), sizeof(Elf_Dyn) and sizeof(Elf_Addr)
abbrev pub ehdr_size : ℕ
ehdr_size = 64

abbrev pub phdr_size : ℕ
phdr_size = 56

abbrev pub dyn_size : ℕ
dyn_size = 16

abbrev pub addr_size : ℕ
addr_size = 8

-- PT_DYNAMIC and DT_PLTGOT
abbrev pub pt_dynamic : ℕ
pt_dynamic = 2

abbrev pub dt_pltgot : ℕ
dt_pltgot = 3

-- What handle_one_lmap has seen of the section so far.
pub record Seen : Type 0 where
  pub symtab : Option ℕ
  pub syment : Option ℕ
  pub symsz : Option ℕ
  pub strtab : Option ℕ
  pub jmprel : Option ℕ
  pub relpltsz : Option ℕ
  pub reldyn : Option ℕ
  pub reldynsz : Option ℕ
  pub relent : Option ℕ

abbrev pub nothing_seen : Seen
nothing_seen = record {
  symtab = none;
  syment = none;
  symsz = none;
  strtab = none;
  jmprel = none;
  relpltsz = none;
  reldyn = none;
  reldynsz = none;
  relent = none;
}

-- The cases of the `switch`, in their order.
pub data Tag : Type 0 where
  dt_symtab dt_syment dt_syminsz dt_strtab dt_jmprel dt_pltrelsz dt_rel dt_relent dt_relsz : Tag
  dt_other : Tag

abbrev pub tag_of : ℕ → Tag
tag_of n =
    if n == 6
    then dt_symtab
    else if n == 11
    then dt_syment
    else if n == 0x6ffffdfe
    then dt_syminsz
    else if n == 5
    then dt_strtab
    else if n == 23
    then dt_jmprel
    else if n == 2
    then dt_pltrelsz
    else if n == 17
    then dt_rel
    else if n == 7
    then dt_rel
    else if n == 19
    then dt_relent
    else if n == 9
    then dt_relent
    else if n == 18
    then dt_relsz
    else if n == 8
    then dt_relsz
    else dt_other

abbrev pub set_tag : Seen → ℕ → Tag → Seen
set_tag s v dt_symtab = record s { symtab = some v }
set_tag s v dt_syment = record s { syment = some v }
set_tag s v dt_syminsz = record s { symsz = some v }
set_tag s v dt_strtab = record s { strtab = some v }
set_tag s v dt_jmprel = record s { jmprel = some v }
set_tag s v dt_pltrelsz = record s { relpltsz = some v }
set_tag s v dt_rel = record s { reldyn = some v }
set_tag s v dt_relent = record s { relent = some v }
set_tag s v dt_relsz = record s { reldynsz = some v }
set_tag s v dt_other = s

unfoldable pub apply_tag : Seen → Dyn → Seen
apply_tag s d = set_tag s d.d_un (tag_of d.d_tag)

pub record LmapResult : Type 0 where
  pub symtab : Option ℕ
  pub strtab : Option ℕ
  pub jmprel : Option ℕ
  pub reldyn : Option ℕ
  pub link_addr : ℕ
  pub nsymbols : Option ℕ
  pub nrelplts : Option ℕ
  pub nreldyns : Option ℕ

-- A quotient, by a number that is not 0.
abbrev pub over : Option ℕ → ℕ → Option ℕ
over none n = none
over (some size) n = some (size / n)

abbrev pub result_of : Seen → ℕ → (syment relent : ℕ) → LmapResult
result_of s l_addr syment relent = record {
  symtab = s.symtab;
  strtab = s.strtab;
  jmprel = s.jmprel;
  reldyn = s.reldyn;
  link_addr = l_addr;
  nsymbols = over s.symsz syment;
  nrelplts = over s.relpltsz relent;
  nreldyns = over s.reldynsz relent;
}

-- From the test of the two sizes on; `none` is the null pointer.
unfoldable pub finish_lmap : Seen → ℕ → Run (Option LmapResult)
finish_lmap s l_addr = elim s.syment [
  | none ↦ undefined
  | some syment ↦ if syment == 0 then ok none else elim s.relent [
    | none ↦ undefined
    | some relent ↦ if relent == 0 then ok none else ok (some (result_of s l_addr syment relent))
  ]
]

module _ (getdata : ℕ → ℕ → List ℕ) where
  unfoldable pub read_dyn : ℕ → Dyn
  unfolding field_of
  read_dyn addr =
      let bytes = getdata addr dyn_size in
      record { d_tag = field_of bytes 0 8; d_un = field_of bytes 8 8 }

  -- The loop over the section. It goes on by sizeof(Elf_Dyn) / sizeof(Elf_Addr), two bytes.
  unfoldable pub read_section : ℕ → ℕ → Seen → Run Seen
  unfolding read_dyn apply_tag
  read_section zero dyn_addr s = running
  read_section (suc fuel) dyn_addr s =
      let d = read_dyn dyn_addr in
      elim (d.d_tag == 0) [
        | true ↦ ok s
        | false ↦ read_section fuel (add_addr dyn_addr (dyn_size / addr_size)) (apply_tag s d)
      ]

  unfoldable pub handle_one_lmap : ℕ → (l_addr l_ld : ℕ) → Run (Option LmapResult)
  unfolding read_section finish_lmap
  handle_one_lmap fuel l_addr l_ld =
      read_section fuel l_ld nothing_seen >>= λ s. finish_lmap s l_addr

  -- The loop over the program headers from index `i` on: the header that was read last, and the
  -- address that it gives if it is the dynamic one.
  unfoldable pub scan_phdrs : (phdr_addr dyn_addr n i : ℕ) → Option (List ℕ) → Option (List ℕ) × ℕ
  unfolding field_of
  scan_phdrs phdr_addr dyn_addr zero i phdr = (phdr, dyn_addr)
  scan_phdrs phdr_addr dyn_addr (suc n) i phdr =
      let bytes = getdata (add_addr phdr_addr (i * phdr_size)) phdr_size in
      elim (field_of bytes 0 4 == pt_dynamic) [
        | true ↦ (some bytes, field_of bytes 16 8)
        | false ↦ scan_phdrs phdr_addr dyn_addr n (suc i) (some bytes)
      ]

  -- The loop over the dynamic section from index `i` on, with `n` rounds left.
  unfoldable pub scan_got : (dyn_addr n i : ℕ) → Option ℕ
  unfolding read_dyn
  scan_got dyn_addr zero i = none
  scan_got dyn_addr (suc n) i =
      let d = read_dyn (add_addr dyn_addr (i * dyn_size)) in
      elim (d.d_tag == dt_pltgot) [ true ↦ some d.d_un | false ↦ scan_got dyn_addr n (suc i) ]

  -- `dyn_addr` is the global variable as it was, 0 at first. The second loop runs while
  -- `i * sizeof(Elf_Dyn) <= phdr->p_memsz`, that is, p_memsz / 16 + 1 times.
  unfoldable pub get_linkmap : (image_addr dyn_addr : ℕ) (error_ends : Bool) → Run ℕ
  unfolding scan_phdrs scan_got
  get_linkmap image_addr dyn_addr error_ends =
      let ehdr = getdata image_addr ehdr_size in
      let found =
        scan_phdrs (add_addr image_addr (field_of ehdr 32 8)) dyn_addr (field_of ehdr 56 2) 0
          none in
      if (if found.1 == 0 then error_ends else false) then exited else elim found.0 [
        | none ↦ undefined
        | some phdr ↦ elim (scan_got found.1 (field_of phdr 40 8 / dyn_size + 1) 0) [
          | none ↦ undefined
          | some gotplt ↦
              if (if gotplt == 0 then error_ends else false)
              then exited
              else ok (field_of (getdata (add_addr gotplt addr_size) addr_size) 0 8)
        ]
      ]
