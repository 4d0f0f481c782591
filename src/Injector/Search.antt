-- ===== src/Injector/Search.antt =====
-- src/trace.h, find_symbol_in_linkmap, find_symbol and find_sym_in_rel. ptrace_getdata and
-- ptrace_getstr are arguments: a string is the list of its bytes before the 0.
pub mod Ends
pub mod Laws
use jvm.Common.{
  ℕ, zero, suc, ◌+◌, ◌*◌, ◌/◌, ◌^◌, Bool, true, false, ◌&&◌, ◌||◌, List, [], ◌∷◌, Option, none,
  some, ◌==◌, leb, ltb, if◌then◌else◌,
}
use jvm.PerfData.{field_of}
use jvm.Tracer.Symbols.{same_text}
use jvm.Injector.Run.{Run, ok, undefined, running, ◌>>=◌}
use jvm.Injector.Inject.{add_addr}
use jvm.Injector.Elf.{LmapResult, handle_one_lmap}

-- sizeof(Elf_Sym), sizeof(Elf_Rel), sizeof(Elf_Rela) and sizeof(struct link_map)
abbrev pub sym_size : ℕ
sym_size = 24

abbrev pub rel_size : ℕ
rel_size = 16

abbrev pub rela_size : ℕ
rela_size = 24

abbrev pub link_map_size : ℕ
link_map_size = 40

-- One more than the largest int.
abbrev pub int_end : ℕ
int_end = 0x80000000

pub record Sym : Type 0 where
  pub st_name : ℕ
  pub st_value : ℕ
  pub st_size : ℕ

pub record LinkMap : Type 0 where
  pub l_addr : ℕ
  pub l_name : ℕ
  pub l_ld : ℕ
  pub l_next : ℕ

-- A first byte below 32, other than the 0, or of 127; a `char` has a sign.
abbrev pub is_control : List ℕ → Bool
is_control [] = false
is_control (b ∷ bs) = ltb b 32 || leb 127 b

-- One round of the search: it goes on, it gives up, or it has found the symbol.
pub data Verdict : Type 0 where
  next : Verdict
  stop : Verdict
  found : (st_value : ℕ) → Verdict

abbrev pub answer : ℕ → Verdict → Option ℕ
answer link_addr next = none
answer link_addr stop = some 0
answer link_addr (found v) = some (add_addr link_addr v)

module _ (getdata : ℕ → ℕ → List ℕ) (getstr : ℕ → List ℕ) where
  unfoldable pub sym_at : (symtab i : ℕ) → Sym
  unfolding field_of
  sym_at symtab i =
      let bytes = getdata (add_addr symtab (i * sym_size)) sym_size in
      record {
        st_name = field_of bytes 0 4;
        st_value = field_of bytes 8 8;
        st_size = field_of bytes 16 8;
      }

  unfoldable pub look : (symtab strtab : ℕ) → List ℕ → ℕ → Verdict
  unfolding sym_at same_text
  look symtab strtab sym_name i =
      let s = sym_at symtab i in
      let buf = getstr (add_addr strtab s.st_name) in
      if (s.st_name == 0) && (s.st_size == 0) && (s.st_value == 0)
      then next
      else if is_control buf
      then stop
      else if same_text buf sym_name
      then (if s.st_value == 0 then next else found s.st_value)
      else next

  -- `for(i = 0; i >= 0; i++)`, where the last `i++` goes beyond an int.
  unfoldable pub scan_syms : (link_addr symtab strtab : ℕ) → List ℕ → (fuel i : ℕ) → Run ℕ
  unfolding look
  scan_syms link_addr symtab strtab sym_name zero i = running
  scan_syms link_addr symtab strtab sym_name (suc fuel) i =
      elim (answer link_addr (look symtab strtab sym_name i)) [
        | none ↦ elim (suc i == int_end) [
          | true ↦ undefined
          | false ↦ scan_syms link_addr symtab strtab sym_name fuel (suc i)
        ]
        | some a ↦ ok a
      ]

  -- The tables of a library, where it says where they are.
  unfoldable pub with_tables : LmapResult → List ℕ → ℕ → Run ℕ
  unfolding scan_syms
  with_tables lmret sym_name fuel = elim lmret.symtab [
    | none ↦ undefined
    | some symtab ↦ elim lmret.strtab [
      | none ↦ undefined
      | some strtab ↦ scan_syms lmret.link_addr symtab strtab sym_name fuel 0
    ]
  ]

  -- The null pointer that handle_one_lmap may return is not looked at.
  unfoldable pub find_symbol_in_linkmap : LinkMap → List ℕ → ℕ → Run ℕ
  unfolding with_tables
  find_symbol_in_linkmap lm sym_name fuel = do
    r ← handle_one_lmap getdata fuel lm.l_addr lm.l_ld
    elim r [ none ↦ undefined | some lmret ↦ with_tables lmret sym_name fuel ]

  unfoldable pub read_link_map : ℕ → LinkMap
  unfolding field_of
  read_link_map addr =
      let bytes = getdata addr link_map_size in
      record {
        l_addr = field_of bytes 0 8;
        l_name = field_of bytes 8 8;
        l_ld = field_of bytes 16 8;
        l_next = field_of bytes 24 8;
      }

  -- `while (lm_addr)`, in `rounds` rounds.
  unfoldable pub find_symbol : (rounds lm_addr : ℕ) → List ℕ → ℕ → Run ℕ
  unfolding read_link_map
  find_symbol zero lm_addr sym_name fuel = running
  find_symbol (suc rounds) lm_addr sym_name fuel =
      let rest = find_symbol rounds (read_link_map lm_addr).l_next sym_name fuel in
      let lm = read_link_map lm_addr in
      if lm_addr == 0 then ok 0 else if lm.l_name == 0 then rest else elim (getstr lm.l_name) [
        | [] ↦ rest
        | c ∷ cs ↦ find_symbol_in_linkmap lm sym_name fuel >>= λ sym_addr.
            if sym_addr == 0 then rest else ok sym_addr
      ]

  -- A relocation of index `i`: r_offset and r_info. The step is that of an Elf_Rela.
  unfoldable pub rel_at : (jmprel i : ℕ) → ℕ × ℕ
  unfolding field_of
  rel_at jmprel i =
      let bytes = getdata (add_addr jmprel (i * rela_size)) rel_size in
      (field_of bytes 0 8, field_of bytes 8 8)

  unfoldable pub is_rel : (jmprel symtab strtab : ℕ) → List ℕ → ℕ → Bool
  unfolding rel_at sym_at same_text
  is_rel jmprel symtab strtab sym_name i =
      same_text (getstr (add_addr strtab (sym_at symtab ((rel_at jmprel i).1 / 2 ^ 32)).st_name))
        sym_name

  unfoldable pub find_sym_in_rel : (jmprel symtab strtab : ℕ) → List ℕ → (nrelplts i : ℕ) → ℕ
  unfolding is_rel
  find_sym_in_rel jmprel symtab strtab sym_name zero i = 0
  find_sym_in_rel jmprel symtab strtab sym_name (suc n) i =
      elim (is_rel jmprel symtab strtab sym_name i) [
        | true ↦ (rel_at jmprel i).0
        | false ↦ find_sym_in_rel jmprel symtab strtab sym_name n (suc i)
      ]
