-- ===== src/Tracer/Symbols.antt =====
-- src/tt.cpp, find_symbol_in_linkmap and find_sym_in_rel: a symbol by its name.
pub mod Laws
use jvm.Common.{
  ℕ, zero, suc, ◌+◌, ◌-◌, ◌*◌, ◌/◌, ◌%◌, List, [], ◌∷◌, Bool, true, false, not, ◌&&◌, ◌||◌, ◌==◌,
  Option, none, some, if◌then◌else◌, ℤ, pos, negsuc,
}
use jvm.Tracer.Memory.{two32, add_addr, ptrace_read, word, Str, ptrace_readstr}
use jvm.Tracer.Dynamic.{Globals, Run, ok, crashed, running, ◌>>=◌, get_sym_info, get_dyn_info}

-- The fields of a `link_map` that are read.
pub record LinkMap : Type 0 where
  pub l_addr : ℕ
  pub l_name : ℕ
  pub l_ld : ℕ
  pub l_next : ℕ

pub record Sym : Type 0 where
  pub st_name : ℕ
  pub st_value : ℕ
  pub st_size : ℕ

-- sizeof(Elf32_Sym)
abbrev pub sym_size : ℕ
sym_size = 16

unfoldable pub read_sym : (ℕ → ℕ) → ℕ → Sym
unfolding ptrace_read
read_sym peek addr =
    let ws = ptrace_read peek addr sym_size in
    record { st_name = word ws 0; st_value = word ws 1; st_size = word ws 2 }

-- `strcmp(str, sym_name) == 0` for a name of fewer than 64 bytes: a string without its 0 differs
-- from it in the first 64.
unfoldable pub same_text : List ℕ → List ℕ → Bool
same_text [] [] = true
same_text [] (y ∷ ys) = false
same_text (x ∷ xs) [] = false
same_text (x ∷ xs) (y ∷ ys) = let rest = same_text xs ys in if x == y then rest else false

unfoldable pub strcmp_eq : Str → List ℕ → Bool
unfolding same_text
strcmp_eq s name = s.terminated && same_text s.bytes name

-- The symbol at index `i`, and whether it is the one that is looked for.
unfoldable pub sym_at : (ℕ → ℕ) → Globals → ℕ → Sym
unfolding read_sym
sym_at peek g i = read_sym peek (add_addr g.symtab (i * sym_size))

unfoldable pub is_sym : (ℕ → ℕ) → Globals → List ℕ → ℕ → Bool
unfolding sym_at strcmp_eq
is_sym peek g name i =
    let s = sym_at peek g i in
    if s.st_name == 0 || s.st_size == 0 || s.st_value == 0
    then false
    else strcmp_eq (ptrace_readstr peek (add_addr g.strtab s.st_name)) name

-- The `for` loop from index `i` with `n` rounds left: the index at which it breaks.
unfoldable pub scan_syms : (ℕ → ℕ) → Globals → List ℕ → ℕ → ℕ → Option ℕ
unfolding is_sym
scan_syms peek g name zero i = none
scan_syms peek g name (suc n) i = elim (is_sym peek g name i) [
  | true ↦ some i
  | false ↦ scan_syms peek g name n (suc i)
]

-- With a negative number of symbols the loop is not run, and a symbol that was never read is used.
unfoldable pub lookup_sym : (ℕ → ℕ) → Globals → LinkMap → List ℕ → ℤ → Run ℕ
unfolding scan_syms
lookup_sym peek g lm name (negsuc n) = crashed
lookup_sym peek g lm name (pos n) = elim (scan_syms peek g name n 0) [
  | none ↦ ok 0
  | some i ↦ ok (add_addr lm.l_addr (sym_at peek g i).st_value)
]

unfoldable pub find_symbol_in_linkmap : (ℕ → ℕ) → ℕ → Globals → LinkMap → List ℕ → Run (ℕ × Globals)
unfolding lookup_sym
find_symbol_in_linkmap peek fuel g lm name = do
  g' ← get_sym_info peek fuel g lm.l_ld
  a ← lookup_sym peek g' lm name g'.nchains
  ok (a, g')

-- An `Elf32_Rel`: `r_offset` and `r_info`.
pub record Rel : Type 0 where
  pub r_offset : ℕ
  pub r_info : ℕ

-- sizeof(Elf32_Rel)
abbrev pub rel_size : ℕ
rel_size = 8

unfoldable pub rel_at : (ℕ → ℕ) → Globals → ℕ → Rel
unfolding ptrace_read
rel_at peek g i =
    let ws = ptrace_read peek (add_addr g.jmprel (i * rel_size)) rel_size in
    record { r_offset = word ws 0; r_info = word ws 1 }

-- `ELF32_R_SYM(rel->r_info)` is `r_info >> 8`.
unfoldable pub is_rel : (ℕ → ℕ) → Globals → List ℕ → ℕ → Bool
unfolding rel_at sym_at strcmp_eq
is_rel peek g name i =
    let n = (rel_at peek g i).r_info / 256 in
    if n == 0
    then false
    else strcmp_eq (ptrace_readstr peek (add_addr g.strtab (sym_at peek g n).st_name)) name

unfoldable pub scan_rels : (ℕ → ℕ) → Globals → List ℕ → ℕ → ℕ → Option ℕ
unfolding is_rel
scan_rels peek g name zero i = none
scan_rels peek g name (suc n) i = elim (is_rel peek g name i) [
  | true ↦ some i
  | false ↦ scan_rels peek g name n (suc i)
]

unfoldable pub find_sym_in_rel : (ℕ → ℕ) → ℕ → Globals → List ℕ → Run (ℕ × Globals)
unfolding scan_rels
find_sym_in_rel peek fuel g name = do
  g' ← get_dyn_info peek fuel g
  elim (scan_rels peek g' name g'.nrels 0) [
    | none ↦ ok (0, g')
    | some i ↦ ok ((rel_at peek g' i).r_offset, g')
  ]
