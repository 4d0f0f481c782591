-- ===== src/Tracer/LinkMaps.antt =====
-- src/tt.cpp, get_linkmap and find_symbol: the list of the libraries of a process, and a search
-- through them. The pointers of the list lie in the process.
pub mod Laws
use jvm.Common.{
  ℕ, zero, suc, ◌+◌, ◌*◌, ◌%◌, List, [], ◌∷◌, Bool, true, false, not, ◌==◌, if◌then◌else◌,
}
use jvm.Tracer.Memory.{two32, add_addr, ptrace_read, word, Str, ptrace_readstr}
use jvm.Tracer.Dynamic.{Globals, Run, ok, crashed, running, ◌>>=◌, Dyn, dyn_size, read_dyn}
use jvm.Tracer.Symbols.{LinkMap, find_symbol_in_linkmap}

abbrev pub image_addr : ℕ
image_addr = 0x08048000

-- sizeof(Elf32_Ehdr), sizeof(Elf32_Phdr) and sizeof(struct link_map)
abbrev pub ehdr_size : ℕ
ehdr_size = 52

abbrev pub phdr_size : ℕ
phdr_size = 32

abbrev pub link_map_size : ℕ
link_map_size = 20

-- PT_DYNAMIC and DT_PLTGOT
abbrev pub pt_dynamic : ℕ
pt_dynamic = 2

abbrev pub dt_pltgot : ℕ
dt_pltgot = 3

unfoldable pub read_link_map : (ℕ → ℕ) → ℕ → LinkMap
unfolding ptrace_read
read_link_map peek addr =
    let ws = ptrace_read peek addr link_map_size in
    record { l_addr = word ws 0; l_name = word ws 1; l_ld = word ws 2; l_next = word ws 3 }

-- `while(phdr->p_type != PT_DYNAMIC)`: the `p_vaddr` of the first dynamic header.
unfoldable pub find_dynamic : (ℕ → ℕ) → ℕ → ℕ → Run ℕ
unfolding ptrace_read
find_dynamic peek zero phdr_addr = running
find_dynamic peek (suc fuel) phdr_addr =
    let ws = ptrace_read peek phdr_addr phdr_size in
    elim (word ws 0 == pt_dynamic) [
      | true ↦ ok (word ws 2)
      | false ↦ find_dynamic peek fuel (add_addr phdr_addr phdr_size)
    ]

-- `while(dyn->d_tag != DT_PLTGOT)`: `d` is the entry that was read last, `i` the next index.
unfoldable pub find_got : (ℕ → ℕ) → ℕ → ℕ → ℕ → Dyn → Run ℕ
unfolding read_dyn
find_got peek zero dyn_addr i d = running
find_got peek (suc fuel) dyn_addr i d = elim (d.d_tag == dt_pltgot) [
  | true ↦ ok d.d_un
  | false ↦ find_got peek fuel dyn_addr (suc i) (read_dyn peek (add_addr dyn_addr (i * dyn_size)))
]

unfoldable pub get_linkmap : (ℕ → ℕ) → ℕ → Run LinkMap
unfolding find_dynamic find_got read_link_map
get_linkmap peek fuel = do
  let e_phoff = word (ptrace_read peek image_addr ehdr_size) 7
  dyn_addr ← find_dynamic peek fuel (add_addr image_addr e_phoff)
  got ← find_got peek fuel dyn_addr 0 (read_dyn peek dyn_addr)
  ok (read_link_map peek (peek (add_addr got 4)))

-- The `while(!sym_addr && lm->l_next)` loop.
unfoldable pub search_rest : (ℕ → ℕ) → ℕ → ℕ → ℕ → Globals → LinkMap → List ℕ → Run (ℕ × Globals)
unfolding read_link_map
search_rest peek fuel zero sym_addr g lm name = running
search_rest peek fuel (suc rounds) sym_addr g lm name = elim (not (sym_addr == 0)) [
  | true ↦ ok (sym_addr, g)
  | false ↦ elim (lm.l_next == 0) [
    | true ↦ ok (sym_addr, g)
    | false ↦
        let lm' = read_link_map peek lm.l_next in
        elim (ptrace_readstr peek lm'.l_name).bytes [
          | [] ↦ search_rest peek fuel rounds sym_addr g lm' name
          | c ∷ cs ↦ find_symbol_in_linkmap peek fuel g lm' name >>= λ found.
              search_rest peek fuel rounds found.0 found.1 lm' name
        ]
  ]
]

unfoldable pub find_symbol : (ℕ → ℕ) → ℕ → ℕ → Globals → LinkMap → List ℕ → Run (ℕ × Globals)
unfolding search_rest read_link_map
find_symbol peek fuel rounds g map name = find_symbol_in_linkmap peek fuel g map name >>= λ found.
    if not (found.0 == 0)
    then ok found
    else if map.l_next == 0
    then ok (0, found.1)
    else (let lm = read_link_map peek map.l_next in
        find_symbol_in_linkmap peek fuel found.1 lm name >>= λ found'.
        search_rest peek fuel rounds found'.0 found'.1 lm name)
