-- ===== src/Tracer/LinkMaps/Laws.antt =====
-- In which library find_symbol of src/tt.cpp finds a symbol, and that it ends.
use jvm.Common.{
  ℕ, zero, suc, ◌≤◌, ◌<◌, ◌≡◌, ◌≢◌, refl, sym, List, [], ◌∷◌, true, false, ◌==◌, length, arith,
  Bool-cases, inl, inr,
}
use jvm.Tracer.Memory.{ptrace_readstr}
use jvm.Tracer.Dynamic.{Globals, Run, ok, crashed, exited, running, ◌>>=◌}
use jvm.Tracer.Symbols.{LinkMap, find_symbol_in_linkmap}
use jvm.Tracer.LinkMaps.{read_link_map, search_rest, find_symbol}

-- The list of the libraries in the process: each points to the next, the last to nothing.
abbrev pub Chain : (ℕ → ℕ) → LinkMap → List LinkMap → Type 0
Chain peek lm [] = lm.l_next ≡ 0
Chain peek lm (next ∷ lms) =
    (lm.l_next ≢ 0) × (read_link_map peek lm.l_next ≡ next) × Chain peek next lms

-- The libraries whose name is not empty.
abbrev pub named : (ℕ → ℕ) → List LinkMap → List LinkMap
named peek [] = []
named peek (lm ∷ lms) = elim (ptrace_readstr peek lm.l_name).bytes [
  | [] ↦ named peek lms
  | c ∷ cs ↦ lm ∷ named peek lms
]

-- The libraries that are searched: the first two, whatever their names, and the named ones.
abbrev pub searched : (ℕ → ℕ) → LinkMap → List LinkMap → List LinkMap
searched peek map [] = map ∷ []
searched peek map (lm ∷ lms) = map ∷ lm ∷ named peek lms

-- One library after the other, up to the first that has the symbol.
abbrev pub search_all : (ℕ → ℕ) → ℕ → ℕ → Globals → List LinkMap → List ℕ → Run (ℕ × Globals)
search_all peek fuel sym_addr g [] name = ok (sym_addr, g)
search_all peek fuel sym_addr g (lm ∷ lms) name = elim (sym_addr == 0) [
  | false ↦ ok (sym_addr, g)
  | true ↦ find_symbol_in_linkmap peek fuel g lm name >>= λ found.
      search_all peek fuel found.0 found.1 lms name
]

search_all-found :
    (peek : ℕ → ℕ) (fuel a : ℕ) (g : Globals) (lms : List LinkMap) (name : List ℕ)
    → (a == 0) ≡ false
    → search_all peek fuel a g lms name ≡ ok (a, g)
search_all-found peek fuel a g [] name h = refl
search_all-found peek fuel a g (lm ∷ lms) name h = rw (h, search_all)

module _ (peek : ℕ → ℕ) (fuel : ℕ) (name : List ℕ) where
  search_rest-all :
      (rounds a : ℕ) (g : Globals) (lm : LinkMap) (lms : List LinkMap)
      → length lms < rounds
      → Chain peek lm lms
      → search_rest peek fuel rounds a g lm name ≡ search_all peek fuel a g (named peek lms) name
  unfolding search_rest
  search_rest-all zero a g lm lms r c = absurd (omega arith)
  search_rest-all (suc rounds) a g lm [] r c = ground arith
  search_rest-all (suc rounds) a g lm (next ∷ lms) r c = elim (Bool-cases (a == 0)) [
    | inr e ↦ rw (e, search_rest) (sym (search_all-found peek fuel a g _ name e))
    | inl e ↦
        after e (ptrace_readstr peek next.l_name).bytes refl
          (find_symbol_in_linkmap peek fuel g next name) refl
          (λ b h. search_rest-all rounds b h next lms (omega (arith, r)) c.2)
  ]
    where
      after :
          (a == 0) ≡ true
          → (bs : List ℕ) → (ptrace_readstr peek next.l_name).bytes ≡ bs
          → (found : Run (ℕ × Globals)) → find_symbol_in_linkmap peek fuel g next name ≡ found
          → ((b : ℕ) (h : Globals)
              → search_rest peek fuel rounds b h next name
                ≡ search_all peek fuel b h (named peek lms) name)
          → search_rest peek fuel (suc rounds) a g lm name
            ≡ search_all peek fuel a g (named peek (next ∷ lms)) name
      after z [] e found s ih = ground (arith, c.0, c.1, ih a g)
      after z (b ∷ bs) e (ok x) s ih = ground (arith, c.0, c.1, ih x.0 x.1)
      after z (b ∷ bs) e crashed s ih = ground (arith, c.0, c.1)
      after z (b ∷ bs) e exited s ih = ground (arith, c.0, c.1)
      after z (b ∷ bs) e running s ih = ground (arith, c.0, c.1)

  -- With at least as many rounds as libraries the search ends. It looks at the libraries in their
  -- order, up to the first that has the symbol: the first two in any case, and the others if their
  -- name is not empty.
  pub find_symbol-search_all :
      (rounds : ℕ) (g : Globals) (map : LinkMap) (lms : List LinkMap)
      → length lms ≤ rounds
      → Chain peek map lms
      → find_symbol peek fuel rounds g map name
        ≡ search_all peek fuel 0 g (searched peek map lms) name
  unfolding find_symbol
  find_symbol-search_all rounds g map [] r c =
      alone (find_symbol_in_linkmap peek fuel g map name) refl
    where
      alone :
          (found : Run (ℕ × Globals))
          → find_symbol_in_linkmap peek fuel g map name ≡ found
          → find_symbol peek fuel rounds g map name ≡ search_all peek fuel 0 g (map ∷ []) name
      alone (ok x) s = ground (arith, c)
      alone crashed s = ground arith
      alone exited s = ground arith
      alone running s = ground arith
  find_symbol-search_all rounds g map (lm ∷ lms) r c =
      after (find_symbol_in_linkmap peek fuel g map name) refl
    where
      second :
          (x : ℕ × Globals)
          → (found : Run (ℕ × Globals)) → find_symbol_in_linkmap peek fuel x.1 lm name ≡ found
          → find_symbol_in_linkmap peek fuel g map name ≡ ok x
          → (x.0 == 0) ≡ true
          → find_symbol peek fuel rounds g map name
            ≡ search_all peek fuel 0 g (map ∷ lm ∷ named peek lms) name
      second x (ok y) t s z =
          ground (arith, c.0, c.1, search_rest-all rounds y.0 y.1 lm lms (omega (arith, r)) c.2)
      second x crashed t s z = ground (arith, c.0, c.1)
      second x exited t s z = ground (arith, c.0, c.1)
      second x running t s z = ground (arith, c.0, c.1)

      after :
          (found : Run (ℕ × Globals))
          → find_symbol_in_linkmap peek fuel g map name ≡ found
          → find_symbol peek fuel rounds g map name
            ≡ search_all peek fuel 0 g (map ∷ lm ∷ named peek lms) name
      after (ok x) s = elim (Bool-cases (x.0 == 0)) [
        | inr z ↦ ground (arith, search_all-found peek fuel x.0 x.1 (lm ∷ named peek lms) name z)
        | inl z ↦ second x (find_symbol_in_linkmap peek fuel x.1 lm name) refl s z
      ]
      after crashed s = ground arith
      after exited s = ground arith
      after running s = ground arith
