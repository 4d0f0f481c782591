-- ===== src/Injector/Search/Laws.antt =====
-- The searches of src/trace.h through all libraries, and in the relocations.
use jvm.Common.{
  ℕ, zero, suc, ◌<◌, ◌≡◌, ◌≢◌, ◌⊎◌, inl, inr, refl, List, [], ◌∷◌, length, none, some, ◌==◌,
  if◌then◌else◌, arith,
}
use jvm.Tracer.Symbols.Laws.{first, Fails, IsFirst, first-cases}
use jvm.Injector.Run.{Run, ok, undefined, exited, running, ◌>>=◌}
use jvm.Injector.Search.{
  LinkMap, find_symbol_in_linkmap, read_link_map, find_symbol, rel_at, is_rel, find_sym_in_rel,
}

module _ (getdata : ℕ → ℕ → List ℕ) (getstr : ℕ → List ℕ) where
  -- The libraries from an address on, up to the null pointer.
  abbrev pub Chain : ℕ → List LinkMap → Type 0
  Chain addr [] = addr ≡ 0
  Chain addr (lm ∷ lms) =
      (addr ≢ 0) × (read_link_map getdata getstr addr ≡ lm) × Chain lm.l_next lms

  -- The libraries with a name that is not empty.
  abbrev pub valid : List LinkMap → List LinkMap
  valid [] = []
  valid (lm ∷ lms) =
      let rest = valid lms in
      if lm.l_name == 0 then rest else elim (getstr lm.l_name) [ [] ↦ rest | c ∷ cs ↦ lm ∷ rest ]

  -- One library after the other, up to the first that gives an address.
  abbrev pub search_all : List LinkMap → List ℕ → ℕ → Run ℕ
  search_all [] name fuel = ok 0
  search_all (lm ∷ lms) name fuel = find_symbol_in_linkmap getdata getstr lm name fuel >>= λ a.
      if a == 0 then search_all lms name fuel else ok a

  -- With more rounds than libraries, find_symbol searches the libraries that have a name, in their
  -- order, up to the first that gives an address.
  pub find_symbol-valid :
      (rounds addr : ℕ) (lms : List LinkMap) (name : List ℕ) (fuel : ℕ)
      → length lms < rounds
      → Chain addr lms
      → find_symbol getdata getstr rounds addr name fuel ≡ search_all (valid lms) name fuel
  unfolding find_symbol
  find_symbol-valid zero addr lms name fuel r c = absurd (omega (arith, r))
  find_symbol-valid (suc rounds) addr [] name fuel r c = ground (arith, c)
  find_symbol-valid (suc rounds) addr (lm ∷ lms) name fuel r c =
      after (getstr lm.l_name) refl (find_symbol_in_linkmap getdata getstr lm name fuel) refl
        (find_symbol-valid rounds lm.l_next lms name fuel (omega (arith, r)) c.2)
    where
      after :
          (bs : List ℕ)
          → getstr lm.l_name ≡ bs
          → (found' : Run ℕ) → find_symbol_in_linkmap getdata getstr lm name fuel ≡ found'
          → find_symbol getdata getstr rounds lm.l_next name fuel ≡ search_all (valid lms) name fuel
          → find_symbol getdata getstr (suc rounds) addr name fuel
            ≡ search_all (valid (lm ∷ lms)) name fuel
      after [] e f s ih = ground (arith, c.0, c.1)
      after (b ∷ bs) e (ok a) s ih = ground (arith, c.0, c.1)
      after (b ∷ bs) e undefined s ih = ground (arith, c.0, c.1)
      after (b ∷ bs) e exited s ih = ground (arith, c.0, c.1)
      after (b ∷ bs) e running s ih = ground (arith, c.0, c.1)

  find_sym_in_rel-first :
      (jmprel symtab strtab : ℕ) (name : List ℕ) (n i : ℕ)
      → find_sym_in_rel getdata getstr jmprel symtab strtab name n i
        ≡ elim (first (is_rel getdata getstr jmprel symtab strtab name) n i) [
          | none ↦ 0
          | some j ↦ (rel_at getdata getstr jmprel j).0
        ]
  unfolding find_sym_in_rel
  find_sym_in_rel-first jmprel symtab strtab name zero i = refl
  find_sym_in_rel-first jmprel symtab strtab name (suc n) i =
      ground (arith, find_sym_in_rel-first jmprel symtab strtab name n (suc i))

  -- The search in the relocations answers 0 if none of the `n` names the symbol, and else the offset
  -- of the first that does.
  find_sym_in_rel-IsFirst :
      (jmprel symtab strtab : ℕ) (name : List ℕ) (n i : ℕ)
      → ((find_sym_in_rel getdata getstr jmprel symtab strtab name n i ≡ 0)
          × Fails (is_rel getdata getstr jmprel symtab strtab name) n i)
        ⊎ ((j : ℕ) × (find_sym_in_rel getdata getstr jmprel symtab strtab name n i
              ≡ (rel_at getdata getstr jmprel j).0)
            × IsFirst (is_rel getdata getstr jmprel symtab strtab name) n i j)
  find_sym_in_rel-IsFirst jmprel symtab strtab name n i =
      let e = find_sym_in_rel-first jmprel symtab strtab name n i in
      elim (first-cases (is_rel getdata getstr jmprel symtab strtab name) n i) [
        | inl h ↦ inl (ground (arith, e, h.0), h.1)
        | inr (j, h, f) ↦ inr (j, ground (arith, e, h), f)
      ]
