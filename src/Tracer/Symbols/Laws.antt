-- ===== src/Tracer/Symbols/Laws.antt =====
-- Which symbol find_symbol_in_linkmap of src/tt.cpp finds.
use jvm.Common.{
  ℕ, zero, suc, ◌+◌, ◌-◌, ◌≤◌, ◌<◌, ◌≡◌, ◌≢◌, ◌∙◌, sym, ap, ◌⊎◌, inl, inr, refl, List, [], ◌∷◌,
  Bool, true, false, Option, none, some, pos, arith, Bool-cases, ℕ_discrete,
}
use jvm.Tracer.Memory.{add_addr, Str, ptrace_readstr}
use jvm.Tracer.Dynamic.{Globals, ok, get_sym_info}
use jvm.Tracer.Symbols.{
  LinkMap, same_text, strcmp_eq, sym_at, is_sym, scan_syms, find_symbol_in_linkmap,
}

-- The first index from `i` to below `i + n` at which a test holds.
abbrev pub first : (ℕ → Bool) → ℕ → ℕ → Option ℕ
first p zero i = none
first p (suc n) i = elim (p i) [ true ↦ some i | false ↦ first p n (suc i) ]

-- The test fails from `i` to below `i + n`.
abbrev pub Fails : (ℕ → Bool) → ℕ → ℕ → Type 0
Fails p zero i = Unit {0}
Fails p (suc n) i = (p i ≡ false) × Fails p n (suc i)

-- `j` is the first index from `i` to below `i + n` at which the test holds.
pub record IsFirst (p : ℕ → Bool) (n i j : ℕ) : Type 0 where
  pub from : i ≤ j
  pub below : j < i + n
  pub holds : p j ≡ true
  pub before : Fails p (j - i) i

Fails-suc :
    (p : ℕ → Bool) (i j : ℕ)
    → suc i ≤ j
    → p i ≡ false
    → Fails p (j - suc i) (suc i)
    → Fails p (j - i) i
Fails-suc p i j le e f = let d : j - i ≡ suc (j - suc i) = omega arith in rw d (e, f)

pub first-cases :
    (p : ℕ → Bool) (n i : ℕ)
    → ((first p n i ≡ none) × Fails p n i) ⊎ ((j : ℕ) × (first p n i ≡ some j) × IsFirst p n i j)
first-cases p zero i = inl (refl, tt)
first-cases p (suc n) i = elim (Bool-cases (p i)) [
  | inl e ↦
      let d : i - i ≡ 0 = omega arith in
      inr (
        i,
        rw (e, first),
        record { from = omega arith; below = omega arith; holds = e; before = rw d tt },
      )
  | inr e ↦ elim (first-cases p n (suc i)) [
    | inl h ↦ inl (rw (e, first) h.0, (e, h.1))
    | inr (j, h, f) ↦ inr (
      j,
      rw (e, first) h,
      record {
        from = omega (arith, f.from);
        below = omega (arith, f.below);
        holds = f.holds;
        before = Fails-suc p i j f.from e f.before;
      },
    )
  ]
]

scan_syms-first :
    (peek : ℕ → ℕ) (g : Globals) (name : List ℕ) (n i : ℕ)
    → scan_syms peek g name n i ≡ first (is_sym peek g name) n i
unfolding scan_syms
scan_syms-first peek g name zero i = refl
scan_syms-first peek g name (suc n) i = ground (arith, scan_syms-first peek g name n (suc i))

pub Fails-below : (p : ℕ → Bool) (n i k : ℕ) → Fails p n i → i ≤ k → k < i + n → p k ≡ false
Fails-below p zero i k f a b = absurd (omega arith)
Fails-below p (suc n) i k (e, f) a b = elim (ℕ_discrete i k) [
  | yes h ↦ ap p (sym h) ∙ e
  | no h ↦ Fails-below p n (suc i) k f (omega (arith, h)) (omega arith)
]

-- The comparison of two texts.
pub same_text-≡ : (xs ys : List ℕ) → same_text xs ys ≡ true → xs ≡ ys
unfolding same_text
same_text-≡ [] [] h = refl
same_text-≡ [] (y ∷ ys) h = absurd (ground arith)
same_text-≡ (x ∷ xs) [] h = absurd (ground arith)
same_text-≡ (x ∷ xs) (y ∷ ys) h = ground (arith, same_text-≡ xs ys)

same_text_refl : (xs : List ℕ) → same_text xs xs ≡ true
unfolding same_text
same_text_refl [] = refl
same_text_refl (x ∷ xs) = ground (arith, same_text_refl xs)

pub same_text-≢ : (xs ys : List ℕ) → same_text xs ys ≡ false → xs ≢ ys
same_text-≢ xs ys h e =
    absurd (ground (arith, sym h ∙ (ap (same_text xs) (sym e) ∙ same_text_refl xs)))

-- The symbol of index `i` is in use, with a size and a value, and its name is read as `name`, with
-- its 0.
pub record IsNamed (peek : ℕ → ℕ) (g : Globals) (name : List ℕ) (i : ℕ) : Type 0 where
  pub with_name : (sym_at peek g i).st_name ≢ 0
  pub with_size : (sym_at peek g i).st_size ≢ 0
  pub with_value : (sym_at peek g i).st_value ≢ 0
  pub text :
      ptrace_readstr peek (add_addr g.strtab (sym_at peek g i).st_name)
      ≡ record { bytes = name; terminated = true }

module _ (peek : ℕ → ℕ) (g : Globals) (name : List ℕ) (i : ℕ) where
  strcmp_eq-true :
      (s : Str) → strcmp_eq s name ≡ true → s ≡ record { bytes = name; terminated = true }
  unfolding strcmp_eq
  strcmp_eq-true s h = ground (arith, same_text-≡ s.bytes name)

  is_sym-IsNamed : is_sym peek g name i ≡ true → IsNamed peek g name i
  unfolding is_sym
  is_sym-IsNamed h = record {
    with_name = ground arith;
    with_size = ground arith;
    with_value = ground arith;
    text =
        ground (
          arith,
          strcmp_eq-true (ptrace_readstr peek (add_addr g.strtab (sym_at peek g i).st_name)),
        );
  }

  is_sym-unnamed : is_sym peek g name i ≡ false → ¬ IsNamed peek g name i
  unfolding is_sym strcmp_eq
  is_sym-unnamed h n =
      absurd (ground (arith, n.with_name, n.with_size, n.with_value, n.text, same_text_refl name))

-- When the dynamic section of a library can be read and its number of symbols is `n`, the search
-- answers with the address of the first symbol of the table that has a name, a size and a value,
-- none of them 0, and whose name is read as the one that is looked for, with its 0, in the 64 bytes
-- that ptrace_readstr reads; and it answers 0 if there is no such symbol.
pub find_symbol_in_linkmap-IsNamed :
    (peek : ℕ → ℕ) (fuel n : ℕ) (g g' : Globals) (lm : LinkMap) (name : List ℕ)
    → get_sym_info peek fuel g lm.l_ld ≡ ok g'
    → g'.nchains ≡ pos n
    → ((find_symbol_in_linkmap peek fuel g lm name ≡ ok (0, g'))
        × ((i : ℕ) → i < n → ¬ IsNamed peek g' name i))
      ⊎ ((j : ℕ) × (find_symbol_in_linkmap peek fuel g lm name
            ≡ ok (add_addr lm.l_addr (sym_at peek g' j).st_value, g'))
          × (j < n)
          × IsNamed peek g' name j
          × ((i : ℕ) → i < j → ¬ IsNamed peek g' name i))
unfolding find_symbol_in_linkmap
find_symbol_in_linkmap-IsNamed peek fuel n g g' lm name e m =
    let p = is_sym peek g' name in
    elim (first-cases p n 0) [
      | inl h ↦ inl (
        ground (arith, scan_syms-first peek g' name n 0),
        λ i b.
            is_sym-unnamed peek g' name i
              (Fails-below p n 0 i h.1 (omega arith) (omega (arith, b))),
      )
      | inr (j, h, f) ↦ inr (
        j,
        ground (arith, scan_syms-first peek g' name n 0),
        omega (arith, f.below),
        is_sym-IsNamed peek g' name j f.holds,
        λ i b.
            is_sym-unnamed peek g' name i
              (Fails-below p (j - 0) 0 i f.before (omega arith) (omega (arith, b))),
      )
    ]
