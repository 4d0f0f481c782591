-- ===== src/Injector/Search/Ends.antt =====
-- How the search for a symbol in one library ends (src/trace.h, find_symbol_in_linkmap).
use jvm.Common.{
  ◌≤◌, ap, ◌∙◌, ◌&&◌, ◌+◌, sym, subst, dec_lt, ℕ_discrete, ℕ, zero, suc, ◌<◌, ◌≡◌, ◌≢◌, ◌⊎◌, inl,
  inr, refl, Bool, true, false, List, [], ◌∷◌, Option, none, some, ◌==◌, if◌then◌else◌, arith,
}
use jvm.Tracer.Symbols.Laws.{same_text-≡, same_text-≢}
use jvm.Injector.Run.{Run, ok, undefined, running}
use jvm.Injector.Elf.{LmapResult, handle_one_lmap}
use jvm.Injector.Inject.{add_addr}
use jvm.Tracer.Symbols.{same_text}
use jvm.Injector.Search.{
  is_control, Sym, sym_at, int_end, LinkMap, next, stop, found, answer, look, scan_syms,
  with_tables, find_symbol_in_linkmap,
}

-- A string that begins with a byte that a `char` takes as negative, below 32 or 127.
pub data Control : List ℕ → Type 0 where
  low : (b : ℕ) (bs : List ℕ) → b < 32 → Control (b ∷ bs)
  high : (b : ℕ) (bs : List ℕ) → 127 ≤ b → Control (b ∷ bs)

is_control-true : (xs : List ℕ) → is_control xs ≡ true → Control xs
is_control-true [] h = absurd (ground arith)
is_control-true (b ∷ bs) h = elim (dec_lt b 32) [
  | yes l ↦ low b bs l
  | no n ↦ high b bs (ground arith)
]

is_control-false : (xs : List ℕ) → is_control xs ≡ false → ¬ Control xs
is_control-false xs h (low b bs l) = absurd (ground arith)
is_control-false xs h (high b bs l) = absurd (ground arith)

module _ (getdata : ℕ → ℕ → List ℕ) (getstr : ℕ → List ℕ) where
  -- The entry of a symbol table is not all 0.
  abbrev pub Used : Sym → Type 0
  Used s = ¬ ((s.st_name ≡ 0) × (s.st_size ≡ 0) × (s.st_value ≡ 0))

  -- The symbol of index `i` ends the search with an answer: it is in use, and its name begins with a
  -- control character, or it is the name that is looked for, with a value that is not 0.
  pub data Ends (link_addr symtab strtab : ℕ) (name : List ℕ) (i : ℕ) : ℕ → Type 0 where
    control :
        Used (sym_at getdata getstr symtab i)
        → Control (getstr (add_addr strtab (sym_at getdata getstr symtab i).st_name))
        → Ends link_addr symtab strtab name i 0
    named :
        Used (sym_at getdata getstr symtab i)
        → ¬ Control name
        → getstr (add_addr strtab (sym_at getdata getstr symtab i).st_name) ≡ name
        → (sym_at getdata getstr symtab i).st_value ≢ 0
        → Ends link_addr symtab strtab name i
            (add_addr link_addr (sym_at getdata getstr symtab i).st_value)

  module _ (link_addr symtab strtab : ℕ) (name : List ℕ) where
    -- What one round shows: that the symbol does not end the search, or the answer with which it does.
    abbrev Decided : ℕ → Option ℕ → Type 0
    Decided i none = (a : ℕ) → ¬ Ends link_addr symtab strtab name i a
    Decided i (some a) = Ends link_addr symtab strtab name i a

    Ends-cases :
        {i a : ℕ}
        → Ends link_addr symtab strtab name i a
        → let s = sym_at getdata getstr symtab i in
          let buf = getstr (add_addr strtab s.st_name) in
          Used s × (Control buf ⊎ ((buf ≡ name) × (s.st_value ≢ 0)))
    Ends-cases (control u c) = (u, inl c)
    Ends-cases (named u n e v) = (u, inr (e, v))

    look-Decided : (i : ℕ) → Decided i (answer link_addr (look getdata getstr symtab strtab name i))
    unfolding look
    look-Decided i =
        let s = sym_at getdata getstr symtab i in
        let buf = getstr (add_addr strtab s.st_name) in
        after ((s.st_name == 0) && (s.st_size == 0) && (s.st_value == 0)) refl (is_control buf) refl
          (same_text buf name) refl (s.st_value == 0) refl
      where
        after :
            let s = sym_at getdata getstr symtab i in
            let buf = getstr (add_addr strtab s.st_name) in
            (b : Bool)
            → ((s.st_name == 0) && (s.st_size == 0) && (s.st_value == 0)) ≡ b
            → (c : Bool) → is_control buf ≡ c
            → (d : Bool) → same_text buf name ≡ d
            → (e : Bool) → (s.st_value == 0) ≡ e
            → Decided i (
                answer link_addr (
                  if b
                  then next
                  else if c
                  then stop
                  else if d
                  then (if e then next else found s.st_value)
                  else next))
        after true u c v d w e x = λ a h. absurd ((Ends-cases h).0 (ground (arith, u)))
        after false u true v d w e x =
            control (λ h. absurd (ground (arith, u, h)))
              (is_control-true (getstr (add_addr strtab (sym_at getdata getstr symtab i).st_name))
                v)
        after false u false v true w true x = λ a h. elim (Ends-cases h).1 [
          | inl k ↦
              is_control-false (getstr (add_addr strtab (sym_at getdata getstr symtab i).st_name)) v
                k
          | inr (t, z) ↦ z (ground (arith, x))
        ]
        after false u false v true w false x =
            let t =
              same_text-≡ (getstr (add_addr strtab (sym_at getdata getstr symtab i).st_name)) name
                w in
            named (λ h. absurd (ground (arith, u, h)))
              (is_control-false name (ap is_control (sym t) ∙ v)) t
              (λ z. absurd (ground (arith, x, z)))
        after false u false v false w e x = λ a h. elim (Ends-cases h).1 [
          | inl k ↦
              is_control-false (getstr (add_addr strtab (sym_at getdata getstr symtab i).st_name)) v
                k
          | inr (t, z) ↦
              same_text-≢ (getstr (add_addr strtab (sym_at getdata getstr symtab i).st_name)) name w
                t
        ]

    -- The search from index `i` on, in `fuel` rounds.
    abbrev pub Outcome : (fuel i : ℕ) → Run ℕ → Type 0
    Outcome fuel i r =
        ((j : ℕ) × (a : ℕ) × (r ≡ ok a)
          × (j < i + fuel)
          × (j < int_end)
          × Ends link_addr symtab strtab name j a
          × ((k b : ℕ) → i ≤ k → k < j → ¬ Ends link_addr symtab strtab name k b))
        ⊎ ((r ≡ running)
            × (i + fuel < int_end)
            × ((k b : ℕ) → i ≤ k → k < i + fuel → ¬ Ends link_addr symtab strtab name k b))
        ⊎ ((r ≡ undefined)
            × (int_end ≤ i + fuel)
            × ((k b : ℕ) → i ≤ k → k < int_end → ¬ Ends link_addr symtab strtab name k b))

    from_next :
        (i n k b : ℕ)
        → ((b : ℕ) → ¬ Ends link_addr symtab strtab name i b)
        → (suc i ≤ k → k < n → ¬ Ends link_addr symtab strtab name k b)
        → i ≤ k
        → k < n
        → ¬ Ends link_addr symtab strtab name k b
    from_next i n k b here' on l u e = elim (ℕ_discrete i k) [
      | yes h ↦ here' b (subst (λ m. Ends link_addr symtab strtab name m b) (sym h) e)
      | no h ↦ on (omega (arith, h, l)) u e
    ]

    scan_syms-Outcome :
        (fuel i : ℕ)
        → i < int_end
        → Outcome fuel i (scan_syms getdata getstr link_addr symtab strtab name fuel i)
    unfolding scan_syms
    scan_syms-Outcome zero i h =
        inr (inl (refl, omega (arith, h), λ k b l u. absurd (omega (arith, l, u))))
    scan_syms-Outcome (suc fuel) i h =
        after (answer link_addr (look getdata getstr symtab strtab name i)) (look-Decided i)
          (suc i == int_end) refl (scan_syms-Outcome fuel (suc i))
      where
        after :
            (o : Option ℕ)
            → Decided i o
            → (last : Bool) → (suc i == int_end) ≡ last
            → (suc i < int_end
                → Outcome fuel
                    (suc i)
                    (scan_syms getdata getstr link_addr symtab strtab name fuel (suc i)))
            → Outcome (suc fuel) i (elim o [
              | none ↦ elim last [
                | true ↦ undefined
                | false ↦ scan_syms getdata getstr link_addr symtab strtab name fuel (suc i)
              ]
              | some a ↦ ok a
            ])
        after (some a) d last e ih =
            inl (i, a, refl, omega arith, h, d, λ k b l u. absurd (omega (arith, l, u)))
        after none d true e ih = inr (
            inr (
              refl,
              ground (arith, h),
              λ k b l u.
                  from_next i int_end k b d (λ l' u'. absurd (ground (arith, l', u', e))) l u,
            ))
        after none d false e ih = elim (ih (ground (arith, h, e))) [
          | inl (j, a, r, u, v, w, x) ↦
              inl (j, a, r, omega (arith, u), v, w, λ k b. from_next i j k b d (x k b))
          | inr (inl (r, u, x)) ↦ inr (
              inl (
                r,
                omega (arith, u),
                λ k b l v. from_next i (suc i + fuel) k b d (x k b) l (omega (arith, v)),
              ))
          | inr (inr (r, u, x)) ↦
              inr (inr (r, omega (arith, u), λ k b. from_next i int_end k b d (x k b)))
        ]

  -- When handle_one_lmap says where the tables of a library are, the search ends at the first symbol,
  -- of an index that is an int, that ends it, with the answer of that symbol: a symbol in use ends
  -- it with 0 if its name begins with a control character, and with its address if it has the name
  -- that is looked for and a value. The number of symbols of the library plays no part: without such
  -- a symbol the search is still running after fewer rounds than there are indices, and afterwards
  -- the index goes beyond an int, which is undefined.
  pub find_symbol_in_linkmap-Outcome :
      (lm : LinkMap) (lmret : LmapResult) (symtab strtab : ℕ) (name : List ℕ) (fuel : ℕ)
      → handle_one_lmap getdata fuel lm.l_addr lm.l_ld ≡ ok (some lmret)
      → lmret.symtab ≡ some symtab
      → lmret.strtab ≡ some strtab
      → Outcome lmret.link_addr symtab strtab name fuel 0
          (find_symbol_in_linkmap getdata getstr lm name fuel)
  unfolding find_symbol_in_linkmap with_tables
  find_symbol_in_linkmap-Outcome lm lmret symtab strtab name fuel e s t =
      rw (e, s, t) (scan_syms-Outcome lmret.link_addr symtab strtab name fuel 0 (omega arith))
