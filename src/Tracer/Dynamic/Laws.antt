-- ===== src/Tracer/Dynamic/Laws.antt =====
-- What get_sym_info of src/tt.cpp makes of a dynamic section.
use jvm.Common.{
  ℕ, zero, suc, ◌/◌, ◌<◌, ◌≡◌, ◌≢◌, refl, List, [], ◌∷◌, ◌==◌, if◌then◌else◌, length, arith,
}
use jvm.Tracer.Memory.{add_addr}
use jvm.Tracer.Dynamic.{
  Globals, Run, ok, crashed, exited, running, ◌>>=◌, Dyn, dyn_size, dt_hash, apply_tag,
  read_section, get_sym_info,
}

module _ {ℓ κ} {A : Type ℓ} {B : Type κ} where
  -- A chain of steps that has a result has one at each step.
  pub >>=-ok :
      (first : Run A) (next : A → Run B) {out : B}
      → (first >>= next) ≡ ok out
      → (a : A) × (first ≡ ok a) × (next a ≡ ok out)
  >>=-ok running next e = cc
  >>=-ok crashed next e = cc
  >>=-ok exited next e = cc
  >>=-ok (ok a) next e = (a, refl, e)

-- The entries stand from `addr` on, and then DT_NULL; their tags are not 0.
abbrev Section : (ℕ → ℕ) → ℕ → List Dyn → Type 0
Section peek addr [] = peek (add_addr addr 0) ≡ 0
Section peek addr (d ∷ ds) =
    (peek (add_addr addr 0) ≡ d.d_tag)
    × (peek (add_addr addr 4) ≡ d.d_un)
    × (d.d_tag ≢ 0)
    × Section peek (add_addr addr dyn_size) ds

-- The effect of the entries, one after the other.
abbrev apply_all : (ℕ → ℕ) → Globals → List Dyn → Globals
apply_all peek g [] = g
apply_all peek g (d ∷ ds) = apply_all peek (apply_tag peek g d) ds

read_section-Section :
    (peek : ℕ → ℕ) (fuel addr : ℕ) (g : Globals) (ds : List Dyn)
    → length ds < fuel
    → Section peek addr ds
    → read_section peek fuel addr g ≡ ok (apply_all peek g ds)
unfolding read_section
read_section-Section peek zero addr g ds f s = absurd (omega arith)
read_section-Section peek (suc fuel) addr g [] f s = ground arith
read_section-Section peek (suc fuel) addr g (d ∷ ds) f s =
    ground (arith, read_section-Section peek fuel (add_addr addr dyn_size) (apply_tag peek g d) ds)

-- No entry has the tag of the hash table.
abbrev NoHash : List Dyn → Type 0
NoHash [] = Unit {0}
NoHash (d ∷ ds) = (d.d_tag ≢ dt_hash) × NoHash ds

apply_all-NoHash :
    (peek : ℕ → ℕ) (g : Globals) (ds : List Dyn)
    → NoHash ds
    → (apply_all peek g ds).nchains ≡ g.nchains
unfolding apply_tag
apply_all-NoHash peek g [] n = refl
apply_all-NoHash peek g (d ∷ ds) n = ground (arith, apply_all-NoHash peek (apply_tag peek g d) ds)

-- A section of fewer entries than rounds is read to its end: the globals are those that its entries
-- set, one after the other, and the number of relocations is their quotient. If the size of a
-- relocation is 0, the tracer divides by 0.
get_sym_info-Section :
    (peek : ℕ → ℕ) (fuel l_ld : ℕ) (g : Globals) (ds : List Dyn)
    → length ds < fuel
    → Section peek l_ld ds
    → let h = apply_all peek g ds in
      get_sym_info peek fuel g l_ld
      ≡ (if h.relsize == 0 then crashed else ok (record h { nrels = h.totalrelsize / h.relsize }))
unfolding get_sym_info
get_sym_info-Section peek fuel l_ld g ds f s = rw (read_section-Section peek fuel l_ld g ds f s)

-- The defect: a library without a hash table keeps the number of symbols of the library that was
-- read before it.
get_sym_info-stale :
    (peek : ℕ → ℕ) (fuel l_ld : ℕ) (g h : Globals) (ds : List Dyn)
    → length ds < fuel
    → Section peek l_ld ds
    → NoHash ds
    → get_sym_info peek fuel g l_ld ≡ ok h
    → h.nchains ≡ g.nchains
get_sym_info-stale peek fuel l_ld g h ds f s n e =
    ground (arith, get_sym_info-Section peek fuel l_ld g ds f s, apply_all-NoHash peek g ds n)
