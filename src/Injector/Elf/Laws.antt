-- ===== src/Injector/Elf/Laws.antt =====
-- How handle_one_lmap (src/trace.h) reads a dynamic section.
use jvm.Common.{
  ℕ, zero, suc, ◌+◌, ◌*◌, ◌/◌, ◌%◌, ◌^◌, ◌<◌, ◌≡◌, ◌≢◌, refl, List, [], ◌∷◌, none, arith, two64,
  ◌⊎◌, inl, inr,
}
use jvm.PerfData.{field_of, number}
use jvm.Tracer.Dynamic.{Dyn}
use jvm.Injector.Run.{ok, undefined}
use jvm.Injector.Inject.{add_addr}
use jvm.Injector.Elf.{
  nothing_seen, Tag, tag_of, set_tag, dt_symtab, dt_syment, dt_syminsz, dt_strtab, dt_jmprel,
  dt_pltrelsz, dt_rel, dt_relent, dt_relsz, dt_other, read_dyn, apply_tag, read_section,
  finish_lmap, handle_one_lmap,
}

-- `n` bytes from an address on.
abbrev pub bytes_from : (ℕ → ℕ) → ℕ → ℕ → List ℕ
bytes_from byte zero a = []
bytes_from byte (suc n) a = byte a ∷ bytes_from byte n (suc a)

module _ (getdata : ℕ → ℕ → List ℕ) (byte : ℕ → ℕ)
    (gets : (a n : ℕ) → getdata a n ≡ bytes_from byte n a) (small : (a : ℕ) → byte a < 256) where
  -- The entry that is read behind the one at `a` begins two bytes behind it, in the middle of it.
  read_dyn-next :
      (a : ℕ)
      → (read_dyn getdata (a + 2)).d_tag
        ≡ (read_dyn getdata a).d_tag / 2 ^ 16 + (read_dyn getdata a).d_un % 2 ^ 16 * 2 ^ 48
  unfolding read_dyn field_of number
  read_dyn-next a =
      let e : a + 2 ≡ suc (suc a) = omega arith in
      rw (e, gets (suc (suc a)) 16, gets a 16) (omega (arith, small))

  tag_alone :
      (l_addr : ℕ) (v : ℕ) (t : Tag)
      → (finish_lmap (set_tag nothing_seen v t) l_addr ≡ undefined)
        ⊎ (finish_lmap (set_tag nothing_seen v t) l_addr ≡ ok none)
  unfolding finish_lmap
  tag_alone l_addr v dt_symtab = inl refl
  tag_alone l_addr zero dt_syment = inr refl
  tag_alone l_addr (suc v) dt_syment = inl (ground arith)
  tag_alone l_addr v dt_syminsz = inl refl
  tag_alone l_addr v dt_strtab = inl refl
  tag_alone l_addr v dt_jmprel = inl refl
  tag_alone l_addr v dt_pltrelsz = inl refl
  tag_alone l_addr v dt_rel = inl refl
  tag_alone l_addr v dt_relent = inl refl
  tag_alone l_addr v dt_relsz = inl refl
  tag_alone l_addr v dt_other = inl refl

  second_tag :
      (a : ℕ) (d : Dyn)
      → read_dyn getdata a ≡ d
      → d.d_tag < 2 ^ 16
      → d.d_un % 2 ^ 16 ≡ 0
      → (read_dyn getdata (a + 2)).d_tag ≡ 0
  second_tag a d e small_tag aligned = rw (read_dyn-next a, e) (omega (arith, small_tag, aligned))

  two_rounds :
      (fuel l_ld : ℕ) (d : Dyn)
      → l_ld + 2 < two64
      → read_dyn getdata l_ld ≡ d
      → d.d_tag ≢ 0
      → d.d_tag < 2 ^ 16
      → d.d_un % 2 ^ 16 ≡ 0
      → read_section getdata (2 + fuel) l_ld nothing_seen ≡ ok (apply_tag nothing_seen d)
  unfolding read_section
  two_rounds fuel l_ld d room e nz small_tag aligned =
      let a : add_addr l_ld 2 ≡ l_ld + 2 = omega (arith, room) in
      let z = second_tag l_ld d e small_tag aligned in ground (arith, a, z, e, nz)

  -- The defect: where the bytes of the process are given, a section whose first entry has a tag that
  -- is not 0 but below 2 ^ 16 and a value that is a multiple of 2 ^ 16, such as the address of an
  -- aligned table, gives no result, with any fuel from 2 on: an indeterminate value is read or the
  -- null pointer is returned.
  pub handle_one_lmap-no_result :
      (fuel l_addr l_ld : ℕ) (d : Dyn)
      → l_ld + 2 < two64
      → read_dyn getdata l_ld ≡ d
      → d.d_tag ≢ 0
      → d.d_tag < 2 ^ 16
      → d.d_un % 2 ^ 16 ≡ 0
      → (handle_one_lmap getdata (2 + fuel) l_addr l_ld ≡ undefined)
        ⊎ (handle_one_lmap getdata (2 + fuel) l_addr l_ld ≡ ok none)
  unfolding handle_one_lmap apply_tag
  handle_one_lmap-no_result fuel l_addr l_ld d room e nz small_tag aligned =
      rw (two_rounds fuel l_ld d room e nz small_tag aligned)
        (tag_alone l_addr d.d_un (tag_of d.d_tag))
