-- ===== src/Types/Tests.antt =====
-- Examples of the sizes of types that src/ts/common/types.h accepts and refuses.
use jvm.Common.{ℕ, ◌≡◌, refl, true, false}
use jvm.Types.{
  CType, signed_char, short, int, long_int, unsigned_char, unsigned_short, unsigned_int,
  unsigned_long_int, declared, static_asserts,
}

-- The sizes on 64-bit Linux, and on 64-bit Windows.
abbrev lp64 : CType → ℕ
lp64 signed_char = 1
lp64 short = 2
lp64 int = 4
lp64 long_int = 8
lp64 unsigned_char = 1
lp64 unsigned_short = 2
lp64 unsigned_int = 4
lp64 unsigned_long_int = 8

abbrev llp64 : CType → ℕ
llp64 long_int = 4
llp64 unsigned_long_int = 4
llp64 t = lp64 t

compiles : static_asserts lp64 ≡ true
unfolding static_asserts
compiles = refl

refused : static_asserts llp64 ≡ false
unfolding static_asserts declared
refused = refl
