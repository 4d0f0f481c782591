-- ===== src/Types.antt =====
-- src/ts/common/types.h: the integer types of the program, and what it asks of the compiler. The
-- sizes that the compiler gives to the types of C are an argument.
pub mod Forms
pub mod Tests
use jvm.Common.{
  ℕ, suc, ◌-◌, ◌*◌, ◌^◌, ◌≡◌, refl, Bool, true, false, ◌&&◌, ◌==◌, ltb, if◌then◌else◌, ℤ, pos,
  negsuc, arith, to_int64, two63, two64, dec_lt, ◌<◌,
}

pub data CType : Type 0 where
  signed_char short int long_int unsigned_char unsigned_short unsigned_int unsigned_long_int : CType

pub data IntType : Type 0 where
  int8 int16 int32 int64 uint8 uint16 uint32 uint64 : IntType

-- The typedefs.
unfoldable pub declared : IntType → CType
declared int8 = signed_char
declared int16 = short
declared int32 = int
declared int64 = long_int
declared uint8 = unsigned_char
declared uint16 = unsigned_short
declared uint32 = unsigned_int
declared uint64 = unsigned_long_int

unfoldable pub is_signed : CType → Bool
is_signed signed_char = true
is_signed short = true
is_signed int = true
is_signed long_int = true
is_signed unsigned_char = false
is_signed unsigned_short = false
is_signed unsigned_int = false
is_signed unsigned_long_int = false

module _ (sizeof : CType → ℕ) where
  -- The file compiles.
  unfoldable pub static_asserts : Bool
  unfolding declared
  static_asserts =
      (sizeof (declared int8) == 1)
      && (sizeof (declared int16) == 2)
      && (sizeof (declared int32) == 4)
      && (sizeof (declared int64) == 8)
      && (sizeof (declared uint8) == 1)
      && (sizeof (declared uint16) == 2)
      && (sizeof (declared uint32) == 4)
      && (sizeof (declared uint64) == 8)

  -- Is a number in the range of a type of C?
  unfoldable pub in_range : CType → ℤ → Bool
  unfolding is_signed
  in_range t (pos n) =
      if is_signed t then ltb n (2 ^ (8 * sizeof t - 1)) else ltb n (2 ^ (8 * sizeof t))
  in_range t (negsuc n) = if is_signed t then ltb n (2 ^ (8 * sizeof t - 1)) else false

  unfoldable pub holds : IntType → ℤ → Bool
  unfolding in_range declared
  holds τ z = in_range (declared τ) z

  module _ (compiled : static_asserts ≡ true) where
    sizeof-int64 : sizeof long_int ≡ 8
    unfolding static_asserts
    sizeof-int64 = ground (arith, compiled)

    sizeof-uint64 : sizeof unsigned_long_int ≡ 8
    unfolding static_asserts
    sizeof-uint64 = ground (arith, compiled)

    holds-int64 :
        (n : ℕ) → n < two63 → (holds int64 (pos n) ≡ true) × (holds int64 (negsuc n) ≡ true)
    unfolding holds
    holds-int64 n h = rw sizeof-int64 (ground arith, ground arith)

    -- Where the file compiles, the conversion of a 64-bit word gives an int64_t.
    pub holds-to_int64 : (w : ℕ) → w < two64 → holds int64 (to_int64 w) ≡ true
    holds-to_int64 w h = elim (dec_lt w two63) [
      | yes small ↦ ground (arith, holds-int64 w small)
      | no large ↦ ground (arith, holds-int64 (two64 - w - 1) (omega arith))
    ]

    -- The part of an int64_t below 0 lies within 2 ^ 63.
    pub int64-lt : (n : ℕ) → holds int64 (negsuc n) ≡ true → n < two63
    unfolding holds
    int64-lt n h = ground (arith, sizeof-int64)

    pub int64-lt_pos : (n : ℕ) → holds int64 (pos n) ≡ true → n < two63
    unfolding holds
    int64-lt_pos n h = ground (arith, sizeof-int64)

    pub uint64-lt : (w : ℕ) → holds uint64 (pos w) ≡ true → w < two64
    unfolding holds
    uint64-lt w h = ground (arith, sizeof-uint64)
