-- ===== src/Text/Laws.antt =====
-- Printed numbers read back.
use native.Mathlib.Nat.{pow-zero, pow-succ', mod-lt, mod-eq_of_lt, div-add-mod'}
use jvm.Common.{
  ℕ, zero, suc, ◌+◌, ◌*◌, ◌/◌, ◌%◌, ◌^◌, ◌≤◌, ◌<◌, ◌≡◌, ◌↔◌, refl, true, List, [], ◌∷◌, ◌++◌, take,
  arith, dec_lt,
}
use jvm.Text.{digit_char, render, decimal, hex, char_digit, decode, fuel, strncmp_eq}

char_digit-digit_char : (d : ℕ) → d < 16 → char_digit (digit_char d) ≡ d
unfolding char_digit digit_char
char_digit-digit_char d h = ground arith

pub decode-append :
    (base acc : ℕ) (xs ys : List ℕ)
    → decode base acc (xs ++ ys) ≡ decode base (decode base acc xs) ys
unfolding decode
decode-append base acc [] ys = refl
decode-append base acc (x ∷ xs) ys = decode-append base (acc * base + char_digit x) xs ys

module _ (base : ℕ) (two : 2 ≤ base) (small : base ≤ 16) where
  quotient_lt : (n p : ℕ) → n < base * p → n / base < p
  quotient_lt n p h = grind arith

  pub decode-render : (f n : ℕ) → n < base ^ f → decode base 0 (render base f n) ≡ n
  unfolding render decode
  decode-render zero n h = omega (arith, pow-zero base)
  decode-render (suc f) n h = elim (dec_lt n base) [
    | yes below ↦ ground (arith, read, mod-eq_of_lt below)
    | no above ↦ ground (
      arith,
      read,
      decode-append base 0 (render base f (n / base)) (digit_char (n % base) ∷ []),
      decode-render f (n / base) (quotient_lt n (base ^ f) (rw (← pow-succ' base f) h)),
      div-add-mod' n base,
    )
  ]
    where
      read : char_digit (digit_char (n % base)) ≡ n % base
      read = char_digit-digit_char (n % base) (omega (arith, mod-lt n {m = base} (omega arith)))

-- A number of at most 64 bits reads back from its decimal and from its hexadecimal digits.
pub decode-decimal : (n : ℕ) → n < 2 ^ 64 → decode 10 0 (decimal n) ≡ n
decode-decimal n h = decode-render 10 (omega arith) (omega arith) fuel n (omega arith)

pub decode-hex : (n : ℕ) → n < 2 ^ 64 → decode 16 0 (hex n) ≡ n
decode-hex n h = decode-render 16 (omega arith) (omega arith) fuel n (omega arith)

-- The test of strncmp, of texts without a 0.
pub strncmp_eq-take : (n : ℕ) (a b : List ℕ) → (strncmp_eq n a b ≡ true) ↔ (take n a ≡ take n b)
unfolding strncmp_eq
strncmp_eq-take zero a b = ground arith
strncmp_eq-take (suc n) [] [] = ground arith
strncmp_eq-take (suc n) [] (y ∷ ys) = ground arith
strncmp_eq-take (suc n) (x ∷ xs) [] = ground arith
strncmp_eq-take (suc n) (x ∷ xs) (y ∷ ys) = ground (arith, strncmp_eq-take n xs ys)
