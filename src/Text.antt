-- ===== src/Text.antt =====
-- Numbers as text: what `operator<<` and `std::to_string` print, and what `std::stoll` reads. A
-- text is the list of its codes.
pub mod Laws
use Prim.Native.Char.{code}
use Prim.Native.String.{String}
use jvm.Common.{
  ℕ, zero, suc, ◌+◌, ◌-◌, ◌*◌, ◌/◌, ◌%◌, Bool, true, false, List, [], ◌∷◌, ◌++◌, ltb, leb,
  if◌then◌else◌, ◌&&◌, ◌==◌,
}

-- The codes of a literal of the source.
abbrev pub codes : String → List ℕ
codes String.[] = []
codes (String.◌∷◌ c s) = code c ∷ codes s

abbrev pub newline : ℕ
newline = 10

unfoldable pub digit_char : ℕ → ℕ
digit_char d = if ltb d 10 then b'0' + d else b'a' + (d - 10)

-- The digits of a number, with fuel for their count.
unfoldable pub render : ℕ → ℕ → ℕ → List ℕ
unfolding digit_char
render base zero n = []
render base (suc f) n =
    let rest = render base f (n / base) in
    (if ltb n base then [] else rest) ++ digit_char (n % base) ∷ []

-- A 64-bit number has at most 20 digits in base 10, and 16 in base 16.
abbrev pub fuel : ℕ
fuel = 20

abbrev pub decimal : ℕ → List ℕ
decimal n = render 10 fuel n

abbrev pub hex : ℕ → List ℕ
hex n = render 16 fuel n

-- The number that a digit stands for.
unfoldable pub char_digit : ℕ → ℕ
char_digit c = if leb b'a' c then c - b'a' + 10 else c - b'0'

unfoldable pub decode : ℕ → ℕ → List ℕ → ℕ
unfolding char_digit
decode base acc [] = acc
decode base acc (c ∷ cs) = decode base (acc * base + char_digit c) cs

-- `strncmp(a, b, n) == 0`.
unfoldable pub strncmp_eq : ℕ → List ℕ → List ℕ → Bool
strncmp_eq zero a b = true
strncmp_eq (suc n) [] [] = true
strncmp_eq (suc n) [] (y ∷ ys) = false
strncmp_eq (suc n) (x ∷ xs) [] = false
strncmp_eq (suc n) (x ∷ xs) (y ∷ ys) =
    let rest = strncmp_eq n xs ys in if x == y then rest else false
