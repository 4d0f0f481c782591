-- ===== src/PerfData/Layout.antt =====
-- The layout of a performance data file as src/hsperfdata_parser.h describes it by its packed
-- structs: an independent description, by writing files.
use jvm.Common.{
  ℕ, zero, suc, ◌+◌, ◌/◌, ◌%◌, ◌^◌, ◌<◌, ◌≡◌, ◌≢◌, List, [], ◌∷◌, ◌++◌, length, to_int64,
}
use jvm.PerfData.{Line, int_value, str_value, c_string, is_generation}
use jvm.Common.{if◌then◌else◌, ◌⊎◌}

-- The `k` bytes of a number, the lowest first.
abbrev pub le : ℕ → ℕ → List ℕ
le zero n = []
le (suc k) n = n % 256 ∷ le k (n / 256)

-- A counter, or a text with its variability.
pub data Value : Type 0 where
  long : (word : ℕ) → Value
  text : (variability : ℕ) (bytes : List ℕ) → Value

pub record Item : Type 0 where
  pub name : List ℕ
  pub value : Value

abbrev pub data_bytes : Value → List ℕ
data_bytes (long word) = le 8 word
data_bytes (text variability bytes) = bytes

abbrev pub vector_length : Value → ℕ
vector_length (long word) = 0
vector_length (text variability bytes) = length bytes

abbrev pub type_bytes : Value → List ℕ
type_bytes (long word) = b'J' ∷ 0 ∷ 1 ∷ 3 ∷ []
type_bytes (text variability bytes) = b'B' ∷ 0 ∷ 5 ∷ variability ∷ []

-- The name follows the 20 bytes of the header, the data follow the 0 behind the name.
abbrev pub data_offset : Item → ℕ
data_offset it = 20 + length it.name + 1

abbrev pub entry_length : Item → ℕ
entry_length it = data_offset it + length (data_bytes it.value)

abbrev pub entry_header : Item → List ℕ
entry_header it =
    le 4 (entry_length it)
    ++ (le 4 20
        ++ (le 4 (vector_length it.value) ++ (type_bytes it.value ++ le 4 (data_offset it))))

abbrev pub encode : Item → List ℕ
encode it = entry_header it ++ (it.name ++ 0 ∷ data_bytes it.value)

abbrev pub encode_all : List Item → List ℕ
encode_all [] = []
encode_all (it ∷ its) = encode it ++ encode_all its

-- The file: magic, little endian, version 2.0, then the prologue and the entries.
abbrev pub encode_file : (used overflow modify_time : ℕ) → List Item → List ℕ
encode_file used overflow modify_time its =
    0xca
    ∷ 0xfe
    ∷ 0xc0
    ∷ 0xc0
    ∷ 1
    ∷ 2
    ∷ 0
    ∷ 1
    ∷ (le 4 used
        ++ (le 4 overflow
            ++ (le 8 modify_time ++ (le 4 32 ++ (le 4 (length its) ++ encode_all its)))))

-- No byte is 0.
abbrev pub NonZero : List ℕ → Type 0
NonZero [] = Unit {0}
NonZero (b ∷ bs) = (b ≢ 0) × NonZero bs

abbrev pub IsValue : Value → Type 0
IsValue (long word) = word < 2 ^ 64
IsValue (text variability bytes) = ((variability ≡ 1) ⊎ (variability ≡ 3)) × (0 < length bytes)

abbrev pub AreItems : List Item → Type 0
AreItems [] = Unit {0}
AreItems (it ∷ its) = NonZero it.name × IsValue it.value × AreItems its

-- What is printed of an item: nothing unless its name is that of a generation.
abbrev pub value_line : List ℕ → Value → Line
value_line name (long word) = int_value name (to_int64 word)
value_line name (text variability bytes) = str_value name (c_string bytes)

abbrev pub lines_of : List Item → List Line
lines_of [] = []
lines_of (it ∷ its) =
    (if is_generation it.name then value_line it.name it.value ∷ [] else []) ++ lines_of its
