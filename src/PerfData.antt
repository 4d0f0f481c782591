-- ===== src/PerfData.antt =====
-- src/hsperfdata_parser.h: reading the performance data file of a JVM. The file is its bytes; a read
-- outside the buffer, a negative length and an overflow of `int` are undefined, and are the end
-- `fault` here.
pub mod Tests
pub mod Layout
pub mod Laws
pub mod Reads
pub mod RoundTrip
use jvm.Common.{
  ℕ, zero, suc, ◌+◌, ◌*◌, ◌≡◌, Bool, true, false, not, ◌&&◌, ◌||◌, List, [], ◌∷◌, ◌++◌, Option,
  none, some, ◌==◌, ltb, leb, if◌then◌else◌, length, take, drop, ℤ, pos, negsuc, to_int32, to_int64,
  add_int, eqb_ℤ,
}
use jvm.Text.{codes}

-- `memcpy` of `n` bytes from `buf + i`.
unfoldable pub slice : List ℕ → ℤ → ℕ → Option (List ℕ)
slice buf (negsuc i) n = none
slice buf (pos i) n = if leb (i + n) (length buf) then some (take n (drop i buf)) else none

-- The little-endian number that some bytes hold.
unfoldable pub number : List ℕ → ℕ
number [] = 0
number (b ∷ bs) = b + 256 * number bs

-- A field of a packed struct: its offset and size.
unfoldable pub field_of : List ℕ → ℕ → ℕ → ℕ
unfolding number
field_of bytes offset size = number (take size (drop offset bytes))

pub record Header : Type 0 where
  pub magic : ℕ
  pub byte_order : ℕ
  pub major : ℕ
  pub minor : ℕ

unfoldable pub header_of : List ℕ → Header
unfolding field_of
header_of b = record {
  magic = field_of b 0 4;
  byte_order = field_of b 4 1;
  major = field_of b 5 1;
  minor = field_of b 6 1;
}

pub record Prologue : Type 0 where
  pub accessible : ℕ
  pub used : ℤ
  pub overflow : ℤ
  pub modify_time : ℤ
  pub entry_offset : ℤ
  pub num_entries : ℤ

unfoldable pub prologue_of : List ℕ → Prologue
unfolding field_of
prologue_of b = record {
  accessible = field_of b 0 1;
  used = to_int32 (field_of b 1 4);
  overflow = to_int32 (field_of b 5 4);
  modify_time = to_int64 (field_of b 9 8);
  entry_offset = to_int32 (field_of b 17 4);
  num_entries = to_int32 (field_of b 21 4);
}

pub record EntryHeader : Type 0 where
  pub entry_length : ℤ
  pub name_offset : ℤ
  pub vector_length : ℤ
  pub data_type : ℕ
  pub flags : ℕ
  pub data_units : ℕ
  pub data_var : ℕ
  pub data_offset : ℤ

unfoldable pub entry_of : List ℕ → EntryHeader
unfolding field_of
entry_of b = record {
  entry_length = to_int32 (field_of b 0 4);
  name_offset = to_int32 (field_of b 4 4);
  vector_length = to_int32 (field_of b 8 4);
  data_type = field_of b 12 1;
  flags = field_of b 13 1;
  data_units = field_of b 14 1;
  data_var = field_of b 15 1;
  data_offset = to_int32 (field_of b 16 4);
}

-- The bytes up to the first 0, or to the end of the buffer.
unfoldable pub c_string : List ℕ → List ℕ
c_string [] = []
c_string (b ∷ bs) = let rest = c_string bs in if b == 0 then [] else b ∷ rest

-- The loop that measures the name; at or behind the end of the buffer the name is empty.
unfoldable pub name_at : List ℕ → ℤ → Option (List ℕ)
unfolding c_string
name_at buf (negsuc i) = none
name_at buf (pos i) = some (c_string (drop i buf))

is_prefix : List ℕ → List ℕ → Bool
is_prefix [] ys = true
is_prefix (x ∷ xs) [] = false
is_prefix (x ∷ xs) (y ∷ ys) = x == y && is_prefix xs ys

-- `name.find(text) >= 0`.
contains : List ℕ → List ℕ → Bool
unfolding is_prefix
contains text [] = is_prefix text []
contains text (y ∷ ys) = is_prefix text (y ∷ ys) || contains text ys

unfoldable pub is_generation : List ℕ → Bool
unfolding contains
is_generation name = contains (codes "sun.gc.generation") name

-- What is printed of an entry.
pub data Line : Type 0 where
  int_value : (name : List ℕ) (value : ℤ) → Line
  str_value : (name value : List ℕ) → Line
  -- the name of an entry that is then refused
  name_only : (name : List ℕ) → Line

-- How the call ends.
pub data End : Type 0 where
  complete fault not_open unsupported_endian : End
  illegal_magic : (magic : ℕ) → End
  unsupported_version : (major minor : ℕ) → End
  unexpected_type : (data_type : ℕ) → End
  unexpected_vector : (data_type data_units data_var : ℕ) → End

-- The buffer is given back at the end of the loop only.
pub record Parsed : Type 0 where
  pub lines : List Line
  pub end : End
  pub buffer_freed : Bool

-- The work on one entry: its lines, and the position of the next entry or the end of the call.
pub data Entry : Type 0 where
  next : (lines : List Line) (position : ℤ) → Entry
  stop : (lines : List Line) (end : End) → Entry

-- What is printed only for the names of generations.
shown : List ℕ → Line → List Line
shown name l = if is_generation name then l ∷ [] else []

advance : List Line → Option ℤ → Entry
advance lines none = stop lines fault
advance lines (some position) = next lines position

-- `vector_length_ == 0`.
scalar : List ℕ → ℤ → EntryHeader → List ℕ → ℤ → Entry
unfolding shown advance
scalar buf position e name data_start =
    if not (e.data_type == b'J')
    then stop (shown name (name_only name)) (unexpected_type e.data_type)
    else elim (slice buf data_start 8) [
      | none ↦ stop (shown name (name_only name)) fault
      | some bytes ↦
          advance (shown name (int_value name (to_int64 (number bytes))))
            (add_int position e.entry_length)
    ]

vector_bytes : List ℕ → ℤ → ℤ → Option (List ℕ)
vector_bytes buf data_start (negsuc n) = none
vector_bytes buf data_start (pos n) = slice buf data_start n

-- The text that is printed ends at the first 0 of the value.
vector : List ℕ → ℤ → EntryHeader → List ℕ → ℤ → Entry
unfolding shown advance vector_bytes
vector buf position e name data_start =
    if not (e.data_type == b'B')
      || not (e.data_units == 5)
      || (not (e.data_var == 1) && not (e.data_var == 3))
    then stop (shown name (name_only name)) (unexpected_vector e.data_type e.data_units e.data_var)
    else elim (vector_bytes buf data_start e.vector_length) [
      | none ↦ stop (shown name (name_only name)) fault
      | some bytes ↦
          advance (shown name (str_value name (c_string bytes))) (add_int position e.entry_length)
    ]

parse_value : List ℕ → ℤ → EntryHeader → List ℕ → Entry
unfolding scalar vector
parse_value buf position e name = elim (add_int position e.data_offset) [
  | none ↦ stop (shown name (name_only name)) fault
  | some data_start ↦
      if eqb_ℤ e.vector_length (pos 0)
      then scalar buf position e name data_start
      else vector buf position e name data_start
]

parse_name : List ℕ → ℤ → EntryHeader → Entry
unfolding parse_value
parse_name buf position e = elim (add_int position e.name_offset) [
  | none ↦ stop [] fault
  | some name_start ↦ elim (name_at buf name_start) [
    | none ↦ stop [] fault
    | some name ↦ parse_value buf position e name
  ]
]

unfoldable pub parse_entry : List ℕ → ℤ → Entry
unfolding parse_name
parse_entry buf position = elim (slice buf position 20) [
  | none ↦ stop [] fault
  | some bytes ↦ parse_name buf position (entry_of bytes)
]

-- The loop with `n` entries left.
unfoldable pub parse_entries : List ℕ → ℕ → ℤ → List Line → Parsed
unfolding parse_entry
parse_entries buf zero position lines = record {
  lines = lines;
  end = complete;
  buffer_freed = true;
}
parse_entries buf (suc n) position lines = elim (parse_entry buf position) [
  | stop ls e ↦ record { lines = lines ++ ls; end = e; buffer_freed = false }
  | next ls position' ↦ parse_entries buf n position' (lines ++ ls)
]

rounds : ℤ → ℕ
rounds (pos n) = n
rounds (negsuc n) = 0

parse_body : List ℕ → Parsed
unfolding parse_entries rounds
parse_body buf = elim (slice buf (pos 7) 25) [
  | none ↦ record { lines = []; end = fault; buffer_freed = false }
  | some bytes ↦
      let p = prologue_of bytes in parse_entries buf (rounds p.num_entries) p.entry_offset []
]

abbrev ended : End → Parsed
ended e = record { lines = []; end = e; buffer_freed = false }

parse_header : List ℕ → Header → Parsed
unfolding parse_body
parse_header buf h =
    if not (h.magic == 0xc0c0feca)
    then ended (illegal_magic h.magic)
    else if not (h.major == 2 && h.minor == 0)
    then ended (unsupported_version h.major h.minor)
    else if not (h.byte_order == 1)
    then ended unsupported_endian
    else parse_body buf

-- `none` is a file that cannot be opened; then no buffer has been made.
unfoldable pub parse : Option (List ℕ) → Parsed
unfolding parse_header
parse none = ended not_open
parse (some buf) = elim (slice buf (pos 0) 7) [
  | none ↦ ended fault
  | some bytes ↦ parse_header buf (header_of bytes)
]
