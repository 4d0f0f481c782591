-- ===== src/PerfData/Reads.antt =====
-- The reads of src/hsperfdata_parser.h in a buffer that is written in pieces.
use native.Mathlib.Nat.{zero-add}
use jvm.Common.{
  ℕ, suc, ◌+◌, ◌^◌, ◌≤◌, ◌<◌, ◌≡◌, refl, ap, sym, ◌∙◌, List, [], ◌∷◌, ◌++◌, some, length, take,
  drop, length-append, pos, to_int32, arith, append_assoc, take-append_left,
}
use jvm.PerfData.{slice, number, field_of, EntryHeader, entry_of, c_string, name_at}
use jvm.PerfData.Layout.{
  le, Value, long, text, Item, vector_length, data_offset, entry_length, entry_header, NonZero,
}

number-le_4 : (n : ℕ) → n < 2 ^ 32 → number (le 4 n) ≡ n
unfolding number
number-le_4 n h = omega arith

pub number-le_8 : (n : ℕ) → n < 2 ^ 64 → number (le 8 n) ≡ n
unfolding number
number-le_8 n h = omega arith

drop-append : (pre s : List ℕ) (k : ℕ) → drop (length pre + k) (pre ++ s) ≡ drop k s
drop-append [] s k = rw (zero-add k)
drop-append (x ∷ pre) s k =
    let e : suc (length pre) + k ≡ suc (length pre + k) = omega arith in rw e (drop-append pre s k)

-- Reading behind the first `length pre` bytes.
slice-append :
    (pre s : List ℕ) (k n : ℕ)
    → k + n ≤ length s
    → slice (pre ++ s) (pos (length pre + k)) n ≡ some (take n (drop k s))
unfolding slice
slice-append pre s k n h = ground (arith, length-append pre s, drop-append pre s k)

c_string-name : (name rest : List ℕ) → NonZero name → c_string (name ++ 0 ∷ rest) ≡ name
unfolding c_string
c_string-name [] rest h = refl
c_string-name (b ∷ name) rest h = ground (arith, c_string-name name rest h.1)

pub int32-le_4 : (n : ℕ) → n < 2 ^ 31 → to_int32 (number (le 4 n)) ≡ pos n
int32-le_4 n h = rw (number-le_4 n (omega arith)) (ground arith)

number-byte : (b : ℕ) → number (b ∷ []) ≡ b
unfolding number
number-byte b = omega arith

-- The fields of an entry header that is written as numbers.
pub entry_of-bytes :
    (a b c d e f g h : ℕ) (rest : List ℕ)
    → a < 2 ^ 31
    → b < 2 ^ 31
    → c < 2 ^ 31
    → h < 2 ^ 31
    → entry_of (le 4 a ++ (le 4 b ++ (le 4 c ++ (d ∷ e ∷ f ∷ g ∷ (le 4 h ++ rest))))) ≡ record {
      entry_length = pos a;
      name_offset = pos b;
      vector_length = pos c;
      data_type = d;
      flags = e;
      data_units = f;
      data_var = g;
      data_offset = pos h;
    }
unfolding entry_of field_of number
entry_of-bytes a b c d e f g h rest ha hb hc hh = λ i. record {
  entry_length = int32-le_4 a ha i;
  name_offset = int32-le_4 b hb i;
  vector_length = int32-le_4 c hc i;
  data_type = number-byte d i;
  flags = number-byte e i;
  data_units = number-byte f i;
  data_var = number-byte g i;
  data_offset = int32-le_4 h hh i;
}

-- The header of an item, as it is read.
abbrev pub header_of_item : Item → EntryHeader
header_of_item it = record {
  entry_length = pos (entry_length it);
  name_offset = pos 20;
  vector_length = pos (vector_length it.value);
  data_type = elim it.value [ long word ↦ b'J' | text variability bytes ↦ b'B' ];
  flags = 0;
  data_units = elim it.value [ long word ↦ 1 | text variability bytes ↦ 5 ];
  data_var = elim it.value [ long word ↦ 3 | text variability bytes ↦ variability ];
  data_offset = pos (data_offset it);
}

-- `xs` is read where it stands.
pub slice-at :
    (pre xs rest : List ℕ) (i n : ℕ)
    → i ≡ length pre
    → n ≡ length xs
    → slice (pre ++ (xs ++ rest)) (pos i) n ≡ some xs
unfolding slice
slice-at pre xs rest i n hi hn = ground (
  arith,
  drop-append pre (xs ++ rest) 0,
  take-append_left n xs rest (sym hn),
  length-append pre (xs ++ rest),
  length-append xs rest,
)

name_at-at :
    (pre name rest : List ℕ) (i : ℕ)
    → i ≡ length pre
    → NonZero name
    → name_at (pre ++ (name ++ 0 ∷ rest)) (pos i) ≡ some name
unfolding name_at
name_at-at pre name rest i hi h =
    ground (arith, drop-append pre (name ++ 0 ∷ rest) 0, c_string-name name rest h)

-- A header, a name and data behind `pre`.
module _ (pre header name payload rest : List ℕ) (sized : length header ≡ 20) where
  abbrev pub laid_out : List ℕ
  laid_out = pre ++ ((header ++ (name ++ 0 ∷ payload)) ++ rest)

  split_name : laid_out ≡ (pre ++ header) ++ (name ++ 0 ∷ (payload ++ rest))
  split_name =
      ap (◌++◌ pre) (
        append_assoc header (name ++ 0 ∷ payload) rest
        ∙ ap (◌++◌ header) (append_assoc name (0 ∷ payload) rest))
      ∙ sym (append_assoc pre header _)

  split_payload : laid_out ≡ ((pre ++ header) ++ (name ++ 0 ∷ [])) ++ (payload ++ rest)
  split_payload =
      split_name
      ∙ ap (◌++◌ (pre ++ header)) (sym (append_assoc name (0 ∷ []) (payload ++ rest)))
      ∙ sym (append_assoc (pre ++ header) (name ++ 0 ∷ []) (payload ++ rest))

  pub slice-header : slice laid_out (pos (length pre)) 20 ≡ some header
  slice-header =
      rw (append_assoc header (name ++ 0 ∷ payload) rest)
        (slice-at pre header ((name ++ 0 ∷ payload) ++ rest) (length pre) 20 refl (sym sized))

  pub name_at-name : NonZero name → name_at laid_out (pos (length pre + 20)) ≡ some name
  name_at-name h = rw split_name (
      name_at-at (pre ++ header) name (payload ++ rest) (length pre + 20)
        (omega (arith, length-append pre header)) h)

  pub slice-payload :
      (n : ℕ)
      → n ≡ length payload
      → slice laid_out (pos (length pre + (20 + length name + 1))) n ≡ some payload
  slice-payload n e = rw split_payload (
      slice-at ((pre ++ header) ++ (name ++ 0 ∷ [])) payload rest _ n
        (omega (
          arith,
          length-append (pre ++ header) (name ++ 0 ∷ []),
          length-append pre header,
          length-append name (0 ∷ []),
        ))
        e)

pub length-entry_header : (it : Item) → length (entry_header it) ≡ 20
length-entry_header it = sized it.value
  where
    sized : (v : Value) → length (entry_header (record { name = it.name; value = v })) ≡ 20
    sized (long word) = refl
    sized (text variability bytes) = refl
