-- ===== src/PerfData/RoundTrip.antt =====
-- Files that src/hsperfdata_parser.h reads back.
use jvm.Common.{
  ℕ, ◌+◌, ◌^◌, ◌<◌, ◌≡◌, refl, ap, sym, ◌∙◌, true, List, [], ◌∷◌, ◌++◌, some, length, length-append,
  pos, to_int64, add_int-pos, arith, append_assoc, append-nil,
}
use jvm.PerfData.{
  slice, number, field_of, header_of, prologue_of, entry_of, c_string, Line, int_value, str_value,
  complete, next, shown, parse_entry, parse_entries, rounds, parse_body, parse_header, parse,
}
use jvm.PerfData.Layout.{
  le, Value, long, text, Item, data_bytes, data_offset, entry_length, entry_header, encode,
  encode_all, encode_file, NonZero, IsValue, AreItems, value_line, lines_of,
}
use jvm.PerfData.Reads.{
  number-le_8, int32-le_4, slice-at, slice-header, name_at-name, slice-payload, length-entry_header,
  entry_of-bytes, header_of_item,
}

entry_of-item :
    (name : List ℕ) (v : Value)
    → let it : Item = record { name = name; value = v } in
      entry_length it < 2 ^ 31 → entry_of (entry_header it) ≡ header_of_item it
entry_of-item name (long word) h =
    entry_of-bytes _ 20 0 b'J' 0 1 3 _ [] h (omega arith) (omega arith) (omega arith)
entry_of-item name (text variability bytes) h =
    entry_of-bytes _ 20 _ b'B' 0 5 variability _ [] h (omega arith) (omega arith) (omega arith)

module _ (pre name rest : List ℕ) (named : NonZero name) where
  parse_entry-long :
      (word : ℕ)
      → let it : Item = record { name = name; value = long word } in
        word < 2 ^ 64
        → length pre + entry_length it < 2 ^ 31
        → parse_entry (pre ++ (encode it ++ rest)) (pos (length pre))
          ≡ next (shown name (int_value name (to_int64 word))) (pos (length pre + entry_length it))
  unfolding parse_entry
  parse_entry-long word w small =
      let it : Item = record { name = name; value = long word } in
      let sized = length-entry_header it in
      ground (
        arith,
        slice-header pre (entry_header it) name (le 8 word) rest sized,
        entry_of-item name (long word) (omega arith),
        add_int-pos (length pre) 20,
        name_at-name pre (entry_header it) name (le 8 word) rest sized named,
        add_int-pos (length pre) (data_offset it),
        slice-payload pre (entry_header it) name (le 8 word) rest sized 8 refl,
        number-le_8 word w,
        add_int-pos (length pre) (entry_length it),
      )

  parse_entry-text :
      (variability : ℕ) (bytes : List ℕ)
      → let it : Item = record { name = name; value = text variability bytes } in
        IsValue (text variability bytes)
        → length pre + entry_length it < 2 ^ 31
        → parse_entry (pre ++ (encode it ++ rest)) (pos (length pre))
          ≡ next (shown name (str_value name (c_string bytes))) (pos (length pre + entry_length it))
  unfolding parse_entry
  parse_entry-text variability bytes w small =
      let it : Item = record { name = name; value = text variability bytes } in
      let sized = length-entry_header it in
      ground (
        arith,
        slice-header pre (entry_header it) name bytes rest sized,
        entry_of-item name (text variability bytes) (omega arith),
        add_int-pos (length pre) 20,
        name_at-name pre (entry_header it) name bytes rest sized named,
        add_int-pos (length pre) (data_offset it),
        slice-payload pre (entry_header it) name bytes rest sized (length bytes) refl,
        add_int-pos (length pre) (entry_length it),
      )

  parse_entry-encode :
      (v : Value)
      → let it : Item = record { name = name; value = v } in
        IsValue v
        → length pre + entry_length it < 2 ^ 31
        → parse_entry (pre ++ (encode it ++ rest)) (pos (length pre))
          ≡ next (shown name (value_line name v)) (pos (length pre + entry_length it))
  parse_entry-encode (long word) w small = parse_entry-long word w small
  parse_entry-encode (text variability bytes) w small = parse_entry-text variability bytes w small

length-encode : (it : Item) → length (encode it) ≡ entry_length it
length-encode it = omega (
  arith,
  length-append (entry_header it) (it.name ++ 0 ∷ data_bytes it.value),
  length-entry_header it,
  length-append it.name (0 ∷ data_bytes it.value),
)

-- The loop reads the items that are written behind `pre`.
parse_entries-encode_all :
    (buf pre : List ℕ) (its : List Item) (lines : List Line)
    → buf ≡ pre ++ encode_all its
    → AreItems its
    → length pre + length (encode_all its) < 2 ^ 31
    → parse_entries buf (length its) (pos (length pre)) lines
      ≡ record { lines = lines ++ lines_of its; end = complete; buffer_freed = true }
unfolding parse_entries shown
parse_entries-encode_all buf pre [] lines e w small = rw (append-nil lines)
parse_entries-encode_all buf pre (it ∷ its) lines e w small =
    let sized : length (pre ++ encode it) ≡ length pre + entry_length it =
      omega (arith, length-append pre (encode it), length-encode it) in
    let fits = length-append (encode it) (encode_all its) in
    let here = shown it.name (value_line it.name it.value) in
    let read : parse_entry buf (pos (length pre)) ≡ next here (pos (length pre + entry_length it)) =
      ap (λ b. parse_entry b (pos (length pre))) e
      ∙ parse_entry-encode pre it.name (encode_all its) w.0 it.value w.1
          (omega (arith, fits, length-encode it)) in
    let behind : buf ≡ (pre ++ encode it) ++ encode_all its =
      e ∙ sym (append_assoc pre (encode it) (encode_all its)) in
    rw (read, parse_entries)
      (rw (← sized) (
        parse_entries-encode_all buf (pre ++ encode it) its (lines ++ here) behind w.2
          (omega (arith, fits, length-encode it, sized))
        ∙ ap (λ l. record { lines = l; end = complete; buffer_freed = true })
            (append_assoc lines here (lines_of its))))

abbrev header_bytes : List ℕ
header_bytes = 0xca ∷ 0xfe ∷ 0xc0 ∷ 0xc0 ∷ 1 ∷ 2 ∷ 0 ∷ []

module _ (used overflow modify_time : ℕ) (its : List Item) where
  abbrev prologue_bytes : List ℕ
  prologue_bytes =
      1 ∷ (le 4 used ++ (le 4 overflow ++ (le 8 modify_time ++ (le 4 32 ++ le 4 (length its)))))

  abbrev file : List ℕ
  file = encode_file used overflow modify_time its

  slice-prologue : slice file (pos 7) 25 ≡ some prologue_bytes
  slice-prologue = slice-at header_bytes prologue_bytes (encode_all its) 7 25 refl refl

  slice-file_header : slice file (pos 0) 7 ≡ some header_bytes
  slice-file_header = slice-at [] header_bytes (prologue_bytes ++ encode_all its) 0 7 refl refl

  num_entries-lem :
      length its < 2 ^ 31 → (prologue_of prologue_bytes).num_entries ≡ pos (length its)
  unfolding prologue_of
  num_entries-lem h = int32-le_4 (length its) h

  parse_body-file :
      AreItems its
      → length file < 2 ^ 31
      → length its < 2 ^ 31
      → parse_body file ≡ record { lines = lines_of its; end = complete; buffer_freed = true }
  unfolding parse_body prologue_of field_of number rounds
  parse_body-file w small few =
      rw (slice-prologue, parse_body)
        (rw (num_entries-lem few) (
          parse_entries-encode_all file (header_bytes ++ prologue_bytes) its [] refl w
            (omega (arith, small))))

  -- Every file written in the layout, with named items and in the range of `int`, is read to its
  -- end: the values of the generations are printed in order, and the buffer is given back.
  pub parse-encode_file :
      AreItems its
      → length (encode_file used overflow modify_time its) < 2 ^ 31
      → length its < 2 ^ 31
      → parse (some (encode_file used overflow modify_time its))
        ≡ record { lines = lines_of its; end = complete; buffer_freed = true }
  unfolding parse parse_header header_of field_of number
  parse-encode_file w small few = rw (slice-file_header, parse) (parse_body-file w small few)
