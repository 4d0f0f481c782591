-- ===== src/PerfData/Tests.antt =====
-- Examples for src/hsperfdata_parser.h.
use jvm.Common.{arith, ℕ, ◌≡◌, ◌≢◌, ◌⊎◌, true, false, List, [], ◌∷◌, some}
use jvm.PerfData.{complete, parse}
use jvm.Text.{codes}
use jvm.PerfData.Layout.{Item, long, text, AreItems, encode_file, lines_of}
use jvm.PerfData.RoundTrip.{parse-encode_file}
use jvm.PerfData.Laws.{AllGenerations, parse-Closed}

-- A file without entries.
abbrev file : List ℕ
file =
    202 ∷ 254 ∷ 192 ∷ 192 ∷ 1 ∷ 2 ∷ 0 ∷ 1 ∷ 32 ∷ 0 ∷ 0 ∷ 0 ∷ 0 ∷ 0 ∷ 0 ∷ 0 ∷ 0 ∷ 0 ∷ 0 ∷ 0 ∷ 0 ∷ 0
    ∷ 0 ∷ 0 ∷ 32 ∷ 0 ∷ 0 ∷ 0 ∷ 0 ∷ 0 ∷ 0 ∷ 0 ∷ []

parse-Closed_example :
    let p = parse (some file) in
    AllGenerations p.lines
    × (((p.end ≡ complete) × (p.buffer_freed ≡ true))
        ⊎ ((p.end ≢ complete) × (p.buffer_freed ≡ false)))
parse-Closed_example = parse-Closed (some file)

abbrev items : List Item
items =
    record { name = codes "sun.gc.generation.0.space"; value = long 7 }
    ∷ record { name = codes "sun.gc.cause"; value = text 3 (codes "No GC") }
    ∷ []

items-AreItems : AreItems items
items-AreItems = omega arith

parse-encode_file_example :
    parse (some (encode_file 100 0 5 items))
    ≡ record { lines = lines_of items; end = complete; buffer_freed = true }
parse-encode_file_example =
    parse-encode_file 100 0 5 items items-AreItems (omega arith) (omega arith)
