-- ===== src/StackTrace/Pretty/Laws.antt =====
-- What the report of src/ts/signal_handler.cc (StackTraceCollector::ToPrettyString) shows.
use jvm.Common.{
  Bool, true, map, sym, ◌∙◌, append_assoc, ltb, ap₂, ℕ, zero, suc, ◌-◌, ◌<◌, ◌^◌, ◌≡◌, refl, ap,
  false, List, [], ◌∷◌, ◌++◌, if◌then◌else◌, length, replicate, ℤ, arith, to_int64,
}
use jvm.Text.{codes, newline, decimal, hex, decode}
use jvm.Text.Laws.{decode-hex}
use jvm.StackTrace.Group.{Result}
use jvm.StackTrace.Group.Laws.{result_tids}
use jvm.StackTrace.Pretty.{
  to_word, setw, address_text, tids_text, frames_text, result_text, to_pretty_string,
}

-- The address that is printed reads back as the word that the unwinder gave.
pub to_word-to_int64 : (w : ℕ) → w < 2 ^ 64 → to_word (to_int64 w) ≡ w
unfolding to_word
to_word-to_int64 w h = ground arith

pub decode-address : (w : ℕ) → w < 2 ^ 64 → decode 16 0 (hex (to_word (to_int64 w))) ≡ w
decode-address w h = rw (to_word-to_int64 w h) (decode-hex w h)

-- The lines of a text, each with its end.
abbrev pub unlines : List (List ℕ) → List ℕ
unlines [] = []
unlines (l ∷ ls) = l ++ newline ∷ unlines ls

-- The texts with a separator between each two.
abbrev pub separated : List ℕ → List (List ℕ) → List ℕ
separated sep [] = []
separated sep (x ∷ []) = x
separated sep (x ∷ y ∷ xs) = x ++ (sep ++ separated sep (y ∷ xs))

-- A text on the right of a column.
abbrev pub on_right : ℕ → List ℕ → List ℕ
on_right zero xs = xs
on_right (suc w) xs =
    let rest = on_right w xs in if ltb (length xs) (suc w) then b' ' ∷ rest else rest

-- The line of a frame: its address in hexadecimal digits, on the right of 16 columns, and its name.
abbrev pub frame_line : ℤ × List ℕ → List ℕ
frame_line (a, name) = on_right 16 (codes "0x" ++ hex (to_word a)) ++ (codes " : " ++ name)

-- The lines of a result: its threads in decimal digits, a heading, its frames and an empty line.
abbrev pub lines_for : List ℕ → List (ℤ × List ℕ) → List (List ℕ)
lines_for [] trace = codes "No Threads" ∷ []
lines_for (t ∷ ts) trace =
    (codes "Threads: " ++ separated (codes ", ") (map decimal (t ∷ ts)))
    ∷ codes "Stack trace:"
    ∷ (map frame_line trace ++ [] ∷ [])

abbrev pub lines_of : List Result → List (List ℕ)
lines_of [] = []
lines_of (r ∷ rs) = lines_for r.tids r.trace ++ lines_of rs

unlines-append : (xs ys : List (List ℕ)) → unlines (xs ++ ys) ≡ unlines xs ++ unlines ys
unlines-append [] ys = refl
unlines-append (x ∷ xs) ys =
    ap (λ l. x ++ newline ∷ l) (unlines-append xs ys)
    ∙ sym (append_assoc x (newline ∷ unlines xs) (unlines ys))

setw-on_right : (w : ℕ) (xs : List ℕ) → setw w xs ≡ on_right w xs
unfolding setw
setw-on_right zero xs =
    let d : 0 - length xs ≡ 0 = omega arith in ap (λ n. replicate n b' ' ++ xs) d
setw-on_right (suc w) xs = after (ltb (length xs) (suc w)) refl (setw-on_right w xs)
  where
    after :
        (b : Bool)
        → ltb (length xs) (suc w) ≡ b
        → setw w xs ≡ on_right w xs
        → replicate (suc w - length xs) b' ' ++ xs
          ≡ (if b then b' ' ∷ on_right w xs else on_right w xs)
    after true e ih =
        let d : suc w - length xs ≡ suc (w - length xs) = ground (arith, e) in
        ap (λ n. replicate n b' ' ++ xs) d ∙ ap (◌∷◌ b' ') ih
    after false e ih =
        let d : suc w - length xs ≡ w - length xs = ground (arith, e) in
        ap (λ n. replicate n b' ' ++ xs) d ∙ ih

tids_text-separated :
    (t : ℕ) (ts : List ℕ)
    → tids_text t ts ≡ separated (codes ", ") (map decimal (t ∷ ts)) ++ newline ∷ []
unfolding tids_text
tids_text-separated t [] = refl
tids_text-separated t (u ∷ ts) =
    ap (λ l. decimal t ++ (codes ", " ++ l)) (tids_text-separated u ts)
    ∙ sym (
        append_assoc (decimal t) (codes ", " ++ separated (codes ", ") (map decimal (u ∷ ts)))
          (newline ∷ []))

frames_text-lines : (fs : List (ℤ × List ℕ)) → frames_text fs ≡ unlines (map frame_line fs)
unfolding frames_text address_text
frames_text-lines [] = refl
frames_text-lines ((a, name) ∷ fs) =
    let addr = codes "0x" ++ hex (to_word a) in
    ap₂ (λ x y. x ++ (codes " : " ++ (name ++ newline ∷ y))) (setw-on_right 16 addr)
      (frames_text-lines fs)
    ∙ (ap (λ l. on_right 16 addr ++ l)
          (sym (append_assoc (codes " : ") name (newline ∷ unlines (map frame_line fs))))
        ∙ sym (
            append_assoc (on_right 16 addr) (codes " : " ++ name)
              (newline ∷ unlines (map frame_line fs))))

result_text-lines : (r : Result) (ts : List ℕ) → result_text r ts ≡ unlines (lines_for ts r.trace)
unfolding result_text
result_text-lines r [] = refl
result_text-lines r (t ∷ ts) =
    let tids = separated (codes ", ") (map decimal (t ∷ ts)) in
    let frames = unlines (map frame_line r.trace) ++ newline ∷ [] in
    ap₂ (λ x y. codes "Threads: " ++ (x ++ (codes "Stack trace:" ++ newline ∷ (y ++ newline ∷ []))))
      (tids_text-separated t ts) (frames_text-lines r.trace)
    ∙ (ap (λ l. codes "Threads: " ++ l)
          (append_assoc tids (newline ∷ []) (codes "Stack trace:" ++ newline ∷ frames))
        ∙ (ap (λ l. codes "Threads: " ++ (tids ++ newline ∷ (codes "Stack trace:" ++ newline ∷ l)))
              (sym (unlines-append (map frame_line r.trace) ([] ∷ [])))
            ∙ sym (
                append_assoc (codes "Threads: ") tids (
                  newline
                  ∷ (codes "Stack trace:"
                      ++ newline ∷ unlines (map frame_line r.trace ++ [] ∷ []))))))

-- The report of the results is the text of these lines: for a result with threads, their numbers in
-- decimal digits with ", " between each two, behind "Threads: "; "Stack trace:"; for each frame its
-- address, as the hexadecimal digits of its 64 bits behind "0x", on the right of 16 columns, then
-- " : " and its name; and an empty line. For a result without threads there is the line
-- "No Threads". The callback is given the threads of all results, in order.
pub to_pretty_string-lines :
    (rs : List Result) → to_pretty_string rs ≡ (unlines (lines_of rs), result_tids rs)
unfolding to_pretty_string
to_pretty_string-lines [] = refl
to_pretty_string-lines (r ∷ rs) =
    ap₂ (λ x y. (x, r.tids ++ y))
      (ap₂ ◌++◌ (result_text-lines r r.tids) (ap (λ p. p.0) (to_pretty_string-lines rs))
        ∙ sym (unlines-append (lines_for r.tids r.trace) (lines_of rs)))
      (ap (λ p. p.1) (to_pretty_string-lines rs))
