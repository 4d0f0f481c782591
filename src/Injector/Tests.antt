-- ===== src/Injector/Tests.antt =====
-- Examples for src/trace.h.
use jvm.Common.{
  ℕ, zero, suc, ◌+◌, ◌-◌, ◌*◌, ◌<◌, ◌≡◌, ◌⊎◌, refl, ap, List, [], ◌∷◌, ◌++◌, true, ◌==◌, ltb, leb,
  ◌&&◌, if◌then◌else◌, length, get_or, arith, pos, none, some,
}
use jvm.Text.{codes}
use jvm.PerfData.Layout.{le}
use jvm.Injector.Run.{ok, undefined}
use jvm.Injector.Inject.{Process, Calls, ret_addr, inject_code}
use jvm.Injector.Inject.Laws.{Gets, Sets, AllWork, AtCall, inject_code-bytes}
use jvm.Injector.Elf.{LmapResult, read_dyn, handle_one_lmap}
use jvm.Injector.Elf.Laws.{bytes_from, handle_one_lmap-no_result}
use jvm.Injector.Search.{LinkMap, find_symbol_in_linkmap, find_symbol}
use jvm.Injector.Search.Ends.{Outcome, find_symbol_in_linkmap-Outcome}

-- The memory of a process as a function, and the two calls on it.
abbrev byte : (ℕ → ℕ) → ℕ → ℕ
byte m a = m a

abbrev getdata : (ℕ → ℕ) → ℕ → ℕ → List ℕ
getdata m a n = bytes_from m n a

abbrev setdata : (ℕ → ℕ) → ℕ → List ℕ → ℕ → ℕ
setdata m a xs b = if leb a b && ltb b (a + length xs) then get_or xs (b - a) 0 else m b

length-bytes_from : (m : ℕ → ℕ) (a n : ℕ) → length (bytes_from m n a) ≡ n
length-bytes_from m a zero = refl
length-bytes_from m a (suc n) = ap suc (length-bytes_from m (suc a) n)

get_or-bytes_from : (m : ℕ → ℕ) (a n i : ℕ) → i < n → get_or (bytes_from m n a) i 0 ≡ m (a + i)
get_or-bytes_from m a zero i h = absurd (omega (arith, h))
get_or-bytes_from m a (suc n) zero h = ap m (omega arith)
get_or-bytes_from m a (suc n) (suc i) h =
    let e : a + suc i ≡ suc a + i = omega arith in
    rw e (get_or-bytes_from m (suc a) n i (omega (arith, h)))

getdata-Gets : Gets getdata byte
getdata-Gets = record { length_lem = length-bytes_from; bytes_lem = get_or-bytes_from }

setdata-Sets : Sets setdata byte
setdata-Sets m a xs b = refl

abbrev calls : Calls
calls = record { setregs_1 = pos 0; cont = pos 0; setregs_2 = pos 0 }

calls-AllWork : AllWork calls
calls-AllWork = record { setregs_1_works = refl; cont_works = refl; setregs_2_works = refl }

abbrev process : Process (ℕ → ℕ)
process = record { memory = λ a. 7; regs = record { rsp = 1000; rdi = 1; rsi = 2; rip = 3 } }

-- The call uses the stack below its return address and a place on the heap, and comes back with the
-- stack pointer behind the return address.
abbrev call : Process (ℕ → ℕ) → Process (ℕ → ℕ)
call q = record {
  memory = setdata (setdata q.memory 980 (1 ∷ 2 ∷ [])) 50000 (3 ∷ []);
  regs = record q.regs { rsp = q.regs.rsp + 8; rip = ret_addr };
}

inject_code-bytes_example :
    (s : Process (ℕ → ℕ)) × (q : Process (ℕ → ℕ)) × (inject_code getdata setdata 16 true calls call
        process 5000
        (codes "a.so")
      ≡ ok q)
    × AtCall 16 byte process 5000 (codes "a.so") s
    × (q.regs ≡ process.regs)
    × ((b : ℕ)
        → q.memory b
          ≡ (if leb 1000 b && ltb b (1000 + 2 * 16) then process.memory b else (call s).memory b))
inject_code-bytes_example =
    inject_code-bytes getdata setdata 16 true byte getdata-Gets setdata-Sets calls call process 5000
      (codes "a.so") calls-AllWork (omega arith) (omega arith) (omega arith)

-- A section at 300: the tag 6 with the value 0x10000.
abbrev aligned : ℕ → ℕ
aligned a = if a == 300 then 6 else if a == 310 then 1 else 0

aligned-small : (a : ℕ) → aligned a < 256
aligned-small a = ground arith

handle_one_lmap-no_result_example :
    (handle_one_lmap (getdata aligned) 5 0 300 ≡ undefined)
    ⊎ (handle_one_lmap (getdata aligned) 5 0 300 ≡ ok none)
unfolding read_dyn
handle_one_lmap-no_result_example =
    handle_one_lmap-no_result (getdata aligned) aligned (λ a n. refl) aligned-small 3 0 300
      (record { d_tag = 6; d_un = 0x10000 }) (omega arith) refl (λ e. absurd (omega (arith, e)))
      (omega arith) refl

-- A library at 200, whose entries can be read two bytes apart, and its one symbol "mm".
abbrev library_data : ℕ → ℕ → List ℕ
library_data a n =
    if a == 200
    then le 8 4096 ++ (le 8 2100 ++ (le 8 300 ++ le 8 0))
    else if a == 300
    then le 8 6 ++ le 8 1000
    else if a == 302
    then le 8 5 ++ le 8 2000
    else if a == 304
    then le 8 11 ++ le 8 24
    else if a == 306
    then le 8 19 ++ le 8 24
    else if a == 1000
    then le 8 1 ++ (le 8 5 ++ le 8 9)
    else []

abbrev library_text : ℕ → List ℕ
library_text a = if a == 2001 then codes "mm" else if a == 2100 then codes "lib" else []

abbrev library : LinkMap
library = record { l_addr = 4096; l_name = 2100; l_ld = 300; l_next = 0 }

abbrev tables : LmapResult
tables = record {
  symtab = some 1000;
  strtab = some 2000;
  jmprel = none;
  reldyn = none;
  link_addr = 4096;
  nsymbols = none;
  nrelplts = none;
  nreldyns = none;
}

find_symbol_in_linkmap-Outcome_example :
    Outcome library_data library_text 4096 1000 2000
      (codes "mm")
      9
      0
      (find_symbol_in_linkmap library_data library_text library (codes "mm") 9)
unfolding handle_one_lmap
find_symbol_in_linkmap-Outcome_example =
    find_symbol_in_linkmap-Outcome library_data library_text library tables 1000 2000 (codes "mm") 9
      refl refl refl

found_mm : find_symbol library_data library_text 3 200 (codes "mm") 9 ≡ ok 4101
unfolding find_symbol find_symbol_in_linkmap handle_one_lmap
found_mm = refl
