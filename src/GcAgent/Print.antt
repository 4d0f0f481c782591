-- ===== src/GcAgent/Print.antt =====
-- agent.cpp, printGCTime and the callbacks that call it. The time, what localtime_r and strftime make
-- of its seconds, and whether calloc works are arguments.
pub mod Laws
use jvm.Common.{
  if◌then◌else◌, ℕ, suc, ◌-◌, Bool, true, false, List, [], ◌∷◌, ◌++◌, Option, none, some, length,
  replicate,
}
use jvm.Text.{codes, decimal, newline}

pub data Callback : Type 0 where
  garbage_collection_start garbage_collection_finish : Callback

pub record Event : Type 0 where
  pub callback : Callback
  pub tv_sec : ℕ
  pub tv_usec : ℕ
  pub calloc : Bool

-- The lines on stderr, and the blocks allocated and freed.
pub record Printed : Type 0 where
  pub lines : List (List ℕ)
  pub allocated : ℕ
  pub freed : ℕ

abbrev pub type_of : Callback → List ℕ
type_of garbage_collection_start = codes "Start "
type_of garbage_collection_finish = codes "Finish"

-- `%06d` of a number that is not negative.
unfoldable pub six : ℕ → List ℕ
six n = replicate (6 - length (decimal n)) b'0' ++ decimal n

infixl 5 ◌>>=◌
abbrev pub ◌>>=◌ : Option Printed → (Printed → Option Printed) → Option Printed
none >>= f = none
some p >>= f = f p

module _ (strftime : ℕ → List ℕ) where
  unfoldable pub line : Event → List ℕ
  unfolding six
  line e =
      codes "GC "
      ++ type_of e.callback
      ++ codes ": "
      ++ strftime e.tv_sec
      ++ codes "."
      ++ six e.tv_usec
      ++ newline ∷ []

  -- `none` where strftime writes through the null pointer.
  unfoldable pub print_gc_time : Event → Printed → Option Printed
  unfolding line
  print_gc_time e p =
      if e.calloc
      then some (record {
        lines = p.lines ++ line e ∷ [];
        allocated = suc p.allocated;
        freed = suc p.freed;
      })
      else none

  unfoldable pub run : List Event → Printed → Option Printed
  unfolding print_gc_time
  run [] p = some p
  run (e ∷ es) p = print_gc_time e p >>= run es
