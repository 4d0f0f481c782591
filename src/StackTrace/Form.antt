-- ===== src/StackTrace/Form.antt =====
-- src/ts/signal_handler.cc, ThreadStack and StackTraceForm: the area into which the signal
-- handler of a thread writes its stack trace.
use native.Mathlib.Numerals.{add-one}
use jvm.Common.{
  ℕ, ◌+◌, ◌≤◌, ◌<◌, ◌≡◌, refl, ◌∙◌, sym, Bool, true, false, List, [], ◌∷◌, ◌++◌, arith, leb, dec_lt,
  leb-eq_true, leb-eq_false, length-append, if◌then◌else◌, length, set, take, length-set,
  length-take, take-all, take-set_end, take-append_left, ℤ, pos, eqb_ℤ,
}

abbrev pub max_depth : ℕ
max_depth = 100

-- `address` is the whole array; its first `depth` elements are the trace.
pub record ThreadStack : Type 0 where
  pub tid : ℕ
  pub address : List ℤ
  pub depth : ℕ

pub record StackTraceForm : Type 0 where
  pub ack_fd : ℕ
  pub stack : ThreadStack
  pub open stack use *

-- The constructor leaves the array uninitialised: `memory` is what stands there.
unfoldable pub new_form : ℕ → ℕ → List ℤ → StackTraceForm
new_form tid ack_fd memory = record {
  ack_fd = ack_fd;
  stack = record { tid = tid; address = memory; depth = 0 };
}

unfoldable pub add_address : StackTraceForm → ℤ → StackTraceForm × Bool
add_address f a = if leb max_depth f.depth then (f, false) else (
  record f { stack = record f.stack { address = set f.address f.depth a; depth = f.depth + 1 } },
  true,
)

-- What the handler writes to a descriptor.
pub record Written : Type 0 where
  pub fd : ℕ
  pub bytes : List ℕ

-- `ret` is what `write` returns.
unfoldable pub submit : StackTraceForm → ℤ → Written × Bool
submit f ret = (record { fd = f.ack_fd; bytes = b'y' ∷ [] }, eqb_ℤ ret (pos 1))

-- What `stack()` shows of the array.
abbrev pub trace : StackTraceForm → List ℤ
trace f = take f.depth f.address

-- The array has its declared size, and the depth lies within it.
pub record IsForm (f : StackTraceForm) : Type 0 where
  pub sized : length f.address ≡ max_depth
  pub within : f.depth ≤ max_depth

pub new_form-IsForm :
    (tid ack_fd : ℕ) (memory : List ℤ)
    → length memory ≡ max_depth
    → IsForm (new_form tid ack_fd memory)
unfolding new_form
new_form-IsForm tid ack_fd memory h = record { sized = h; within = omega arith }

pub add_address-IsForm : {f : StackTraceForm} (a : ℤ) → IsForm f → IsForm (add_address f a).0
unfolding add_address
add_address-IsForm {f} a v = ground (arith, length-set f.address f.depth a)

-- Adding an address appends it to the trace, or is refused on a full form.
pub add_address-trace :
    (f : StackTraceForm) (a : ℤ)
    → IsForm f
    → trace (add_address f a).0 ≡ take max_depth (trace f ++ a ∷ [])
unfolding add_address
add_address-trace f a v = elim (dec_lt f.depth max_depth) [
  | yes room ↦
      rw (leb-eq_false max_depth f.depth room, add-one f.depth)
        (take-set_end f.depth f.address a (omega (arith, v.sized)) ∙ sym (fits room))
  | no full ↦ rw (leb-eq_true max_depth f.depth (omega arith)) (sym (cut (omega arith)))
]
  where
    fits : f.depth < max_depth → take max_depth (trace f ++ a ∷ []) ≡ trace f ++ a ∷ []
    fits room =
        take-all max_depth (trace f ++ a ∷ [])
          (omega (arith, length-append (trace f) (a ∷ []), length-take f.depth f.address))

    cut : f.depth ≡ max_depth → take max_depth (trace f ++ a ∷ []) ≡ trace f
    cut e =
        take-append_left max_depth (trace f) (a ∷ [])
          (omega (arith, v.sized, length-take f.depth f.address))

pub trace-new_form : (tid ack_fd : ℕ) (memory : List ℤ) → trace (new_form tid ack_fd memory) ≡ []
unfolding new_form
trace-new_form tid ack_fd memory = refl

-- A refused address leaves the form as it was.
pub add_address-full :
    (f : StackTraceForm) (a : ℤ) → (add_address f a).1 ≡ false → (add_address f a).0 ≡ f
unfolding add_address
add_address-full f a h = ground arith

pub add_address-full_trace :
    (f : StackTraceForm) (a : ℤ)
    → IsForm f
    → (add_address f a).1 ≡ false
    → length (trace f) ≡ max_depth
unfolding add_address
add_address-full_trace f a v h = ground (arith, length-take f.depth f.address)

-- Neither the thread nor the descriptor of a form changes.
pub add_address-tid :
    (f : StackTraceForm) (a : ℤ)
    → ((add_address f a).0.tid ≡ f.tid) × ((add_address f a).0.ack_fd ≡ f.ack_fd)
unfolding add_address
add_address-tid f a = ground arith
