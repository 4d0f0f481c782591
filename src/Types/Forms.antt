-- ===== src/Types/Forms.antt =====
-- The types of what src/ts/signal_handler.cc writes into a form: each address is an int64_t.
use jvm.Common.{
  ℕ, suc, zero, ◌≡◌, subst, sym, true, List, [], ◌∷◌, ◌++◌, Option, none, some, take, ℤ, pos, arith,
}
use jvm.Types.{CType, int64, uint64, static_asserts, holds, holds-to_int64, uint64-lt}
use jvm.StackTrace.Form.{StackTraceForm, IsForm, trace, max_depth}
use jvm.StackTrace.Handler.{
  Siginfo, Unwind, skip_frame, frames, answers, internal_handler, internal_handler-records,
}

module _ (sizeof : CType → ℕ) where
  abbrev pub AllInt64 : List ℤ → Type 0
  AllInt64 [] = Unit {0}
  AllInt64 (a ∷ more) = (holds sizeof int64 a ≡ true) × AllInt64 more

  -- The registers that libunwind gives are words of 64 bits.
  abbrev pub AllWords : List (ℤ × Option ℕ) → Type 0
  AllWords [] = Unit {0}
  AllWords ((ret, none) ∷ rest) = AllWords rest
  AllWords ((ret, some ip) ∷ rest) = (holds sizeof uint64 (pos ip) ≡ true) × AllWords rest

  AllInt64-append : (xs ys : List ℤ) → AllInt64 xs → AllInt64 ys → AllInt64 (xs ++ ys)
  AllInt64-append [] ys h k = k
  AllInt64-append (x ∷ xs) ys h k = (h.0, AllInt64-append xs ys h.1 k)

  AllInt64-take : (n : ℕ) (xs : List ℤ) → AllInt64 xs → AllInt64 (take n xs)
  AllInt64-take zero xs h = tt
  AllInt64-take (suc n) [] h = tt
  AllInt64-take (suc n) (x ∷ xs) h = (h.0, AllInt64-take n xs h.1)

  module _ (compiled : static_asserts sizeof ≡ true) where
    frames-AllInt64 : (steps : List (ℤ × Option ℕ)) → AllWords steps → AllInt64 (frames steps)
    unfolding frames
    frames-AllInt64 [] h = tt
    frames-AllInt64 ((ret, none) ∷ rest) h = ground (arith, frames-AllInt64 rest h)
    frames-AllInt64 ((ret, some ip) ∷ rest) h = ground (
      arith,
      frames-AllInt64 rest h.1,
      holds-to_int64 sizeof compiled ip (uint64-lt sizeof compiled ip h.0),
    )

    -- When the compiler accepts the sizes of the integer types and libunwind gives words of 64 bits,
    -- a signal that is answered leaves a form in whose trace each address is an int64_t, if each
    -- was before.
    pub internal_handler-AllInt64 :
        (pid : ℕ) (info : Siginfo) (u : Unwind) (f : StackTraceForm)
        → info.sival_ptr ≡ some f
        → answers pid info u ≡ true
        → IsForm f
        → AllInt64 (trace f)
        → AllWords (skip_frame u.steps)
        → (f' : StackTraceForm) × ((internal_handler pid info u).form ≡ some f')
          × IsForm f'
          × AllInt64 (trace f')
    internal_handler-AllInt64 pid info u f e a v h w =
        let r = internal_handler-records pid info u f e a v in
        let offered = frames-AllInt64 (skip_frame u.steps) w in
        (
          r.0,
          r.1,
          r.2,
          subst AllInt64 (sym r.4) (
              AllInt64-take max_depth (trace f ++ frames (skip_frame u.steps))
                (AllInt64-append (trace f) (frames (skip_frame u.steps)) h offered)),
        )
