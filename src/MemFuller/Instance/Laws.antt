-- ===== src/MemFuller/Instance/Laws.antt =====
-- When mem_fuller::instance (src/trace_util.h) gives all threads one object.
use jvm.Common.{ℕ, ◌≡◌, ◌≢◌, refl, some, arith}
use jvm.Common.{update}
use jvm.MemFuller.Instance.{
  outside, creating, got, State, Step, test_null, test_set, create, return_self, Steps, here, next,
  init,
}

-- The object is there, nobody is about to make another, and whoever has got one has got this.
record Settled (object : ℕ) (s : State) : Type 0 where
  is_self : s.self ≡ some object
  nobody : (i : ℕ) → s.pc i ≢ creating
  same : (i other : ℕ) → s.pc i ≡ got other → other ≡ object

Step-Settled : (object : ℕ) {s t : State} → Step s t → Settled object s → Settled object t
Step-Settled object {s} (test_null i o n) v = absurd (ground (arith, v.is_self))
Step-Settled object {s} (test_set i other o e) v = record {
  is_self = v.is_self;
  nobody = λ j. ground (arith, v.nobody j);
  same = λ j k. ground (arith, v.same j k);
}
Step-Settled object {s} (create i o) v = absurd (v.nobody i o)
Step-Settled object {s} (return_self i other o e) v = record {
  is_self = v.is_self;
  nobody = λ j. ground (arith, v.nobody j);
  same = λ j k. ground (arith, v.same j k, v.is_self);
}

Steps-Settled : (object : ℕ) {s t : State} → Steps s t → Settled object s → Settled object t
Steps-Settled object here v = v
Steps-Settled object (next r st) v = Step-Settled object st (Steps-Settled object r v)

-- When a first call has returned before any other has begun, all later calls give its object,
-- however they interleave.
first_call-same :
    {s : State} (i j other : ℕ)
    → Steps (record { self = some 0; made = 1; pc = update (λ _. outside) i (got 0) }) s
    → s.pc j ≡ got other
    → (other ≡ 0) × (s.self ≡ some 0)
first_call-same {s} i j other r e =
    let v : Settled 0 s =
      Steps-Settled 0 r
        (record { is_self = refl; nobody = λ k. ground arith; same = λ k o. ground arith }) in
    (v.same j other e, v.is_self)

-- Two calls that both make their test first give two objects, and the later one stays.
two_objects :
    (i j : ℕ)
    → i ≢ j
    → (s : State) × Steps init s
      × (s.pc i ≡ got 0)
      × (s.pc j ≡ got 1)
      × (s.self ≡ some 1)
      × (s.made ≡ 2)
two_objects i j ne =
    let r₁ = next (next here (test_null i refl refl)) (test_null j (ground arith) refl) in
    let r₂ = next (next r₁ (create i (ground arith))) (return_self i 0 (ground arith) refl) in
    let r₃ = next (next r₂ (create j (ground arith))) (return_self j 1 (ground arith) refl) in
    (_, r₃, ground arith, ground arith, refl, refl)
