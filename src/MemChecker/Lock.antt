-- ===== src/MemChecker/Lock.antt =====
-- src/mem_checker.cpp, trace_lock, and the update of `mem_` under it. The constructor takes the
-- mutex by value: it spins on a copy, which only its own thread can see.
use native.Mathlib.Nat.{zero-add}
use jvm.Common.{
  update, ap, ℕ, zero, suc, ◌+◌, ◌%◌, ◌≤◌, ◌<◌, ◌≡◌, ◌≢◌, refl, ℕ_discrete, two64, arith,
}

-- Where a thread is in `mem_checker::add`, with the copy of the mutex and the value of `mem_` that
-- it has read.
pub data Pc : Type 0 where
  outside : Pc
  spinning : (copy : ℕ) → Pc
  entered : (copy : ℕ) → Pc
  loaded : (copy mem : ℕ) → Pc
  stored : (copy : ℕ) → Pc
  left : Pc

pub record System : Type 0 where
  -- `m_mutex_`
  pub mutex : ℕ
  pub mem : ℕ
  pub pc : ℕ → Pc

-- `len i` is what thread `i` adds.
pub data Step (len : ℕ → ℕ) (s : System) : System → Type 0 where
  -- the call of the constructor copies its argument
  construct :
      (i : ℕ) → s.pc i ≡ outside → Step len s (record s { pc = update s.pc i (spinning s.mutex) })
  -- `__sync_bool_compare_and_swap(mutex_, 0, 1)` on the copy
  swap : (i : ℕ) → s.pc i ≡ spinning 0 → Step len s (record s { pc = update s.pc i (entered 1) })
  -- the compare fails: sleep and try again
  sleep : (i copy : ℕ) → s.pc i ≡ spinning copy → copy ≢ 0 → Step len s s
  load :
      (i copy : ℕ)
      → s.pc i ≡ entered copy
      → Step len s (record s { pc = update s.pc i (loaded copy s.mem) })
  store :
      (i copy mem : ℕ)
      → s.pc i ≡ loaded copy mem
      → Step len s (record s { pc = update s.pc i (stored copy); mem = (mem + len i) % two64 })
  -- the destructor swaps on the copy too
  destruct : (i copy : ℕ) → s.pc i ≡ stored copy → Step len s (record s { pc = update s.pc i left })

abbrev pub init : System
init = record { mutex = 0; mem = 0; pc = λ _. outside }

pub data Reach (len : ℕ → ℕ) : System → Type 0 where
  start : Reach len init
  later : {s t : System} → Reach len s → Step len s t → Reach len t

enter-all :
    (len : ℕ → ℕ) (n : ℕ)
    → (s : System) × Reach len s
      × (s.mutex ≡ 0)
      × ((i : ℕ) → i < n → s.pc i ≡ entered 1)
      × ((i : ℕ) → n ≤ i → s.pc i ≡ outside)
enter-all len zero = (init, start, refl, λ i h. absurd (omega arith), λ i h. refl)
enter-all len (suc n) =
    let (s, r, m, inside, rest) = enter-all len n in
    let t : System = record s { pc = update s.pc n (spinning s.mutex) } in
    let u : System = record t { pc = update t.pc n (entered 1) } in
    (
      u,
      later (later r (construct n (rest n (omega arith)))) (swap n (ground arith)),
      m,
      λ i h. ground (arith, inside i),
      λ i h. ground (arith, rest i),
    )

-- The first `n` threads are all between the constructor and the destructor of their lock.
abbrev pub AllEntered : ℕ → (ℕ → Pc) → Type 0
AllEntered zero pc = Unit {0}
AllEntered (suc n) pc = (pc n ≡ entered 1) × AllEntered n pc

all-AllEntered : (n : ℕ) (pc : ℕ → Pc) → ((i : ℕ) → i < n → pc i ≡ entered 1) → AllEntered n pc
all-AllEntered zero pc h = tt
all-AllEntered (suc n) pc h = (h n (omega arith), all-AllEntered n pc (λ i lt. h i (omega arith)))

-- The defect: however many threads there are, all of them can be between the constructor and the
-- destructor of their lock at once.
pub no_exclusion : (len : ℕ → ℕ) (n : ℕ) → (s : System) × Reach len s × AllEntered n s.pc
no_exclusion len n =
    let (s, r, m, inside, rest) = enter-all len n in (s, r, all-AllEntered n s.pc inside)

-- What the mutex is and what the copies can be.
record Inv (s : System) : Type 0 where
  free : s.mutex ≡ 0
  copies : (i copy : ℕ) → s.pc i ≡ spinning copy → copy ≡ 0

Step-Inv : {len : ℕ → ℕ} {s t : System} → Step len s t → Inv s → Inv t
Step-Inv {s} (construct i o) v = record {
  free = v.free;
  copies = λ j c e. ground (arith, v.free, v.copies j c);
}
Step-Inv {s} (swap i o) v = record { free = v.free; copies = λ j c e. ground (arith, v.copies j c) }
Step-Inv {s} (sleep i copy o ne) v = v
Step-Inv {s} (load i copy o) v = record {
  free = v.free;
  copies = λ j c e. ground (arith, v.copies j c);
}
Step-Inv {s} (store i copy mem o) v = record {
  free = v.free;
  copies = λ j c e. ground (arith, v.copies j c);
}
Step-Inv {s} (destruct i copy o) v = record {
  free = v.free;
  copies = λ j c e. ground (arith, v.copies j c);
}

Reach-Inv : {len : ℕ → ℕ} {s : System} → Reach len s → Inv s
Reach-Inv start = record { free = refl; copies = λ i c e. cc }
Reach-Inv (later r st) = Step-Inv st (Reach-Inv r)

-- The mutex itself is never taken: a thread at its lock holds a free copy, so it never waits.
pub never_waits :
    {len : ℕ → ℕ} {s : System}
    → Reach len s
    → (i copy : ℕ) → s.pc i ≡ spinning copy
    → (s.mutex ≡ 0) × (copy ≡ 0)
never_waits r i copy e = let v = Reach-Inv r in (v.free, v.copies i copy e)

-- The consequence: of two threads that add their lengths, one update of the count can be lost.
lost_update :
    (len : ℕ → ℕ)
    → (s : System) × Reach len s × (s.pc 0 ≡ left) × (s.pc 1 ≡ left) × (s.mem ≡ len 1 % two64)
unfolding ℕ_discrete
lost_update len =
    let outside_ : Reach len init = start in
    let entered_0 = later (later outside_ (construct 0 refl)) (swap 0 refl) in
    let entered_1 = later (later entered_0 (construct 1 refl)) (swap 1 refl) in
    let loaded_ = later (later entered_1 (load 0 1 refl)) (load 1 1 refl) in
    let stored_ = later (later loaded_ (store 0 1 0 refl)) (store 1 1 0 refl) in
    let left_ = later (later stored_ (destruct 0 1 refl)) (destruct 1 1 refl) in
    (_, left_, refl, refl, ap (λ n. n % two64) (zero-add (len 1)))
