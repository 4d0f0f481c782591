-- ===== src/StackTrace/Signals/Laws.antt =====
-- What the signalling step of src/ts/signal_handler.cc (StackTraceCollector::Collect) promises.
use jvm.Common.{
  ℕ, ◌<◌, ◌≡◌, refl, ap, ◌∙◌, sym, Bool, not, List, [], ◌∷◌, ◌++◌, map, arith, inl, inr, Bool-cases,
  if◌then◌else◌, append_assoc, append-nil,
}
use jvm.StackTrace.Form.{new_form}
use jvm.StackTrace.Signals.{
  insert, set_of, set_difference, Process, Signalled, request, reached, signal_from, signal_all,
  Above, IsIncreasing,
}

insert-Above : (n t : ℕ) (xs : List ℕ) → n < t → Above n xs → Above n (insert t xs)
unfolding insert
insert-Above n t [] h a = (h, tt)
insert-Above n t (x ∷ xs) h a = ground (arith, insert-Above n t xs h a.1)

Above-trans : (m n : ℕ) (xs : List ℕ) → m < n → Above n xs → Above m xs
Above-trans m n [] h a = tt
Above-trans m n (x ∷ xs) h a = (omega arith, Above-trans m n xs h a.1)

insert-IsIncreasing : (t : ℕ) (xs : List ℕ) → IsIncreasing xs → IsIncreasing (insert t xs)
unfolding insert
insert-IsIncreasing t [] s = (tt, tt)
insert-IsIncreasing t (x ∷ xs) s =
    ground (arith, insert-IsIncreasing t xs s.1, insert-Above x t xs, Above-trans t x xs)

pub set_of-IsIncreasing : (xs : List ℕ) → IsIncreasing (set_of xs)
unfolding set_of
set_of-IsIncreasing [] = tt
set_of-IsIncreasing (x ∷ xs) = insert-IsIncreasing x (set_of xs) (set_of-IsIncreasing xs)

-- Those of `xs` that a test keeps.
abbrev pub kept : (ℕ → Bool) → List ℕ → List ℕ
kept p [] = []
kept p (x ∷ xs) = if p x then x ∷ kept p xs else kept p xs

kept-Above : (p : ℕ → Bool) (n : ℕ) (xs : List ℕ) → Above n xs → Above n (kept p xs)
kept-Above p n [] a = tt
kept-Above p n (x ∷ xs) a = ground (arith, kept-Above p n xs a.1)

set_difference-nil : (xs : List ℕ) → set_difference xs [] ≡ xs
unfolding set_difference
set_difference-nil [] = refl
set_difference-nil (x ∷ xs) = refl

set_difference-Above :
    (x : ℕ) (xs ys : List ℕ) → Above x ys → set_difference (x ∷ xs) ys ≡ x ∷ set_difference xs ys
unfolding set_difference
set_difference-Above x xs [] a = rw (set_difference-nil xs)
set_difference-Above x xs (y ∷ ys) a = ground arith

set_difference_self :
    (x : ℕ) (xs ys : List ℕ) → set_difference (x ∷ xs) (x ∷ ys) ≡ set_difference xs ys
unfolding set_difference
set_difference_self x xs ys = ground arith

-- Taking the failed threads away leaves the others.
set_difference-kept :
    (p : ℕ → Bool) (xs : List ℕ)
    → IsIncreasing xs
    → set_difference xs (kept (λ x. not (p x)) xs) ≡ kept p xs
unfolding set_difference
set_difference-kept p [] s = refl
set_difference-kept p (x ∷ xs) s = elim (Bool-cases (p x)) [
  | inl e ↦ rw e (
      set_difference-Above x xs (kept (λ y. not (p y)) xs) (kept-Above (λ y. not (p y)) x xs s.0)
      ∙ ap (◌∷◌ x) (set_difference-kept p xs s.1))
  | inr e ↦ rw e (set_difference_self x xs _ ∙ set_difference-kept p xs s.1)
]

Above-middle : (n t : ℕ) (xs ys : List ℕ) → Above n (xs ++ t ∷ ys) → Above n (xs ++ ys)
Above-middle n t [] ys a = a.1
Above-middle n t (x ∷ xs) ys a = (a.0, Above-middle n t xs ys a.1)

IsIncreasing-middle :
    (t : ℕ) (xs ys : List ℕ) → IsIncreasing (xs ++ t ∷ ys) → IsIncreasing (xs ++ ys)
IsIncreasing-middle t [] ys s = s.1
IsIncreasing-middle t (x ∷ xs) ys s = (Above-middle x t xs ys s.0, IsIncreasing-middle t xs ys s.1)

Above-mem : (n t : ℕ) (xs ys : List ℕ) → Above n (xs ++ t ∷ ys) → n < t
Above-mem n t [] ys a = a.0
Above-mem n t (x ∷ xs) ys a = Above-mem n t xs ys a.1

insert-last : (t : ℕ) (xs ys : List ℕ) → IsIncreasing (xs ++ t ∷ ys) → insert t xs ≡ xs ++ t ∷ []
unfolding insert
insert-last t [] ys s = refl
insert-last t (x ∷ xs) ys s = ground (arith, Above-mem x t xs ys s.0, insert-last t xs ys s.1)

module _ (p : Process) (fd : ℕ) where
  abbrev pub lost : ℕ → Bool
  lost t = not (reached p fd t)

  signal_from-lem :
      (s : Signalled) (tids : List ℕ)
      → IsIncreasing (s.failed_tids ++ tids)
      → (let r = signal_from p fd s tids in
          (r.failed_tids ≡ s.failed_tids ++ kept lost tids)
          × (r.slot ≡ s.slot ++ map (request p fd) (kept (reached p fd) tids)))
  unfolding signal_from
  signal_from-lem s [] h = (sym (append-nil s.failed_tids), sym (append-nil s.slot))
  signal_from-lem s (t ∷ tids) h = elim (Bool-cases (reached p fd t)) [
    | inl ok ↦
        let ih =
          signal_from-lem (record s { slot = s.slot ++ request p fd t ∷ [] }) tids
            (IsIncreasing-middle t s.failed_tids tids h) in
        rw (ok, signal_from) (ih.0, ih.1 ∙ append_assoc s.slot (request p fd t ∷ []) _)
    | inr bad ↦
        let e = insert-last t s.failed_tids tids h in
        let ih =
          signal_from-lem (record s { failed_tids = insert t s.failed_tids }) tids
            (rw (e, append_assoc s.failed_tids (t ∷ []) tids) h) in
        rw (bad, signal_from) (ih.0 ∙ (rw e (append_assoc s.failed_tids (t ∷ []) _)), ih.1)
  ]

  map-request : (tids : List ℕ) → map (λ f. f.tid) (map (request p fd) tids) ≡ tids
  unfolding request new_form
  map-request [] = refl
  map-request (t ∷ tids) = ap (◌∷◌ t) (map-request tids)

  -- The slots hold a form for each thread that was reached, in the order of the threads.
  pub signal_all-slot :
      (tids : List ℕ)
      → IsIncreasing tids
      → (signal_all p fd tids).slot ≡ map (request p fd) (kept (reached p fd) tids)
  unfolding signal_all
  signal_all-slot tids h = (signal_from-lem (record { failed_tids = []; slot = [] }) tids h).1

  -- The threads left when the failed ones are taken from the set of all threads are those that have
  -- a form in the slots, in the same order.
  pub signal_all-tids :
      (tids : List ℕ)
      → IsIncreasing tids
      → let r = signal_all p fd tids in set_difference tids r.failed_tids ≡ map (λ f. f.tid) r.slot
  unfolding signal_all
  signal_all-tids tids h =
      let r = signal_from-lem (record { failed_tids = []; slot = [] }) tids h in
      rw (r.0, r.1)
        (set_difference-kept (reached p fd) tids h ∙ sym (map-request (kept (reached p fd) tids)))
