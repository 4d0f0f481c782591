-- ===== src/TraceAgent/Callbacks/Laws.antt =====
-- What the callbacks of src/trace_agent.h print and keep.
use jvm.Common.{
  Bool-cases, ℕ_discrete, ℕ, ◌≡◌, ◌≢◌, ◌⊎◌, inl, inr, refl, ap, sym, ◌∙◌, Bool, true, false, ◌||◌,
  List, [], ◌∷◌, ◌++◌, append_assoc, append-nil, length, take, ◌↔◌, arith,
}
use jvm.Text.{codes}
use jvm.Text.Laws.{strncmp_eq-take}
use jvm.TraceAgent.Callbacks.{
  object_line, Log, of_the_platform, object_alloc, exception_fun, thread_start, thread_end,
  Callback, on_alloc, on_exception, on_start, on_end, run,
}

-- The name in a callback.
abbrev pub name_of : Callback → List ℕ
name_of (on_alloc name) = name
name_of (on_exception name) = name
name_of (on_start name) = name
name_of (on_end name) = name

abbrev pub names : List Callback → List (List ℕ)
names [] = []
names (c ∷ cs) = name_of c ∷ names cs

-- The name begins with one of the six prefixes.
abbrev pub StartsPlatform : List ℕ → Type 0
StartsPlatform name =
    (codes "Ljava" ≡ take 5 name)
    ⊎ (codes "[Ljava" ≡ take 6 name)
    ⊎ (codes "Lorg" ≡ take 4 name)
    ⊎ (codes "[Lorg" ≡ take 5 name)
    ⊎ (codes "Lsun" ≡ take 4 name)
    ⊎ (codes "[Lsun" ≡ take 5 name)

or_iff : (a b : Bool) {P Q : Type 0} → (a ≡ true) ↔ P → (b ≡ true) ↔ Q → (a || b ≡ true) ↔ (P ⊎ Q)
or_iff true b (f, g) (h, k) = (λ e. inl (f refl), λ e. refl)
or_iff false b (f, g) (h, k) =
    (λ e. inr (h e), λ r. elim r [ inl p ↦ absurd (ground (arith, g p)) | inr q ↦ k q ])

of_the_platform-StartsPlatform :
    (name : List ℕ) → (of_the_platform name ≡ true) ↔ StartsPlatform name
unfolding of_the_platform
of_the_platform-StartsPlatform name = or_iff _ _ (strncmp_eq-take 5 (codes "Ljava") name) (
    or_iff _ _ (strncmp_eq-take 6 (codes "[Ljava") name) (
      or_iff _ _ (strncmp_eq-take 4 (codes "Lorg") name) (
        or_iff _ _ (strncmp_eq-take 5 (codes "[Lorg") name) (
          or_iff _ _ (strncmp_eq-take 4 (codes "Lsun") name)
            (strncmp_eq-take 5 (codes "[Lsun") name)))))

-- An allocation is printed exactly if its class has none of the prefixes and no name of two
-- characters.
object_alloc-lines :
    (name : List ℕ) (l : Log)
    → ((StartsPlatform name ⊎ (length name ≡ 2)) × ((object_alloc name l).lines ≡ l.lines))
      ⊎ ((StartsPlatform name → ⊥)
          × (length name ≢ 2)
          × ((object_alloc name l).lines ≡ l.lines ++ object_line name ∷ []))
unfolding object_alloc
object_alloc-lines name l = elim (Bool-cases (of_the_platform name)) [
  | inl t ↦ inl (inl ((of_the_platform-StartsPlatform name).0 t), ground arith)
  | inr f ↦ elim (ℕ_discrete (length name) 2) [
    | yes e ↦ inl (inr e, ground arith)
    | no ne ↦
        inr (
          λ p. absurd (ground (arith, (of_the_platform-StartsPlatform name).1 p)),
          ne,
          ground arith,
        )
  ]
]

object_alloc-kept : (name : List ℕ) (l : Log) → (object_alloc name l).kept ≡ l.kept ++ name ∷ []
unfolding object_alloc
object_alloc-kept name l = elim (Bool-cases (of_the_platform name)) [
  | inl t ↦ ground arith
  | inr f ↦ ground arith
]

run-kept_from :
    (c : Callback) (cs : List Callback) (l : Log)
    → (l' : Log) → l'.kept ≡ l.kept ++ name_of c ∷ []
    → (run cs l').kept ≡ l'.kept ++ names cs
    → (run cs l').kept ≡ l.kept ++ names (c ∷ cs)
run-kept_from c cs l l' e h =
    h ∙ (ap (λ k. k ++ names cs) e ∙ append_assoc l.kept (name_of c ∷ []) (names cs))

-- Of every callback the string that the JVM has allocated for it is never given back, whether it is
-- printed or not.
pub run-kept : (cs : List Callback) (l : Log) → (run cs l).kept ≡ l.kept ++ names cs
unfolding run exception_fun thread_start thread_end
run-kept [] l = sym (append-nil l.kept)
run-kept (on_alloc name ∷ cs) l =
    run-kept_from (on_alloc name) cs l (object_alloc name l) (object_alloc-kept name l)
      (run-kept cs (object_alloc name l))
run-kept (on_exception name ∷ cs) l =
    run-kept_from (on_exception name) cs l (exception_fun name l) refl
      (run-kept cs (exception_fun name l))
run-kept (on_start name ∷ cs) l =
    run-kept_from (on_start name) cs l (thread_start name l) refl
      (run-kept cs (thread_start name l))
run-kept (on_end name ∷ cs) l =
    run-kept_from (on_end name) cs l (thread_end name l) refl (run-kept cs (thread_end name l))
