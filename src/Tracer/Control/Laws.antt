-- ===== src/Tracer/Control/Laws.antt =====
-- When the loops that wait in src/tt.cpp end.
use jvm.Common.{
  ℕ, ◌≡◌, ◌⊎◌, inl, inr, refl, subst, Bool, true, false, List, [], ◌∷◌, Option, none, some, arith,
}
use jvm.Tracer.Dynamic.{ok}
use jvm.Tracer.Dynamic.Laws.{>>=-ok}
use jvm.Tracer.Push.{Process}
use jvm.Tracer.Control.{
  Status, wifstopped, wifsignaled, Calls, wait_until, ptrace_cont, ptrace_call,
}

-- Some status that is stored passes the test.
abbrev pub Some : (Status → Bool) → List (Option Status) → Type 0
Some test [] = ⊥
Some test (none ∷ ws) = Some test ws
Some test (some stat ∷ ws) = (test stat ≡ true) ⊎ Some test ws

wait_until-Some :
    (test : Status → Bool) (stat : Status) (ws rest : List (Option Status))
    → wait_until test stat ws ≡ ok rest
    → (test stat ≡ true) ⊎ Some test ws
unfolding wait_until
wait_until-Some test stat [] rest h = ground arith
wait_until-Some test stat (none ∷ ws) rest h = ground (arith, wait_until-Some test stat ws rest)
wait_until-Some test stat (some stat' ∷ ws) rest h =
    ground (arith, wait_until-Some test stat' ws rest)

-- The first call with its status, if the loop goes on.
wait_until-cases :
    (test : Status → Bool) (stat : Status) (w : Option Status) (ws rest : List (Option Status))
    → wait_until test stat (w ∷ ws) ≡ ok rest
    → (rest ≡ w ∷ ws) ⊎ ((stat' : Status) × (wait_until test stat' ws ≡ ok rest))
unfolding wait_until
wait_until-cases test stat w ws rest h = after (test stat) refl w refl
  where
    after :
        (b : Bool)
        → test stat ≡ b
        → (w' : Option Status) → w ≡ w'
        → (rest ≡ w ∷ ws) ⊎ ((stat' : Status) × (wait_until test stat' ws ≡ ok rest))
    after true e w' f = inl (ground arith)
    after false e none f = inr (stat, ground arith)
    after false e (some stat') f = inr (stat', ground arith)

wait_until-nil :
    (test : Status → Bool) (stat : Status) (rest : List (Option Status))
    → wait_until test stat [] ≡ ok rest
    → rest ≡ []
unfolding wait_until
wait_until-nil test stat rest h = ground arith

-- What is left of the calls are the last ones.
Some-wait_until :
    (test u : Status → Bool) (stat : Status) (ws rest : List (Option Status))
    → wait_until test stat ws ≡ ok rest
    → Some u rest
    → Some u ws
Some-wait_until test u stat [] rest h s = subst (Some u) (wait_until-nil test stat rest h) s
Some-wait_until test u stat (w ∷ ws) rest h s = elim (wait_until-cases test stat w ws rest h) [
  | inl e ↦ subst (Some u) e s
  | inr (stat', h') ↦ later w (Some-wait_until test u stat' ws rest h' s)
]
  where
    later : (x : Option Status) → Some u ws → Some u (x ∷ ws)
    later none r = r
    later (some stat') r = inr r

ptrace_cont-waits :
    (c : Calls) (rest : List (Option Status))
    → ptrace_cont c ≡ ok rest
    → wait_until wifstopped c.cont_stat c.waits ≡ ok rest
unfolding ptrace_cont
ptrace_cont-waits c rest h = ground arith

-- The process is reported to have been killed by a signal, or a `stat` that was never written holds
-- the like.
abbrev pub Killed : Calls → Type 0
Killed c = (wifsignaled c.call_stat ≡ true) ⊎ Some wifsignaled c.waits

module _ {M : Type 0} (poke : M → ℕ → ℕ → M) (run : Process M → Process M) (c : Calls) where
  call-cases :
      (p q : Process M) (addr : ℕ)
      → ptrace_call poke run c p addr ≡ ok q
      → (waits rest : List (Option Status)) × (ptrace_cont c ≡ ok waits)
        × (wait_until wifsignaled c.call_stat waits ≡ ok rest)
  unfolding ptrace_call
  call-cases p q addr h =
      let (waits, e, g) = >>=-ok (ptrace_cont c) _ h in
      let (rest, f, r) = >>=-ok (wait_until wifsignaled c.call_stat waits) _ g in
      (waits, rest, e, f)

  -- The defect: a call returns only if the process is killed by a signal. The fault at the return
  -- address stops the process and does not kill it, so the loop goes on.
  pub ptrace_call-Killed :
      (p q : Process M) (addr : ℕ) → ptrace_call poke run c p addr ≡ ok q → Killed c
  ptrace_call-Killed p q addr h =
      let (waits, rest, e, f) = call-cases p q addr h in
      elim (wait_until-Some wifsignaled c.call_stat waits rest f) [
        | inl found ↦ inl found
        | inr later ↦ inr (
            Some-wait_until wifstopped wifsignaled c.cont_stat c.waits waits
              (ptrace_cont-waits c waits e) later)
      ]
