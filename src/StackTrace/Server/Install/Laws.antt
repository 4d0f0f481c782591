-- ===== src/StackTrace/Server/Install/Laws.antt =====
-- When StackTraceSignal of src/ts/signal_handler.cc installs the signal handlers.
use jvm.Common.{ℕ, ◌≡◌, ◌≢◌, ◌⊎◌, true, false, some, arith, ℤ, pos, ltb_ℤ, ℕ_discrete}
use jvm.StackTrace.Server.Install.{
  Start, internal, external, Installed, get_external_handler_state, sigaction, internal_signum,
  external_signum, install_internal_handler, install_external_handler,
}

-- Once there is a state, no later call changes it, whatever a new service thread would have met.
get_external_handler_state-keeps :
    (st st' : Start) (p : Installed)
    → let (s, q) = get_external_handler_state st p in get_external_handler_state st' q ≡ (s, q)
unfolding get_external_handler_state
get_external_handler_state-keeps st st' p = ground arith

-- When both have been installed, in the order of the names, each signal has its own handler.
install-both :
    (sigrtmin : ℕ) (ret ret' : ℤ) (st : Start) (p : Installed)
    → let (done, q) = install_internal_handler sigrtmin ret p in
      let (done', r) = install_external_handler sigrtmin ret' st q in
      done ≡ true
      → done' ≡ true
      → (r.handlers (internal_signum sigrtmin) ≡ some internal)
        × (r.handlers (external_signum sigrtmin) ≡ some external)
unfolding install_internal_handler install_external_handler get_external_handler_state sigaction
    internal_signum external_signum
install-both sigrtmin ret ret' st p h h' = (ground arith, ground arith)

module _ (sigrtmin : ℕ) (ret : ℤ) (st : Start) (p : Installed) where
  -- After the external handler has been installed there is a state, the first that was ever made,
  -- and its descriptor is not negative; the signal has the handler. If the installation reports a
  -- failure, no signal has got another handler. The other signals keep theirs in any case.
  install_external_handler_lem :
      let (done, q) = install_external_handler sigrtmin ret st p in
      ((n : ℕ) → n ≢ external_signum sigrtmin → q.handlers n ≡ p.handlers n)
      × (q.state ≡ some (get_external_handler_state st p).0)
      × (((done ≡ true)
            × (q.handlers (external_signum sigrtmin) ≡ some external)
            × (ltb_ℤ (get_external_handler_state st p).0.server_fd (pos 0) ≡ false))
          ⊎ ((done ≡ false)
              × (q.handlers (external_signum sigrtmin) ≡ p.handlers (external_signum sigrtmin))))
  unfolding install_external_handler get_external_handler_state external_signum sigaction ℕ_discrete
  install_external_handler_lem = (λ n ne. ground arith, ground arith, ground arith)
