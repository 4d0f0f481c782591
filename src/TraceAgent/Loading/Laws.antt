-- ===== src/TraceAgent/Loading/Laws.antt =====
-- What loading and unloading the agent (src/main.cpp) leaves.
use jvm.Common.{◌≡◌, refl, Bool, none, some, arith, pos, eqb_ℤ, ltb_ℤ, if◌then◌else◌}
use jvm.StackTrace.Server.Install.{
  internal, external, external_handler_state, start_request_processor, get_external_handler_state,
  sigaction, internal_signum, external_signum, install_internal_handler, install_external_handler,
}
use jvm.TraceAgent.{Jvmti, agent_on_load}
use jvm.TraceAgent.Loading.{Signals, Library, on_load, on_unload}

module _ (sys : Signals) (monitor : Bool) (vm : Jvmti) (l : Library)
    (bare : l.installed.state ≡ none) where
  -- When the library is loaded for the first time the service thread is started, and each signal
  -- gets its handler if its call of sigaction works, and for the external one if the descriptor is
  -- not negative. All this is left so also when the registration fails and the JVM gives up the
  -- agent; unloading takes none of it back.
  on_load-installed :
      let q = (on_unload (on_load sys monitor vm l).1).installed in
      (q.state ≡ some (external_handler_state sys.start))
      × (q.handlers (internal_signum sys.sigrtmin) ≡ (
          if eqb_ℤ sys.internal_ret (pos 0)
          then some internal
          else l.installed.handlers (internal_signum sys.sigrtmin)))
      × (q.handlers (external_signum sys.sigrtmin) ≡ (
          if eqb_ℤ sys.external_ret (pos 0)
          then (if ltb_ℤ sys.start.pipe_fd_1 (pos 0)
              then l.installed.handlers (external_signum sys.sigrtmin)
              else some external)
          else l.installed.handlers (external_signum sys.sigrtmin)))
  unfolding on_load on_unload install_internal_handler install_external_handler
      get_external_handler_state external_handler_state start_request_processor sigaction
      internal_signum external_signum
  on_load-installed = (ground (arith, bare), ground (arith, bare), ground (arith, bare))

  -- Loading returns what the registration returns.
  on_load-ret : (on_load sys monitor vm l).0 ≡ (agent_on_load monitor vm).0
  unfolding on_load
  on_load-ret = refl
