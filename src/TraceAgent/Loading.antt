-- ===== src/TraceAgent/Loading.antt =====
-- src/main.cpp, Agent_OnLoad with the signal handlers that it installs, and Agent_OnUnload.
pub mod Laws
use jvm.Common.{ℕ, Bool, true, ℤ}
use jvm.StackTrace.Server.Install.{
  Start, Installed, install_internal_handler, install_external_handler,
}
use jvm.TraceAgent.{Jvmti, Agent, JniRet, agent_on_load}

-- What the system calls of the installation return.
pub record Signals : Type 0 where
  pub sigrtmin : ℕ
  pub internal_ret : ℤ
  pub external_ret : ℤ
  pub start : Start

-- The signal handlers, what is registered, and `agent_lock::stop_`.
pub record Library : Type 0 where
  pub installed : Installed
  pub agent : Agent
  pub stop : Bool

-- What the installations report is not looked at.
unfoldable pub on_load : Signals → Bool → Jvmti → Library → JniRet × Library
unfolding install_internal_handler install_external_handler agent_on_load
on_load sys monitor vm l =
    let p = (install_internal_handler sys.sigrtmin sys.internal_ret l.installed).1 in
    let q = (install_external_handler sys.sigrtmin sys.external_ret sys.start p).1 in
    let (ret, a) = agent_on_load monitor vm in (ret, record l { installed = q; agent = a })

unfoldable pub on_unload : Library → Library
on_unload l = record l { stop = true }
