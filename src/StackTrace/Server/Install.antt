-- ===== src/StackTrace/Server/Install.antt =====
-- src/ts/signal_handler.cc: ExternalHandlerState with the start of RequestProcessor,
-- GetExternalHandlerState, and StackTraceSignal, which installs the two signal handlers. What the
-- system calls return is an argument.
pub mod Laws
use jvm.Common.{
  ℕ, suc, ◌≡◌, Bool, true, false, List, [], ◌∷◌, Option, none, some, ite, ℕ_discrete, if◌then◌else◌,
  ℤ, pos, eqb_ℤ, ltb_ℤ,
}

pub data StartMsg : Type 0 where
  started pipe_failed : StartMsg

-- What the service thread meets when it starts. `pipe_fd_1` is what `pipe_fd[1]` holds after pipe2:
-- the write end, or whatever the memory held when the call fails.
pub record Start : Type 0 where
  pub pid : ℕ
  pub pipe2_ret : ℤ
  pub pipe_fd_1 : ℤ

-- RequestProcessor before its loop: its messages, and the value of the promise.
unfoldable pub start_request_processor : Start → List StartMsg × ℤ
start_request_processor st =
    (if eqb_ℤ st.pipe2_ret (pos 0) then started ∷ [] else started ∷ pipe_failed ∷ [], st.pipe_fd_1)

pub record ExternalHandlerState : Type 0 where
  pub server_tgid : ℕ
  pub server_fd : ℤ

-- The constructor, which waits for the promise.
unfoldable pub external_handler_state : Start → ExternalHandlerState
unfolding start_request_processor
external_handler_state st = record {
  server_tgid = st.pid;
  server_fd = (start_request_processor st).1;
}

pub data Handler : Type 0 where
  internal external : Handler

-- The function local static, and the signal handlers of the process.
pub record Installed : Type 0 where
  pub state : Option ExternalHandlerState
  pub handlers : ℕ → Option Handler

unfoldable pub get_external_handler_state : Start → Installed → ExternalHandlerState × Installed
unfolding external_handler_state
get_external_handler_state st p = elim p.state [
  | some s ↦ (s, p)
  | none ↦ (external_handler_state st, record p { state = some (external_handler_state st) })
]

-- A call of sigaction that returns `ret`; only a call that returns 0 changes the handler.
unfoldable pub sigaction : ℤ → ℕ → Handler → Installed → Bool × Installed
sigaction ret signum h p =
    if eqb_ℤ ret (pos 0)
    then (true, record p { handlers = λ n. ite (ℕ_discrete signum n) (some h) (p.handlers n) })
    else (false, p)

module _ (sigrtmin : ℕ) where
  unfoldable pub internal_signum : ℕ
  internal_signum = sigrtmin

  unfoldable pub external_signum : ℕ
  external_signum = suc sigrtmin

  unfoldable pub install_internal_handler : ℤ → Installed → Bool × Installed
  unfolding internal_signum sigaction
  install_internal_handler ret p = sigaction ret internal_signum internal p

  unfoldable pub install_external_handler : ℤ → Start → Installed → Bool × Installed
  unfolding external_signum sigaction get_external_handler_state
  install_external_handler ret st p =
      let (state, p') = get_external_handler_state st p in
      if ltb_ℤ state.server_fd (pos 0)
      then (false, p')
      else sigaction ret external_signum external p'
