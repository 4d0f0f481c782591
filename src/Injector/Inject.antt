-- ===== src/Injector/Inject.antt =====
-- src/trace.h, inject_code: the stopped process is made to call dlopen. `M` is the memory of the
-- process; ptrace_getdata and ptrace_setdata, which the sources declare nowhere, are arguments, and
-- so are STRLEN, whether error_msg ends the program, and what the call does to the process.
pub mod Laws
use jvm.Common.{
  ℕ, ◌+◌, ◌%◌, Bool, true, false, List, [], ◌∷◌, ◌++◌, if◌then◌else◌, ℤ, pos, ltb_ℤ, two64,
}
use jvm.PerfData.Layout.{le}
use jvm.Injector.Run.{Run, ok, exited, ◌>>=◌}

-- The registers that are changed or read.
pub record Regs : Type 0 where
  pub rsp : ℕ
  pub rdi : ℕ
  pub rsi : ℕ
  pub rip : ℕ

pub record Process (M : Type 0) : Type 0 where
  pub memory : M
  pub regs : Regs

-- What the calls of ptrace return.
pub record Calls : Type 0 where
  pub setregs_1 : ℤ
  pub cont : ℤ
  pub setregs_2 : ℤ

abbrev pub fails : ℤ → Bool
fails ret = ltb_ℤ ret (pos 0)

abbrev pub add_addr : ℕ → ℕ → ℕ
add_addr a b = (a + b) % two64

abbrev pub ret_addr : ℕ
ret_addr = 0x666

-- RTLD_NOW|RTLD_GLOBAL|RTLD_NODELETE
abbrev pub mode : ℕ
mode = 0x1102

module _ {M : Type 0} (getdata : M → ℕ → ℕ → List ℕ) (setdata : M → ℕ → List ℕ → M) (strlen : ℕ)
    (error_ends : Bool) where
  -- The return address and the path on the stack.
  unfoldable pub on_stack : Process M → List ℕ → M
  on_stack p libc_path =
      setdata (setdata p.memory p.regs.rsp (le 8 ret_addr)) (add_addr p.regs.rsp strlen)
        (libc_path ++ 0 ∷ [])

  unfoldable pub call_regs : Regs → ℕ → Regs
  call_regs regs dlopen_addr = record regs {
    rdi = add_addr regs.rsp strlen;
    rsi = mode;
    rip = add_addr dlopen_addr 2;
  }

  -- The error_msg behind a failed call.
  check : ℤ → Process M → Run (Process M)
  check ret p = if fails ret then (if error_ends then exited else ok p) else ok p

  unfoldable pub set_up : Calls → Process M → ℕ → List ℕ → Process M
  unfolding on_stack call_regs
  set_up c p dlopen_addr libc_path = record {
    memory = on_stack p libc_path;
    regs = if fails c.setregs_1 then p.regs else call_regs p.regs dlopen_addr;
  }

  unfoldable pub put_back : Calls → (saved : Process M) → Process M → Run (Process M)
  unfolding check
  put_back c saved p = do
    let sp = saved.regs.rsp
    let sbuf1 = getdata saved.memory (add_addr sp strlen) strlen
    let sbuf2 = getdata saved.memory sp strlen
    p' ← check c.setregs_2 (record p { regs = if fails c.setregs_2 then p.regs else saved.regs })
    ok (record p' { memory = setdata (setdata p'.memory (add_addr sp strlen) sbuf1) sp sbuf2 })

  unfoldable pub inject_code :
      Calls
      → (Process M → Process M)
      → Process M
      → (dlopen_addr : ℕ) → (libc_path : List ℕ) → Run (Process M)
  unfolding check set_up put_back
  inject_code c call p dlopen_addr libc_path = do
    p₁ ← check c.setregs_1 (set_up c p dlopen_addr libc_path)
    p₂ ← check c.cont (if fails c.cont then p₁ else call p₁)
    put_back c p p₂

  -- ptrace_attach: the registers that it keeps in `oldregs`. The wait for the stop comes to its end.
  unfoldable pub ptrace_attach : (attach_ret : ℤ) → Process M → Run Regs
  unfolding check
  ptrace_attach attach_ret p = do p' ← check attach_ret p; ok p'.regs
