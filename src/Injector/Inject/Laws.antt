-- ===== src/Injector/Inject/Laws.antt =====
-- What inject_code (src/trace.h) leaves of the process.
use jvm.Common.{
  ℕ, ◌+◌, ◌-◌, ◌*◌, ◌≤◌, ◌<◌, ◌≡◌, refl, ap, List, [], ◌∷◌, ◌++◌, Bool, false, ◌&&◌, if◌then◌else◌,
  ltb, leb, length, get_or, length-append, arith, two64,
}
use jvm.PerfData.Layout.{le}
use jvm.Injector.Run.{ok}
use jvm.Injector.Inject.{
  Process, Calls, fails, add_addr, ret_addr, mode, on_stack, call_regs, set_up, put_back,
  inject_code,
}

-- The bytes that are read: as many as asked for, from the address on.
pub record Gets {M : Type 0} (getdata : M → ℕ → ℕ → List ℕ) (byte : M → ℕ → ℕ) : Type 0 where
  pub length_lem : (m : M) (a n : ℕ) → length (getdata m a n) ≡ n
  pub bytes_lem : (m : M) (a n i : ℕ) → i < n → get_or (getdata m a n) i 0 ≡ byte m (a + i)

-- The bytes that are written: those of the list, from the address on.
abbrev pub Sets : {M : Type 0} → (M → ℕ → List ℕ → M) → (M → ℕ → ℕ) → Type 0
Sets {M} setdata byte =
    (m : M) (a : ℕ) (xs : List ℕ) (b : ℕ)
    → byte (setdata m a xs) b
      ≡ (if leb a b && ltb b (a + length xs) then get_or xs (b - a) 0 else byte m b)

-- Every call of ptrace works.
pub record AllWork (c : Calls) : Type 0 where
  pub setregs_1_works : fails c.setregs_1 ≡ false
  pub cont_works : fails c.cont ≡ false
  pub setregs_2_works : fails c.setregs_2 ≡ false

module _ {M : Type 0} (strlen : ℕ) (byte : M → ℕ → ℕ) where
  -- The process before its call of dlopen: it goes on at dlopen_addr + 2 with its first argument
  -- pointing to the path, which ends with a 0; the return address 0x666 stands at the stack pointer;
  -- and no other byte differs from those of `p`.
  pub record AtCall (p : Process M) (dlopen_addr : ℕ) (libc_path : List ℕ) (q : Process M)
      : Type 0 where
    pub regs_lem : q.regs ≡ record {
      rsp = p.regs.rsp;
      rdi = p.regs.rsp + strlen;
      rsi = mode;
      rip = add_addr dlopen_addr 2;
    }
    pub bytes_lem :
        (b : ℕ)
        → byte q.memory b ≡ (
            if leb p.regs.rsp b && ltb b (p.regs.rsp + 8)
            then get_or (le 8 ret_addr) (b - p.regs.rsp) 0
            else if leb q.regs.rdi b && ltb b (q.regs.rdi + length libc_path + 1)
            then get_or (libc_path ++ 0 ∷ []) (b - q.regs.rdi) 0
            else byte p.memory b)

module _ {M : Type 0} (getdata : M → ℕ → ℕ → List ℕ) (setdata : M → ℕ → List ℕ → M) (strlen : ℕ)
    (error_ends : Bool) (byte : M → ℕ → ℕ) (gets : Gets getdata byte)
    (sets : Sets setdata byte) where
  -- Writing back what was read at an address.
  set-get :
      (m saved : M) (a n b : ℕ)
      → byte (setdata m a (getdata saved a n)) b
        ≡ (if leb a b && ltb b (a + n) then byte saved b else byte m b)
  set-get m saved a n b = ground (
    arith,
    sets m a (getdata saved a n) b,
    gets.length_lem saved a n,
    gets.bytes_lem saved a n (b - a),
    at a b,
  )
    where
      at : (k x : ℕ) → k ≤ x → byte saved (k + (x - k)) ≡ byte saved x
      at k x le = ap (byte saved) (omega arith)

  -- The end of inject_code, when every call of ptrace works and there is room above the stack pointer.
  put_back-inject_code :
      (c : Calls) (call : Process M → Process M) (p : Process M) (dlopen_addr : ℕ)
      (libc_path : List ℕ)
      → AllWork c
      → p.regs.rsp + 2 * strlen < two64
      → (q : Process M) × (inject_code getdata setdata strlen error_ends c call p dlopen_addr
            libc_path
          ≡ ok q)
        × (q.regs ≡ p.regs)
        × ((b : ℕ)
            → byte q.memory b ≡ (
                if leb p.regs.rsp b && ltb b (p.regs.rsp + 2 * strlen)
                then byte p.memory b
                else byte
                    (call
                      (set_up getdata setdata strlen error_ends c p dlopen_addr libc_path)).memory
                    b))
  unfolding inject_code put_back
  put_back-inject_code c call p dlopen_addr libc_path w room =
      let sp = p.regs.rsp in
      let after = call (set_up getdata setdata strlen error_ends c p dlopen_addr libc_path) in
      let high : add_addr sp strlen ≡ sp + strlen = omega (arith, room) in
      let sbuf1 = getdata p.memory (add_addr sp strlen) strlen in
      let m = setdata after.memory (add_addr sp strlen) sbuf1 in
      (
        record { memory = setdata m sp (getdata p.memory sp strlen); regs = p.regs },
        ground (arith, w.setregs_1_works, w.cont_works, w.setregs_2_works),
        refl,
        λ b. ground (
          arith,
          room,
          high,
          set-get m p.memory sp strlen b,
          set-get after.memory p.memory (add_addr sp strlen) strlen b,
        ),
      )

  set_up-AtCall :
      (c : Calls) (p : Process M) (dlopen_addr : ℕ) (libc_path : List ℕ)
      → fails c.setregs_1 ≡ false
      → 8 ≤ strlen
      → length libc_path + 1 ≤ strlen
      → p.regs.rsp + 2 * strlen < two64
      → AtCall strlen byte p dlopen_addr libc_path
          (set_up getdata setdata strlen error_ends c p dlopen_addr libc_path)
  unfolding set_up on_stack call_regs
  set_up-AtCall c p dlopen_addr libc_path w eight fits room =
      let sp = p.regs.rsp in
      let high : add_addr sp strlen ≡ sp + strlen = omega (arith, room) in
      let m = setdata p.memory sp (le 8 ret_addr) in
      record {
        regs_lem = ground (arith, w, high);
        bytes_lem = λ b. ground (
          arith,
          w,
          high,
          eight,
          fits,
          room,
          length-append libc_path (0 ∷ []),
          sets m (add_addr sp strlen) (libc_path ++ 0 ∷ []) b,
          sets p.memory sp (le 8 ret_addr) b,
        );
      }

  -- If every call of ptrace works, STRLEN is at least 8, the path with its 0 fits into STRLEN bytes
  -- and there are 2 STRLEN bytes above the stack pointer, then inject_code returns. The call starts at
  -- dlopen_addr + 2 with the path, which ends with a 0, as its first argument and the mode as its
  -- second, with the return address 0x666 at the stack pointer, and no other byte has changed.
  -- Whatever the call does, the registers are afterwards those before inject_code, and so are the
  -- 2 STRLEN bytes from the stack pointer on; every other byte is as the call has left it.
  pub inject_code-bytes :
      (c : Calls) (call : Process M → Process M) (p : Process M) (dlopen_addr : ℕ)
      (libc_path : List ℕ)
      → AllWork c
      → 8 ≤ strlen
      → length libc_path + 1 ≤ strlen
      → p.regs.rsp + 2 * strlen < two64
      → (s : Process M) × (q : Process M) × (inject_code getdata setdata strlen error_ends c call p
            dlopen_addr libc_path
          ≡ ok q)
        × AtCall strlen byte p dlopen_addr libc_path s
        × (q.regs ≡ p.regs)
        × ((b : ℕ)
            → byte q.memory b ≡ (
                if leb p.regs.rsp b && ltb b (p.regs.rsp + 2 * strlen)
                then byte p.memory b
                else byte (call s).memory b))
  inject_code-bytes c call p dlopen_addr libc_path w eight fits room =
      let r = put_back-inject_code c call p dlopen_addr libc_path w room in
      (
        set_up getdata setdata strlen error_ends c p dlopen_addr libc_path,
        r.0,
        r.1,
        set_up-AtCall c p dlopen_addr libc_path w.setregs_1_works eight fits room,
        r.2,
        r.3,
      )
