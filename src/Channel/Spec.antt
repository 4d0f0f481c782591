-- ===== src/Channel/Spec.antt =====
-- src/ts/common/channel.h, the contract of a channel, for a channel without a buffer: a value passes
-- from a Write to a Read, and Close comes once. What its users see are the returns of the calls.
use jvm.Common.{Bool, true, false, ◌≡◌, List, [], ◌∷◌, ◌++◌}

-- The calls that have their effect: a Write that has not timed out, a Read that has returned true,
-- a Close.
pub data Call {ℓ} (V : Type ℓ) : Type ℓ where
  written : (v : V) → Call V
  read : (v : V) → Call V
  closed : Call V

-- Between the return of a Read and that of its Write the value has been taken.
pub data Phase {ℓ} (V : Type ℓ) : Type ℓ where
  idle : Phase V
  taken : (v : V) → Phase V

pub record Channel {ℓ} (V : Type ℓ) : Type ℓ where
  pub is_closed : Bool
  pub phase : Phase V

module _ {ℓ} {V : Type ℓ} where
  abbrev pub new : Channel V
  new = record { is_closed = false; phase = idle }

  -- Nothing is read on a closed channel, nor before the last Write has returned; a Write returns
  -- when its value has been read; a second Close does not return.
  pub data Allowed (c : Channel V) : Call V → Channel V → Type ℓ where
    may_read :
        (v : V)
        → c.is_closed ≡ false
        → c.phase ≡ idle
        → Allowed c (read v) (record c { phase = taken v })
    may_write : (v : V) → c.phase ≡ taken v → Allowed c (written v) (record c { phase = idle })
    may_close : c.is_closed ≡ false → Allowed c closed (record c { is_closed = true })

  -- The sequences of calls that the contract allows.
  pub data Accepts : List (Call V) → Channel V → Type ℓ where
    none_yet : Accepts [] new
    one_more :
        {calls : List (Call V)} {c d : Channel V} {call : Call V}
        → Accepts calls c
        → Allowed c call d
        → Accepts (calls ++ call ∷ []) d
