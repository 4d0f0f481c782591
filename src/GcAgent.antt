-- ===== src/GcAgent.antt =====
-- agent.cpp: Agent_OnLoad of the small agent that only prints when a garbage collection starts and
-- ends. The JVM tool interface and `calloc` are arguments: what each call returns.
pub mod Laws
pub mod Print
pub mod Tests
use jvm.Common.{ℕ, ◌≡◌, Bool, true, false, not, List, [], ◌∷◌, ◌++◌, if◌then◌else◌, ℤ, pos, eqb_ℤ}

pub record Calls : Type 0 where
  pub get_env : ℤ
  -- whether each `calloc` works
  pub calloc_capabilities : Bool
  pub calloc_callbacks : Bool
  pub add_capabilities : ℤ
  pub set_event_callbacks : ℤ
  pub enable_start : ℤ
  pub enable_finish : ℤ

pub data Code : Type 0 where
  error_none unsupported_version out_of_memory : Code

-- The call returns, or ends the JVM by `exit(-1)`.
pub data Outcome : Type 0 where
  returned : Code → Outcome
  exited : Outcome

pub data Block : Type 0 where
  capabilities_block callbacks_block : Block

pub data Request : Type 0 where
  capabilities_added callbacks_set start_enabled finish_enabled : Request

-- The blocks allocated and freed, and the requests made, in order, whatever they return.
pub record Loaded : Type 0 where
  pub outcome : Outcome
  pub allocated : List Block
  pub freed : List Block
  pub requests : List Request

-- After the callbacks are set.
enable_events : Calls → Loaded
enable_events c =
    let both = capabilities_block ∷ callbacks_block ∷ [] in
    if not (eqb_ℤ c.set_event_callbacks (pos 0))
    then record {
      outcome = exited;
      allocated = both;
      freed = [];
      requests = capabilities_added ∷ callbacks_set ∷ [];
    }
    else if not (eqb_ℤ c.enable_start (pos 0))
    then record {
      outcome = exited;
      allocated = both;
      freed = [];
      requests = capabilities_added ∷ callbacks_set ∷ start_enabled ∷ [];
    }
    else if not (eqb_ℤ c.enable_finish (pos 0))
    then record {
      outcome = exited;
      allocated = both;
      freed = [];
      requests = capabilities_added ∷ callbacks_set ∷ start_enabled ∷ finish_enabled ∷ [];
    }
    else record {
      outcome = returned error_none;
      allocated = both;
      freed = both;
      requests = capabilities_added ∷ callbacks_set ∷ start_enabled ∷ finish_enabled ∷ [];
    }

-- What AddCapabilities returns is not looked at. The second test of the first return code cannot
-- hold.
unfoldable pub on_load : Calls → Loaded
unfolding enable_events
on_load c =
    if not (eqb_ℤ c.get_env (pos 0))
    then record {
      outcome = returned unsupported_version;
      allocated = [];
      freed = [];
      requests = [];
    }
    else if not c.calloc_capabilities
    then record { outcome = returned out_of_memory; allocated = []; freed = []; requests = [] }
    else if not c.calloc_callbacks
    then record {
      outcome = returned out_of_memory;
      allocated = capabilities_block ∷ [];
      freed = [];
      requests = capabilities_added ∷ [];
    }
    else enable_events c
