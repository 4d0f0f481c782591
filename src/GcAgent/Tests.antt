-- ===== src/GcAgent/Tests.antt =====
-- Examples for agent.cpp.
use jvm.Common.{◌≡◌, refl, true, pos}
use jvm.GcAgent.{Calls, on_load, returned, error_none}

-- The capabilities are refused.
abbrev calls : Calls
calls = record {
  get_env = pos 0;
  calloc_capabilities = true;
  calloc_callbacks = true;
  add_capabilities = pos 98;
  set_event_callbacks = pos 0;
  enable_start = pos 0;
  enable_finish = pos 0;
}

-- Loading goes on all the same.
calls-returned : (on_load calls).outcome ≡ returned error_none
unfolding on_load
calls-returned = refl
