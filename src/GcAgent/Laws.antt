-- ===== src/GcAgent/Laws.antt =====
-- How Agent_OnLoad of agent.cpp ends.
use jvm.Common.{◌≡◌, ◌≢◌, ◌⊎◌, true, false, [], ◌∷◌, pos, arith, eqb_ℤ_iff}
use jvm.GcAgent.{
  Calls, returned, error_none, capabilities_added, callbacks_set, start_enabled, finish_enabled,
  on_load,
}

-- Loading returns without an error exactly when GetEnv, both allocations, SetEventCallbacks and both
-- notification modes work; then all four requests are made and every allocated block is freed.
-- AddCapabilities may fail.
on_load-returns :
    (c : Calls)
    → let l = on_load c in
      ((l.outcome ≡ returned error_none)
        × (l.freed ≡ l.allocated)
        × (l.requests ≡ capabilities_added ∷ callbacks_set ∷ start_enabled ∷ finish_enabled ∷ [])
        × (c.get_env ≡ pos 0)
        × (c.calloc_capabilities ≡ true)
        × (c.calloc_callbacks ≡ true)
        × (c.set_event_callbacks ≡ pos 0)
        × (c.enable_start ≡ pos 0)
        × (c.enable_finish ≡ pos 0))
      ⊎ ((l.outcome ≢ returned error_none)
          × (l.freed ≡ [])
          × ((c.get_env ≢ pos 0)
              ⊎ (c.calloc_capabilities ≡ false)
              ⊎ (c.calloc_callbacks ≡ false)
              ⊎ (c.set_event_callbacks ≢ pos 0)
              ⊎ (c.enable_start ≢ pos 0)
              ⊎ (c.enable_finish ≢ pos 0)))
unfolding on_load
on_load-returns c = ground (
  arith,
  eqb_ℤ_iff c.get_env (pos 0),
  eqb_ℤ_iff c.set_event_callbacks (pos 0),
  eqb_ℤ_iff c.enable_start (pos 0),
  eqb_ℤ_iff c.enable_finish (pos 0),
)
