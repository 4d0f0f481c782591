-- ===== src/EarlierAgent/Register/Laws.antt =====
-- What the agent of src/__trace_agent.h has registered.
use jvm.Common.{
  ◌≡◌, refl, ap, sym, ◌∙◌, Bool, true, false, ◌&&◌, not, List, [], ◌∷◌, ◌++◌, some, pos, eqb_ℤ,
  arith, if◌then◌else◌, append_assoc, append-nil,
}
use jvm.EarlierAgent.Register.{
  Event, Jvmti, Agent, Result, ok, thrown, ◌>>=◌, check, caps, callbacks_set, events_enabled,
  enable_all, register,
}

abbrev pub agent_of : Result → Agent
agent_of (ok a) = a
agent_of (thrown err a) = a

abbrev pub works : Result → Bool
works (ok a) = true
works (thrown err a) = false

-- The interface accepts the event.
abbrev pub accepts : Jvmti → Event → Bool
accepts vm e = eqb_ℤ (vm.set_event_notification_mode e) (pos 0)

abbrev pub until_refused : Jvmti → List Event → List Event
until_refused vm [] = []
until_refused vm (e ∷ es) = let rest = until_refused vm es in if accepts vm e then e ∷ rest else []

abbrev pub none_refused : Jvmti → List Event → Bool
none_refused vm [] = true
none_refused vm (e ∷ es) = accepts vm e && none_refused vm es

enable_all-works :
    (vm : Jvmti) (es : List Event) (a : Agent)
    → (works (enable_all vm es a) ≡ none_refused vm es)
      × (agent_of (enable_all vm es a) ≡ record a { enabled = a.enabled ++ until_refused vm es })
unfolding enable_all check
enable_all-works vm [] a = (refl, ap (λ l. record a { enabled = l }) (sym (append-nil a.enabled)))
enable_all-works vm (e ∷ es) a =
    let b : Agent = record a { enabled = a.enabled ++ e ∷ [] } in
    after (enable_all-works vm es b) (accepts vm e)
  where
    after :
        (works (enable_all vm es (record a { enabled = a.enabled ++ e ∷ [] })) ≡ none_refused vm es)
          × (agent_of (enable_all vm es (record a { enabled = a.enabled ++ e ∷ [] }))
              ≡ record a { enabled = (a.enabled ++ e ∷ []) ++ until_refused vm es })
        → (good : Bool)
        → (works (
              (if not good
                then thrown (vm.set_event_notification_mode e) a
                else ok (record a { enabled = a.enabled ++ e ∷ [] }))
              >>= enable_all vm es)
            ≡ (good && none_refused vm es))
          × (agent_of (
                (if not good
                  then thrown (vm.set_event_notification_mode e) a
                  else ok (record a { enabled = a.enabled ++ e ∷ [] }))
                >>= enable_all vm es)
              ≡ record a { enabled = a.enabled ++ (if good then e ∷ until_refused vm es else []) })
    after ih false = (refl, ap (λ l. record a { enabled = l }) (sym (append-nil a.enabled)))
    after ih true = (
      ih.0,
      ih.1
          ∙ ap (λ l. record a { enabled = l })
              (append_assoc a.enabled (e ∷ []) (until_refused vm es)),
    )

-- The calls before the events are enabled work.
abbrev pub prepared : Jvmti → Bool
prepared vm =
    eqb_ℤ vm.get_env_ret (pos 0)
    && vm.env
    && eqb_ℤ (vm.add_capabilities caps) (pos 0)
    && eqb_ℤ (vm.set_event_callbacks callbacks_set) (pos 0)

-- The registration is without an exception exactly when every call works, and the lock is made in
-- no other case. The enabled events are those up to the first that is refused.
register-works :
    (vm : Jvmti)
    → let r = register vm in
      (works r
        ≡ (prepared vm && none_refused vm events_enabled && eqb_ℤ vm.create_raw_monitor (pos 0)))
      × ((agent_of r).lock ≡ works r)
      × ((agent_of r).enabled ≡ (if prepared vm then until_refused vm events_enabled else []))
unfolding register
register-works vm = ground (
  arith,
  enable_all-works vm events_enabled (record {
    jvmti = true;
    capabilities = some caps;
    callbacks = callbacks_set;
    enabled = [];
    lock = false;
  }),
)
