-- ===== src/Tests/Registry.antt =====
-- server/src/registry.rs: registration and joins.
use rcdesk.Common.{
  ne_of_test, string_test, nat_test, String, [], ◌∷◌, none, some, true, false, ◌≡◌, ◌⊎◌, refl,
  arith,
}
use rcdesk.Assoc.{get}
use mathlib.Core.Option
use rcdesk.Registry.{unknown_pin}
use rcdesk.Registry.Draws.{Draws, done, Ensures, random_pin}
use rcdesk.Registry.Hosts.{register_host, unregister_host, is_current_host}
use rcdesk.Registry.Join.{err, join_by_host_id, join}
use rcdesk.Registry.Pins.{unique_pin}
use rcdesk.Registry.Invariant.{IsConsistent}
use rcdesk.Registry.Run.{Reach-IsConsistent}
use rcdesk.Registry.Registration.{
  Registered, Gone, register_host-Registered, register_host_foreign, register_host_reattached,
  unregister_host_lem,
}
use rcdesk.Registry.Admission.{Observed, Spent, join_by_host_id_lem, join_spends_pin}
use rcdesk.Registry.Refusals.{Caused, join-Caused}
use rcdesk.Registry.FreshPins.{unique_pin_total}
use rcdesk.Tests.States.{
  one, two, sid, session, desk, pin_draw, next_draw, id_draw, one-IsConsistent, two-IsConsistent,
  two-Reach,
}

Reach-IsConsistent_example : IsConsistent two
Reach-IsConsistent_example = Reach-IsConsistent two-Reach

join_by_host_id_example :
    Ensures
      (λ out. Observed one "d1" 7 sid "d2" out.0 out.1)
      (join_by_host_id one "d1" 7 (id_draw ∷ []))
join_by_host_id_example = join_by_host_id_lem one "d1" 7 (id_draw ∷ []) sid "d2"

join_spends_pin_example :
    Ensures
      (λ out. Spent one "123456" "d1" out.0 out.1)
      (join one "123456" 7 50 120 (id_draw ∷ next_draw ∷ []))
unfolding get
join_spends_pin_example =
    join_spends_pin one-IsConsistent "123456" "d1" desk refl refl refl 7 50 120
      (id_draw ∷ next_draw ∷ []) (omega arith)

-- The PIN of time 100, at 200.
join-Caused_example :
    Ensures
      (λ out. Caused one "123456" 7 50 200 out.0 out.1)
      (join one "123456" 7 50 200 (id_draw ∷ []))
join-Caused_example = join-Caused one-IsConsistent "123456" 7 50 200 (id_draw ∷ [])

expired_join : join one "123456" 7 50 200 (id_draw ∷ []) ≡ done (err unknown_pin, one, id_draw ∷ [])
unfolding join get
expired_join = refl

-- The device registers again on connection 2, with no session to report.
register_host-Registered_example :
    Ensures
      (λ out. Registered two "d1" "desk" 2 none true 300 out.0.0 out.0.1 out.1)
      (register_host two "d1" "desk" 2 none true 300 (next_draw ∷ []))
register_host-Registered_example =
    register_host-Registered two "d1" "desk" 2 none true 300 (next_draw ∷ [])

register_host_reattached_example :
    Ensures
      (λ out.
        (get sid out.1.sessions ≡ some (record session { host_tx = 2 }))
        × (Option.map (λ d. d.session) out.0.1 ≡ Option.map (λ _. none) (get "d1" two.hosts)))
      (register_host two "d1" "desk" 2 (some sid) true 300 (next_draw ∷ []))
unfolding get
register_host_reattached_example =
    register_host_reattached two "d1" "desk" 2 true 300 (next_draw ∷ []) sid session refl refl

-- Another device claims the session.
register_host_foreign_example :
    Ensures
      (λ out. get sid out.1.sessions ≡ some session)
      (register_host two "d2" "other" 3 (some sid) false 300 (next_draw ∷ []))
unfolding get
register_host_foreign_example =
    register_host_foreign two "d2" "other" 3 (some sid) false 300 (next_draw ∷ []) sid session refl
      (ne_of_test _ _ refl)

unregister_host_example :
    ((is_current_host two "d1" 1 ≡ false) × (unregister_host two "d1" 1 ≡ (none, two)))
    ⊎ ((is_current_host two "d1" 1 ≡ true) × Gone two "d1" 1 (unregister_host two "d1" 1).1)
unregister_host_example = unregister_host_lem "d1" 1 two-IsConsistent

unique_pin_total_example :
    (out : String × Draws) × (unique_pin one.pin_to_host (pin_draw ∷ next_draw ∷ []) ≡ done out)
unfolding random_pin
unique_pin_total_example =
    unique_pin_total (pin_draw ∷ next_draw ∷ []) one.pin_to_host
      ((ne_of_test _ _ refl, tt), (tt, tt)) (omega arith)
