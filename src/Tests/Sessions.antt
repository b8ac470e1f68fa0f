-- ===== src/Tests/Sessions.antt =====
-- server/src/registry.rs: sessions, wake attempts and router queues.
use rcdesk.Common.{
  string_test, nat_test, String, [], ◌∷◌, none, some, false, ◌≡◌, refl, is_some, if◌then◌else◌,
}
use rcdesk.Assoc.{get}
use rcdesk.Registry.{Inner, empty}
use rcdesk.Registry.Join.{in_session}
use rcdesk.Registry.Sessions.{disconnect_client}
use rcdesk.Registry.Departure.{IsFree, disconnect_client_lem}
use rcdesk.Registry.Routers.{enqueue_router_wake, drain_router_wakes, queue_of}
use rcdesk.Registry.Wakes.{OneEach, has, if_live, or_else, time_of, drain-enqueue}
use rcdesk.Tests.States.{two, sid, session, two-IsConsistent}

disconnect_client_example :
    (in_session 7 (disconnect_client two 7).1.sessions ≡ false)
    × IsFree (disconnect_client two 7).1 "d1"
unfolding get
disconnect_client_example = disconnect_client_lem 7 sid session two-IsConsistent refl refl

-- A device that was woken at 5, and a router whose queue holds an address since 3.
abbrev waking : Inner
waking = record empty {
  wake_attempts = ("d1", 5) ∷ [];
  router_queue = ("r1", ("aa:bb:cc:dd:ee:ff", 3) ∷ []) ∷ [];
}

abbrev mac : String
mac = "aa:bb:cc:dd:ee:00"

waking-OneEach : OneEach (queue_of waking "r1")
unfolding queue_of get
waking-OneEach = (refl, tt)

drain-enqueue_example :
    (has mac (drain_router_wakes (enqueue_router_wake waking "r1" (mac ∷ []) 4) "r1" 9).0
      ≡ is_some (
          if_live 9 (
            or_else
              (if_live 4 (time_of mac (queue_of waking "r1")))
              (if has mac (mac ∷ []) then some 4 else none))))
    × (queue_of (drain_router_wakes (enqueue_router_wake waking "r1" (mac ∷ []) 4) "r1" 9).1 "r1"
        ≡ [])
drain-enqueue_example = drain-enqueue waking "r1" mac (mac ∷ []) 4 9 waking-OneEach
