-- ===== src/Registry/Routers.antt =====
-- server/src/registry.rs, waking devices: the pause between attempts, the routers that poll, and
-- the addresses that wait for a router's next poll.
use rcdesk.Common.{
  string_test, ℕ, ◌*◌, String, List, [], ◌∷◌, ◌++◌, Option, none, some, Bool, true, false,
  if◌then◌else◌, ◌==◌, ltb, not, keep, map, any,
}
use mathlib.Core.Option
use rcdesk.Assoc.{get, insert, remove, retain, contains_key}
use rcdesk.Registry.{Inner, Instant, Duration, since, nanos_per_sec}

abbrev pub router_online_secs : ℕ
router_online_secs = 30

abbrev pub router_queue_ttl_secs : ℕ
router_queue_ttl_secs = 60

abbrev pub queue_ttl : Duration
queue_ttl = router_queue_ttl_secs * nanos_per_sec

-- The answer, and the attempts remembered.
unfoldable pub wake_attempt_allowed : Inner → String → Instant → Duration → Bool × Inner
unfolding retain contains_key
wake_attempt_allowed r device_id now cooldown =
    let live = retain (λ _ at. ltb (since now at) cooldown) r.wake_attempts in
    if contains_key device_id live
    then (false, record r { wake_attempts = live })
    else (true, record r { wake_attempts = insert device_id now live })

unfoldable pub fresh : Instant → Instant → Bool
fresh polled_at now = ltb (since now polled_at) (router_online_secs * nanos_per_sec)

unfoldable pub router_online : Inner → String → Instant → Bool
unfolding fresh
router_online r wake_id now = elim (get wake_id r.router_polls) [
  | none ↦ false
  | some (at, unix) ↦ fresh at now
]

-- `unix` is the wall clock's seconds. True if the router was not online before.
unfoldable pub router_polled : Inner → String → Instant → ℕ → Bool × Inner
unfolding router_online
router_polled r wake_id now unix =
    let was_online = router_online r wake_id now in
    (not was_online, record r { router_polls = insert wake_id (now, unix) r.router_polls })

unfoldable pub router_last_poll_unix : Inner → String → Option ℕ
router_last_poll_unix r wake_id = Option.map (λ p. p.1) (get wake_id r.router_polls)

abbrev pub Queue : Type 0
Queue = List (String × Instant)

unfoldable pub live_entries : Instant → Queue → Queue
live_entries now queue = keep (λ e. ltb (since now e.1) queue_ttl) queue

unfoldable pub queued : String → Queue → Bool
queued mac queue = any (λ e. e.0 == mac) queue

-- The loop over the addresses: one that waits already is not added again.
unfoldable pub push_new : Instant → List String → Queue → Queue
unfolding queued
push_new now [] queue = queue
push_new now (mac ∷ macs) queue =
    push_new now macs (if queued mac queue then queue else queue ++ ((mac, now) ∷ []))

unfoldable pub queue_of : Inner → String → Queue
queue_of r wake_id = elim (get wake_id r.router_queue) [ none ↦ [] | some queue ↦ queue ]

unfoldable pub enqueue_router_wake : Inner → String → List String → Instant → Inner
unfolding queue_of live_entries push_new
enqueue_router_wake r wake_id macs now = record r {
  router_queue =
      insert wake_id (push_new now macs (live_entries now (queue_of r wake_id))) r.router_queue;
}

unfoldable pub drain_router_wakes : Inner → String → Instant → List String × Inner
unfolding queue_of live_entries
drain_router_wakes r wake_id now = (
  map (λ e. e.0) (live_entries now (queue_of r wake_id)),
  record r { router_queue = remove wake_id r.router_queue },
)

unfoldable pub forget_router : Inner → String → Inner
forget_router r wake_id = record r {
  router_polls = remove wake_id r.router_polls;
  router_queue = remove wake_id r.router_queue;
}
