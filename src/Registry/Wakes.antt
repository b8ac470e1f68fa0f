-- ===== src/Registry/Wakes.antt =====
-- server/src/registry.rs, waking devices: the pause between attempts, and the queue of a router.
use rcdesk.Common.{
  string_test, nat_test, ◌≤◌, ◌<◌, String, List, [], ◌∷◌, ◌++◌, Option, none, some, Bool, true,
  false, ◌≡◌, ◌⊎◌, refl, ap, ◌∙◌, arith, ==_iff, ◌==◌, if◌then◌else◌, is_some, any, map, ltb,
  Option-cases, Bool-cases, inl, inr,
}
use rcdesk.Assoc.{Unique, get, retain, get-insert_self, get-remove_self, get-retain, kept, Assoc}
use rcdesk.Registry.{Inner, Instant, Duration, since}
use rcdesk.Registry.Routers.{
  wake_attempt_allowed, Queue, queue_ttl, live_entries, queued, push_new, queue_of,
  enqueue_router_wake, drain_router_wakes,
}

-- An attempt is allowed exactly if no allowed one is remembered or the last is at least `cooldown`
-- old, and is then remembered at its time. A refused one leaves the last one remembered.
abbrev pub Allowed : Inner → String → Instant → Duration → Bool × Inner → Type 0
Allowed r device now cooldown out =
    (out.0 ≡ true)
    × (get device out.1.wake_attempts ≡ some now)
    × ((get device r.wake_attempts ≡ none)
        ⊎ ((at : Instant) × (get device r.wake_attempts ≡ some at) × (cooldown ≤ since now at)))

abbrev pub Refused : Inner → String → Instant → Duration → Bool × Inner → Type 0
Refused r device now cooldown out =
    (at : Instant) × (out.0 ≡ false)
    × (get device r.wake_attempts ≡ some at)
    × (since now at < cooldown)
    × (get device out.1.wake_attempts ≡ some at)

-- A wake attempt is allowed, and then remembered at its time, if none is remembered for the device
-- or the last is at least `cooldown` old. Otherwise it is refused and the last one stays.
wake_attempt_allowed_lem :
    (r : Inner) (device : String) (now : Instant) (cooldown : Duration)
    → Unique r.wake_attempts
    → Allowed r device now cooldown (wake_attempt_allowed r device now cooldown)
      ⊎ Refused r device now cooldown (wake_attempt_allowed r device now cooldown)
unfolding wake_attempt_allowed
wake_attempt_allowed_lem r device now cooldown u =
    elim (Option-cases (get device r.wake_attempts)) [
      | inl a ↦
          inl (ground (arith, left), ground (arith, left, get-insert_self device now live), inl a)
      | inr (at, a) ↦ elim (Bool-cases (ltb (since now at) cooldown)) [
        | inl t ↦ inr (at, ground (arith, left), a, ground arith, ground (arith, left))
        | inr f ↦ inl (
          ground (arith, left),
          ground (arith, left, get-insert_self device now live),
          inr (at, a, ground arith),
        )
      ]
    ]
  where
    young : String → Instant → Bool
    young _ at = ltb (since now at) cooldown

    live : Assoc String Instant
    live = retain young r.wake_attempts

    left : get device live ≡ kept young device (get device r.wake_attempts)
    left = get-retain young device r.wake_attempts u

-- When an address was put in a queue.
abbrev pub time_of : String → Queue → Option Instant
time_of mac [] = none
time_of mac ((m, at) ∷ queue) = if m == mac then some at else time_of mac queue

-- No address waits twice.
abbrev pub OneEach : Queue → Type 0
OneEach [] = Unit
OneEach ((m, at) ∷ queue) = (time_of m queue ≡ none) × OneEach queue

-- What is left of an entry's time once the entries that are too old are dropped.
abbrev pub if_live : Instant → Option Instant → Option Instant
if_live now none = none
if_live now (some at) = if ltb (since now at) queue_ttl then some at else none

abbrev pub or_else : Option Instant → Option Instant → Option Instant
or_else none b = b
or_else (some a) b = some a

abbrev pub has : String → List String → Bool
has mac = any (λ m. m == mac)

live_entries-none :
    (now : Instant) (mac : String) (queue : Queue)
    → time_of mac queue ≡ none
    → time_of mac (live_entries now queue) ≡ none
unfolding live_entries
live_entries-none now mac [] q = refl
live_entries-none now mac ((m, at) ∷ queue) q = ground (arith, live_entries-none now mac queue)

time_of-live_entries :
    (now : Instant) (mac : String) (queue : Queue)
    → OneEach queue
    → time_of mac (live_entries now queue) ≡ if_live now (time_of mac queue)
unfolding live_entries
time_of-live_entries now mac [] one = refl
time_of-live_entries now mac ((m, at) ∷ queue) one = ground (
  arith,
  time_of-live_entries now mac queue one.1,
  ==_iff m mac,
  live_entries-none now m queue one.0,
  one.0,
)

live_entries-OneEach :
    (now : Instant) (queue : Queue) → OneEach queue → OneEach (live_entries now queue)
unfolding live_entries
live_entries-OneEach now [] one = tt
live_entries-OneEach now ((m, at) ∷ queue) one =
    ground (arith, live_entries-OneEach now queue one.1, live_entries-none now m queue one.0)

time_of-append :
    (mac m : String) (at : Instant) (queue : Queue)
    → time_of mac (queue ++ ((m, at) ∷ []))
      ≡ or_else (time_of mac queue) (if m == mac then some at else none)
time_of-append mac m at [] = refl
time_of-append mac m at ((n, t) ∷ queue) = ground (arith, time_of-append mac m at queue)

append-OneEach :
    (m : String) (at : Instant) (queue : Queue)
    → time_of m queue ≡ none
    → OneEach queue
    → OneEach (queue ++ ((m, at) ∷ []))
append-OneEach m at [] absent one = (refl, tt)
append-OneEach m at ((n, t) ∷ queue) absent one =
    ground
      (arith, append-OneEach m at queue, time_of-append n m at queue, ==_iff n m, ==_iff m n, one)

queued-time_of : (mac : String) (queue : Queue) → queued mac queue ≡ is_some (time_of mac queue)
unfolding queued
queued-time_of mac [] = refl
queued-time_of mac ((m, at) ∷ queue) = ground (arith, queued-time_of mac queue)

push_new-OneEach :
    (now : Instant) (macs : List String) (queue : Queue)
    → OneEach queue
    → OneEach (push_new now macs queue)
unfolding push_new
push_new-OneEach now [] queue one = one
push_new-OneEach now (m ∷ macs) queue one = elim (Bool-cases (queued m queue)) [
  | inl t ↦ rw t (push_new-OneEach now macs queue one)
  | inr f ↦ rw f (
      push_new-OneEach now macs _
        (append-OneEach m now queue (ground (arith, queued-time_of m queue)) one))
]

time_of-push_new :
    (now : Instant) (mac : String) (macs : List String) (queue : Queue)
    → time_of mac (push_new now macs queue)
      ≡ or_else (time_of mac queue) (if has mac macs then some now else none)
unfolding push_new
time_of-push_new now mac [] queue = ground arith
time_of-push_new now mac (m ∷ macs) queue = elim (Bool-cases (queued m queue)) [
  | inl t ↦
      rw t
        (ground (arith, time_of-push_new now mac macs queue, queued-time_of m queue, ==_iff m mac))
  | inr f ↦ rw f (
      ground (
        arith,
        time_of-push_new now mac macs (queue ++ ((m, now) ∷ [])),
        time_of-append mac m now queue,
        queued-time_of m queue,
        ==_iff m mac,
      ))
]

has-map :
    (mac : String) (queue : Queue) → has mac (map (λ e. e.0) queue) ≡ is_some (time_of mac queue)
has-map mac [] = refl
has-map mac ((m, at) ∷ queue) = ground (arith, has-map mac queue)

queue_of-enqueue :
    (r : Inner) (router : String) (macs : List String) (now : Instant)
    → queue_of (enqueue_router_wake r router macs now) router
      ≡ push_new now macs (live_entries now (queue_of r router))
unfolding enqueue_router_wake
queue_of-enqueue r router macs now =
    rw
      (
        get-insert_self router (push_new now macs (live_entries now (queue_of r router)))
            r.router_queue,
        queue_of,
      )
      refl

-- No address waits twice in a router's queue, whatever is enqueued.
enqueue-OneEach :
    (r : Inner) (router : String) (macs : List String) (now : Instant)
    → OneEach (queue_of r router)
    → OneEach (queue_of (enqueue_router_wake r router macs now) router)
enqueue-OneEach r router macs now one =
    rw (queue_of-enqueue r router macs now)
      (push_new-OneEach now macs _ (live_entries-OneEach now _ one))

-- What a poll at `t₂` hands out after addresses were enqueued at `t₁`: an address whose entry is
-- young enough. An entry that was live at `t₁` keeps its earlier time; any other address that was
-- enqueued has the time `t₁`. The poll leaves the queue empty.
pub drain-enqueue :
    (r : Inner) (router mac : String) (macs : List String) (t₁ t₂ : Instant)
    → OneEach (queue_of r router)
    → (has mac (drain_router_wakes (enqueue_router_wake r router macs t₁) router t₂).0
        ≡ is_some (
            if_live t₂ (
              or_else
                (if_live t₁ (time_of mac (queue_of r router)))
                (if has mac macs then some t₁ else none))))
      × (queue_of (drain_router_wakes (enqueue_router_wake r router macs t₁) router t₂).1 router
          ≡ [])
unfolding drain_router_wakes
drain-enqueue r router mac macs t₁ t₂ one = (
  has-map mac (live_entries t₂ (queue_of (enqueue_router_wake r router macs t₁) router))
      ∙ ap is_some (
          time_of-live_entries t₂ mac _ (enqueue-OneEach r router macs t₁ one)
          ∙ ap (if_live t₂) (
              ap (time_of mac) (queue_of-enqueue r router macs t₁)
              ∙ time_of-push_new t₁ mac macs (live_entries t₁ (queue_of r router))
              ∙ ap (λ (o : Option Instant). or_else o (if has mac macs then some t₁ else none))
                  (time_of-live_entries t₁ mac (queue_of r router) one))),
  rw (get-remove_self router (enqueue_router_wake r router macs t₁).router_queue, queue_of) refl,
)
