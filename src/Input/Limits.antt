-- ===== src/Input/Limits.antt =====
-- host/src/input/mod.rs, `TokenBucket` and `InputRouter::push`: what reaches the router's queue. A
-- bucket's float tokens are exact here, in units of which a token has as many as a second has
-- nanoseconds.
use rcdesk.Common.{
  ℕ, ◌+◌, ◌-◌, ◌*◌, min, max, String, Option, none, some, Bool, true, false, if◌then◌else◌, leb,
}
use Prim.Native.String.{len}
use rcdesk.Registry.{Instant, since, nanos_per_sec}
use rcdesk.Outbound.{Channel, Try, sent, full, closed}
use rcdesk.Input.Pixels.{Reals}
use rcdesk.Input.Router.{InputMessage, release, text_typed}

abbrev pub input_queue_capacity : ℕ
input_queue_capacity = 256

abbrev pub input_burst : ℕ
input_burst = 600

abbrev pub input_refill_per_sec : ℕ
input_refill_per_sec = 300

abbrev pub text_burst_bytes : ℕ
text_burst_bytes = 16384

abbrev pub text_refill_bytes_per_sec : ℕ
text_refill_bytes_per_sec = 4096

pub record TokenBucket : Type 0 where
  pub tokens : ℕ
  pub capacity : ℕ
  pub refill_per_sec : ℕ
  pub last : Instant

unfoldable pub new_bucket : ℕ → ℕ → Instant → TokenBucket
new_bucket capacity refill now = record {
  tokens = capacity * nanos_per_sec;
  capacity = capacity * nanos_per_sec;
  refill_per_sec = refill;
  last = now;
}

unfoldable pub refilled : TokenBucket → Instant → TokenBucket
refilled b now = record b {
  last = max b.last now;
  tokens = min (b.tokens + since now b.last * b.refill_per_sec) b.capacity;
}

unfoldable pub take : TokenBucket → ℕ → Instant → Bool × TokenBucket
unfolding refilled
take b n now =
    let r = refilled b now in
    if leb (n * nanos_per_sec) r.tokens
    then (true, record r { tokens = r.tokens - n * nanos_per_sec })
    else (false, r)

pub data PushError : Type 0 where
  queue_full router_gone rate_limited : PushError

pub record RateLimiter : Type 0 where
  pub events : TokenBucket
  pub text_bytes : TokenBucket

module _ (r : Reals) (ch : Channel (InputMessage r)) where
  -- What `push` reads and writes; without a queue the sender has been dropped.
  pub record Gate : Type 0 where
    pub limiter : RateLimiter
    pub queue : Option ch.State

  unfoldable pub new_gate : Instant → Gate
  unfolding new_bucket
  new_gate now = record {
    limiter = record {
      events = new_bucket input_burst input_refill_per_sec now;
      text_bytes = new_bucket text_burst_bytes text_refill_bytes_per_sec now;
    };
    queue = some (ch.of_capacity input_queue_capacity);
  }

  abbrev pub push_error : Try → Option PushError
  push_error sent = none
  push_error full = some queue_full
  push_error closed = some router_gone

  -- `none` is `Ok(())`.
  unfoldable pub enqueue : InputMessage r → Gate → Option PushError × Gate
  enqueue msg g = elim g.queue [
    | none ↦ (some router_gone, g)
    | some q ↦
        (push_error ((ch.try_send q msg).0), record g { queue = some ((ch.try_send q msg).1) })
  ]

  unfoldable pub limit_events : Gate → Instant → Bool × Gate
  unfolding take
  limit_events g now =
      let (passed, events) = take g.limiter.events 1 now in
      (passed, record g { limiter = record g.limiter { events = events } })

  -- `u32::try_from(len).unwrap_or(u32::MAX)` is the minimum.
  unfoldable pub limit_text : String → Gate → Instant → Bool × Gate
  unfolding take
  limit_text s g now =
      let (passed, bytes) = take g.limiter.text_bytes (min (len s) 4_294_967_295) now in
      (passed, record g { limiter = record g.limiter { text_bytes = bytes } })

  unfoldable pub push : InputMessage r → Gate → Instant → Option PushError × Gate
  unfolding enqueue limit_events limit_text
  push release g now = enqueue release g
  push (text_typed s) g now =
      let (passed, g') = limit_events g now in
      if passed
      then (let (passed', g'') = limit_text s g' now in
          if passed' then enqueue (text_typed s) g'' else (some rate_limited, g''))
      else (some rate_limited, g')
  push msg g now =
      let (passed, g') = limit_events g now in
      if passed then enqueue msg g' else (some rate_limited, g')
