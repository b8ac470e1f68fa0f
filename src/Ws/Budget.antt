-- ===== src/Ws/Budget.antt =====
-- server/src/ws.rs, `MessageBudget`: how many messages a connection may send. The float tokens are
-- exact here, in units of which a token has as many as a second has nanoseconds.
use rcdesk.Common.{ℕ, ◌+◌, ◌-◌, ◌*◌, min, Bool, true, false, if◌then◌else◌, leb}
use rcdesk.Registry.{Instant, since, nanos_per_sec}

abbrev pub message_burst : ℕ
message_burst = 100

abbrev pub message_refill_per_sec : ℕ
message_refill_per_sec = 10

pub record MessageBudget : Type 0 where
  pub burst : ℕ
  pub refill_per_sec : ℕ
  pub tokens : ℕ
  pub updated : Instant

unfoldable pub new_budget : ℕ → ℕ → Instant → MessageBudget
new_budget burst refill now = record {
  burst = burst * nanos_per_sec;
  refill_per_sec = refill;
  tokens = burst * nanos_per_sec;
  updated = now;
}

unfoldable pub take_at : MessageBudget → Instant → Bool × MessageBudget
take_at b now =
    let tokens = min (b.tokens + since now b.updated * b.refill_per_sec) b.burst in
    if leb nanos_per_sec tokens
    then (true, record b { updated = now; tokens = tokens - nanos_per_sec })
    else (false, record b { updated = now; tokens = tokens })
