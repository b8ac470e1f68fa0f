-- ===== src/LogThrottle.antt =====
-- host/src/log_throttle.rs: repeated log lines are dropped. `CallsiteThrottle` lets a place in the
-- code speak once in an interval; `Throttle` counts what it drops for each local address.
pub mod Laws
use rcdesk.Common.{
  string_test, ℕ, ◌+◌, ◌*◌, String, Option, none, some, Bool, true, false, if◌then◌else◌, ltb, leb,
  length, List, [], ◌∷◌,
}
use rcdesk.Assoc.{Assoc, get, insert, update}
use rcdesk.Registry.{Instant, Duration, since, nanos_per_sec}

abbrev pub throttle_interval : Duration
throttle_interval = 5 * nanos_per_sec

abbrev pub max_callsites : ℕ
max_callsites = 256

-- `CallsiteThrottle`, its lock taken.
pub record CallsiteThrottle : Type 0 where
  pub last : Assoc String Instant
  pub interval : Duration

unfoldable pub new : Duration → CallsiteThrottle
new interval = record { last = []; interval = interval }

-- `HashMap::clear` at the limit.
abbrev pub make_room {ℓ} : {V : Type ℓ} → ℕ → Assoc String V → Assoc String V
make_room limit m = if leb limit (length m) then [] else m

-- True lets the event pass.
unfoldable pub allow : CallsiteThrottle → String → Instant → Bool × CallsiteThrottle
allow t key now = elim (get key t.last) [
  | some prev ↦
      if ltb (since now prev) t.interval
      then (false, t)
      else (true, record t { last = update key (λ _. now) t.last })
  | none ↦ (true, record t { last = insert key now (make_room max_callsites t.last) })
]

abbrev pub window : Duration
window = 300 * nanos_per_sec

abbrev pub max_keys : ℕ
max_keys = 64

pub data Decision : Type 0 where
  -- how many were suppressed since the last pass
  pass : ℕ → Decision
  suppress : Decision

-- `Throttle.keys`: when a key last passed, and how many were suppressed since.
abbrev pub Throttle : Type 0
Throttle = Assoc String (Instant × ℕ)

unfoldable pub check : Throttle → String → Instant → Decision × Throttle
check keys key now = elim (get key keys) [
  | some (last, count) ↦
      if ltb (since now last) window
      then (suppress, update key (λ _. (last, count + 1)) keys)
      else (pass count, update key (λ _. (now, 0)) keys)
  | none ↦ (pass 0, insert key (now, 0) (make_room max_keys keys))
]
