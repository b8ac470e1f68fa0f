-- ===== src/Input/Laws/Rate.antt =====
-- host/src/input/mod.rs, `TokenBucket::take`: how much a bucket lets through.
use mathlib.Core.Path.{subst}
use rcdesk.Common.{
  ℕ, ◌+◌, ◌-◌, ◌*◌, ◌≤◌, min, max, List, [], ◌∷◌, if◌then◌else◌, leb, ◌≡◌, refl, ◌∙◌, inl, inr,
  arith, Bool-cases, leb→le,
}
use rcdesk.Registry.{Instant, nanos_per_sec}
use rcdesk.Input.Limits.{TokenBucket, new_bucket, refilled, take}

-- What the requests, each with its time, get of a bucket in turn, and the bucket after them.
abbrev pub taken : TokenBucket → List (ℕ × Instant) → ℕ × TokenBucket
taken b [] = (0, b)
taken b ((n, now) ∷ requests) =
    let (passed, b') = take b n now in
    let (rest, end) = taken b' requests in ((if passed then n else 0) + rest, end)

-- Tokens and time are exchanged at the rate of refill, and none are made.
take_balance :
    (b : TokenBucket) (n : ℕ) (now : Instant)
    → let (passed, b') = take b n now in
      ((if passed then n else 0) * nanos_per_sec + b'.tokens
        ≤ b.tokens + (b'.last - b.last) * b.refill_per_sec)
      × (b.last ≤ b'.last)
      × (b'.refill_per_sec ≡ b.refill_per_sec)
unfolding take refilled
take_balance b n now =
    let e : max b.last now - b.last ≡ now - b.last = omega arith in
    let room = min (b.tokens + (now - b.last) * b.refill_per_sec) b.capacity in
    elim (Bool-cases (leb (n * nanos_per_sec) room)) [
      | inl enough ↦
          let le = leb→le (n * nanos_per_sec) room enough in
          rw enough (rw e (omega arith, omega arith, refl))
      | inr short ↦ rw short (rw e (omega arith, omega arith, refl))
    ]

-- A longer time gives the sum of what its parts give.
rate_sum : (a b c r : ℕ) → a ≤ b → b ≤ c → (b - a) * r + (c - b) * r ≡ (c - a) * r
rate_sum a b c r p q = grind arith

taken_balance :
    (requests : List (ℕ × Instant)) (b : TokenBucket)
    → let (total, end) = taken b requests in
      (total * nanos_per_sec + end.tokens ≤ b.tokens + (end.last - b.last) * b.refill_per_sec)
      × (b.last ≤ end.last)
      × (end.refill_per_sec ≡ b.refill_per_sec)
taken_balance [] b = (omega arith, omega arith, refl)
taken_balance ((n, now) ∷ requests) b =
    let (one, later, same) = take_balance b n now in
    let b' = (take b n now).1 in
    let (more, latest, kept) = taken_balance requests b' in
    let end = (taken b' requests).1 in
    let sum = rate_sum b.last b'.last end.last b.refill_per_sec later latest in
    let more' : (taken b' requests).0 * nanos_per_sec + end.tokens
        ≤ b'.tokens + (end.last - b'.last) * b.refill_per_sec =
      subst
        (λ (k : ℕ).
          (taken b' requests).0 * nanos_per_sec + end.tokens ≤ b'.tokens + (end.last - b'.last) * k)
        same more in
    (omega arith, omega arith, kept ∙ same)

-- Of a bucket, from its making on, no more passes than its capacity and what the time between its
-- making and its last request refills, whatever is asked for and in whatever order of times.
pub taken_bound :
    (capacity refill : ℕ) (start : Instant) (requests : List (ℕ × Instant))
    → let (total, end) = taken (new_bucket capacity refill start) requests in
      total * nanos_per_sec ≤ capacity * nanos_per_sec + (end.last - start) * refill
unfolding new_bucket
taken_bound capacity refill start requests =
    let (total, later, same) = taken_balance requests (new_bucket capacity refill start) in
    omega arith
