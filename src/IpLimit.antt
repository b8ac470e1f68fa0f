-- ===== src/IpLimit.antt =====
-- server/src/ip_limit.rs: token buckets, one for each address or one for the whole server.
-- A bucket's tokens are floats in the source. Here they are exact, counted in nanoseconds of refill:
-- one token is `refill` of them, and time gives one a nanosecond.

pub mod Limiter
pub mod Rate
use rcdesk.Common.{
  ℕ, ◌+◌, ◌-◌, ◌*◌, ◌/◌, ◌%◌, ◌^◌, ◌≡◌, ◌↔◌, min, Option, none, some, Bool, true, false,
  if◌then◌else◌, ltb, leb, ◌==◌, HasTest, nat_test, nat_beq, nat_beq_iff, length, arith, refl, ap,
  [],
}
use rcdesk.Assoc.{Assoc, get, insert, update, retain}
use rcdesk.Registry.{Instant, Duration, since}

-- A 32-bit or a 128-bit number.
pub data IpAddr : Type 0 where
  v4 v6 : ℕ → IpAddr

abbrev pub same_addr : IpAddr → IpAddr → Bool
same_addr (v4 a) (v4 b) = nat_beq a b
same_addr (v6 a) (v6 b) = nat_beq a b
same_addr _ _ = false

pub same_addr_iff : (a b : IpAddr) → (same_addr a b ≡ true) ↔ (a ≡ b)
same_addr_iff (v4 a) (v4 b) = (λ h. ap v4 ((nat_beq_iff a b).0 h), λ h. ground arith)
same_addr_iff (v6 a) (v6 b) = (λ h. ap v6 ((nat_beq_iff a b).0 h), λ h. ground arith)
same_addr_iff (v4 a) (v6 b) = (λ h. cc, λ h. cc)
same_addr_iff (v6 a) (v4 b) = (λ h. cc, λ h. cc)

instance abbrev pub addr_test : HasTest IpAddr
addr_test = record { test = same_addr; test_iff = same_addr_iff }

-- `to_ipv4_mapped`: the address is ::ffff:a.b.c.d.
unfoldable pub to_ipv4_mapped : ℕ → Option ℕ
to_ipv4_mapped a = if a / 2 ^ 32 == 0xffff then some (a % 2 ^ 32) else none

-- The upper 64 bits of an IPv6 address; `& (u128::MAX << 64)`.
unfoldable pub prefix_64 : ℕ → ℕ
prefix_64 a = a / 2 ^ 64 * 2 ^ 64

unfoldable pub bucket_key : IpAddr → IpAddr
unfolding to_ipv4_mapped prefix_64
bucket_key (v4 a) = v4 a
bucket_key (v6 a) = elim (to_ipv4_mapped a) [ some b ↦ v4 b | none ↦ v6 (prefix_64 a) ]

pub record Bucket : Type 0 where
  pub tokens : ℕ
  pub updated : Instant

-- What a full bucket holds.
abbrev pub full : ℕ → Duration → ℕ
full burst refill = burst * refill

unfoldable pub tokens_at : Bucket → Instant → ℕ → Duration → ℕ
tokens_at b now burst refill = min (b.tokens + since now b.updated) (full burst refill)

-- `max(0.0)` is subtraction that stops at 0.
unfoldable pub spent : Bucket → Instant → ℕ → Duration → Bucket
unfolding tokens_at
spent b now burst refill = record { tokens = tokens_at b now burst refill - refill; updated = now }

unfoldable pub refunded : Bucket → Instant → ℕ → Duration → Bucket
unfolding tokens_at
refunded b now burst refill = record {
  tokens = min (tokens_at b now burst refill + refill) (full burst refill);
  updated = now;
}

pub record IpLimiter : Type 0 where
  pub burst : ℕ
  pub refill : Duration
  pub buckets : Assoc IpAddr Bucket

unfoldable pub new : ℕ → Duration → IpLimiter
new burst refill = record { burst = burst; refill = refill; buckets = [] }

abbrev pub gc_threshold : ℕ
gc_threshold = 10_000

unfoldable pub check_at : IpLimiter → IpAddr → Instant → Bool
unfolding bucket_key tokens_at
check_at l ip now = elim (get (bucket_key ip) l.buckets) [
  | some b ↦ leb l.refill (tokens_at b now l.burst l.refill)
  | none ↦ true
]

-- Above the threshold the buckets that are full again are dropped.
unfoldable pub collected : IpLimiter → Instant → Assoc IpAddr Bucket
unfolding tokens_at
collected l now =
    if ltb gc_threshold (length l.buckets)
    then retain (λ _ b. ltb (tokens_at b now l.burst l.refill) (full l.burst l.refill)) l.buckets
    else l.buckets

-- `entry(key).or_insert(full bucket)`
unfoldable pub entry : Option Bucket → IpLimiter → Instant → Bucket
entry none l now = record { tokens = full l.burst l.refill; updated = now }
entry (some b) l now = b

unfoldable pub spend_at : IpLimiter → IpAddr → Instant → IpLimiter
unfolding bucket_key collected entry spent
spend_at l ip now =
    let buckets = collected l now in
    let b = entry (get (bucket_key ip) buckets) l now in
    record l { buckets = insert (bucket_key ip) (spent b now l.burst l.refill) buckets }

unfoldable pub refund_at : IpLimiter → IpAddr → Instant → IpLimiter
unfolding bucket_key refunded
refund_at l ip now = record l {
  buckets = update (bucket_key ip) (λ b. refunded b now l.burst l.refill) l.buckets;
}

-- One bucket for the whole server.
pub record GlobalLimiter : Type 0 where
  pub burst : ℕ
  pub refill : Duration
  pub bucket : Bucket

unfoldable pub new_global : ℕ → Duration → Instant → GlobalLimiter
new_global burst refill now = record {
  burst = burst;
  refill = refill;
  bucket = record { tokens = full burst refill; updated = now };
}

unfoldable pub check_global : GlobalLimiter → Instant → Bool
unfolding tokens_at
check_global g now = leb g.refill (tokens_at g.bucket now g.burst g.refill)

unfoldable pub spend_global : GlobalLimiter → Instant → GlobalLimiter
unfolding spent
spend_global g now = record g { bucket = spent g.bucket now g.burst g.refill }
