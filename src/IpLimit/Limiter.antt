-- ===== src/IpLimit/Limiter.antt =====
-- server/src/ip_limit.rs: what an address has left, and that dropping full buckets is not seen.
use rcdesk.Common.{
  ℕ, ◌+◌, ◌-◌, ◌≤◌, ◌≡◌, ◌⊎◌, refl, ap, ◌∙◌, min, Option, none, some, Bool, if◌then◌else◌, ltb,
  ◌==◌, length, arith, Option-cases, Bool-cases, ==_cases, if_true, if_false, inl, inr,
}
use rcdesk.Assoc.{Unique, get, retain, get-insert, get-retain, kept, retain-Unique}
use rcdesk.Registry.{Instant, Duration}
use rcdesk.IpLimit.{
  IpAddr, addr_test, bucket_key, Bucket, full, tokens_at, spent, IpLimiter, gc_threshold, collected,
  entry, spend_at,
}

-- The tokens that an entry of the table stands for: with no bucket, all of them.
unfoldable pub worth : ℕ → Duration → Option Bucket → Instant → ℕ
worth burst refill none now = full burst refill
worth burst refill (some b) now = tokens_at b now burst refill

unfoldable pub available : IpLimiter → IpAddr → Instant → ℕ
available l key now = worth l.burst l.refill (get key l.buckets) now

-- A bucket has no more than it can hold, and was written no later than `now`.
abbrev pub Sound : ℕ → Duration → Instant → Option Bucket → Type 0
Sound burst refill now none = Unit
Sound burst refill now (some b) = (b.tokens ≤ full burst refill) × (b.updated ≤ now)

pub record IsValid (l : IpLimiter) (now : Instant) : Type 0 where
  pub unique : Unique l.buckets
  pub sound : (key : IpAddr) → Sound l.burst l.refill now (get key l.buckets)

module _ (burst : ℕ) (refill : Duration) (now t : Instant) (h : now ≤ t) where
  pub worth_later :
      (o : Option Bucket)
      → Sound burst refill now o
      → worth burst refill o t ≡ min (worth burst refill o now + (t - now)) (full burst refill)
  unfolding worth tokens_at
  worth_later none s = omega arith
  worth_later (some b) s = omega arith

  -- A bucket that the collection drops is as good as a new one.
  worth-full :
      (b : Bucket)
      → b.updated ≤ now
      → full burst refill ≤ tokens_at b now burst refill
      → worth burst refill none t ≡ worth burst refill (some b) t
  unfolding worth tokens_at
  worth-full b past high = omega arith

  worth-spent :
      (o : Option Bucket) (l : IpLimiter)
      → l.burst ≡ burst
      → l.refill ≡ refill
      → worth burst refill (some (spent (entry o l now) now burst refill)) t
        ≡ min (worth burst refill o now - refill + (t - now)) (full burst refill)
  unfolding worth spent entry
  worth-spent none l p q = rw (p, q) (omega arith)
  worth-spent (some b) l p q = omega arith

pub get-collected :
    (l : IpLimiter) (now : Instant) (key : IpAddr)
    → Unique l.buckets
    → (get key (collected l now) ≡ get key l.buckets)
      ⊎ ((b : Bucket) × (get key l.buckets ≡ some b)
          × (get key (collected l now) ≡ none)
          × (full l.burst l.refill ≤ tokens_at b now l.burst l.refill))
unfolding collected
get-collected l now key u = elim (Bool-cases (ltb gc_threshold (length l.buckets))) [
  | inr f ↦ inl (ground arith)
  | inl t ↦ elim (Option-cases (get key l.buckets)) [
    | inl a ↦ inl (ground (arith, left))
    | inr (b, a) ↦ elim (Bool-cases (low key b)) [
      | inl e ↦ inl (ground (arith, left))
      | inr n ↦ inr (b, a, ground (arith, left), ground arith)
    ]
  ]
]
  where
    low : IpAddr → Bucket → Bool
    low _ b = ltb (tokens_at b now l.burst l.refill) (full l.burst l.refill)

    left : get key (retain low l.buckets) ≡ kept low key (get key l.buckets)
    left = get-retain low key l.buckets u

pub collected-Unique : (l : IpLimiter) (now : Instant) → Unique l.buckets → Unique (collected l now)
unfolding collected
collected-Unique l now u = ground (
  arith,
  retain-Unique (λ _ b. ltb (tokens_at b now l.burst l.refill) (full l.burst l.refill)) l.buckets u,
)

module _ {l : IpLimiter} {now : Instant} (v : IsValid l now) where
  -- Time gives tokens back, one for each `refill`, up to the burst.
  pub available_later :
      (key : IpAddr) (t : Instant)
      → now ≤ t
      → available l key t ≡ min (available l key now + (t - now)) (full l.burst l.refill)
  unfolding available
  available_later key t h = worth_later l.burst l.refill now t h (get key l.buckets) (v.sound key)

  -- Dropping the full buckets is not seen, now or later.
  pub worth-collected :
      (key : IpAddr) (t : Instant)
      → now ≤ t
      → worth l.burst l.refill (get key (collected l now)) t ≡ available l key t
  unfolding available
  worth-collected key t h = elim (get-collected l now key v.unique) [
    | inl same ↦ rw same refl
    | inr (b, a, gone, high) ↦
        let s : Sound l.burst l.refill now (some b) = rw a at (v.sound key) in
        rw (gone, a) (worth-full l.burst l.refill now t h b s.1 high)
  ]

  -- `spend_at` takes one token, or what there is, from the address's bucket. No other bucket has
  -- more or less than without it, now or later, though full buckets may be dropped.
  pub available-spend_at :
      (ip key : IpAddr) (t : Instant)
      → now ≤ t
      → available (spend_at l ip now) key t ≡ (
          if bucket_key ip == key
          then min (available l key now - l.refill + (t - now)) (full l.burst l.refill)
          else available l key t)
  unfolding available spend_at
  available-spend_at ip key t h = elim (==_cases (bucket_key ip) key) [
    | inr (f, _) ↦ rw f (
        ap (λ (o : Option Bucket). worth l.burst l.refill o t)
          (get-insert key (bucket_key ip) written (collected l now) ∙ if_false _ (some written) _ f)
        ∙ worth-collected key t h)
    | inl (e, same) ↦ rw e (
        ap (λ (o : Option Bucket). worth l.burst l.refill o t)
          (get-insert key (bucket_key ip) written (collected l now) ∙ if_true _ (some written) _ e)
        ∙ worth-spent l.burst l.refill now t h (get (bucket_key ip) (collected l now)) l refl refl
        ∙ ap (λ (n : ℕ). min (n - l.refill + (t - now)) (full l.burst l.refill))
            (worth-collected (bucket_key ip) now (omega arith)
              ∙ ap (λ (k : IpAddr). available l k now) same))
  ]
    where
      written : Bucket
      written = spent (entry (get (bucket_key ip) (collected l now)) l now) now l.burst l.refill
