-- ===== src/IpLimit/Rate.antt =====
-- server/src/ip_limit.rs: how many events an address gets through, whoever else is at it.
use mathlib.Core.Path.{subst}
use rcdesk.Common.{
  ℕ, suc, ◌+◌, ◌-◌, ◌*◌, ◌≤◌, ◌≡◌, refl, sym, ◌∙◌, min, Option, none, some, Bool, true, false,
  if◌then◌else◌, leb, ◌==◌, if_true, if_false, ==_cases, ==_self, leb→le, arith, Bool-cases,
  Option-cases, inl, inr, List, [], ◌∷◌,
}
use rcdesk.Assoc.{get, get-insert, get-insert_self, get-update, insert-Unique}
use rcdesk.Registry.{Instant, Duration}
use rcdesk.IpLimit.{
  IpAddr, addr_test, bucket_key, Bucket, full, spent, refunded, IpLimiter, new, check_at, collected,
  entry, spend_at, refund_at,
}
use rcdesk.IpLimit.Limiter.{
  worth, available, Sound, IsValid, get-collected, collected-Unique, available_later,
  available-spend_at, worth-collected,
}

later-Sound :
    (burst : ℕ) (refill : Duration) (now t : Instant) (o : Option Bucket)
    → now ≤ t
    → Sound burst refill now o
    → Sound burst refill t o
later-Sound burst refill now t none h s = tt
later-Sound burst refill now t (some b) h s = (s.0, omega arith)

pub later-IsValid :
    {l : IpLimiter} {now : Instant} (t : Instant) → now ≤ t → IsValid l now → IsValid l t
later-IsValid {l} {now} t h v = record {
  unique = v.unique;
  sound = λ key. later-Sound l.burst l.refill now t (get key l.buckets) h (v.sound key);
}

pub new-IsValid : (burst : ℕ) (refill : Duration) (now : Instant) → IsValid (new burst refill) now
unfolding new get
new-IsValid burst refill now = record { unique = tt; sound = λ key. tt }

module _ {l : IpLimiter} {now : Instant} (v : IsValid l now) where
  collected-Sound : (key : IpAddr) → Sound l.burst l.refill now (get key (collected l now))
  collected-Sound key = elim (get-collected l now key v.unique) [
    | inl same ↦
        subst (λ (o : Option Bucket). Sound l.burst l.refill now o) (sym same) (v.sound key)
    | inr (b, a, gone, high) ↦
        subst (λ (o : Option Bucket). Sound l.burst l.refill now o) (sym gone) tt
  ]

  spent-Sound : (b : Bucket) → Sound l.burst l.refill now (some (spent b now l.burst l.refill))
  unfolding spent
  spent-Sound b = (omega arith, omega arith)

  pub spend_at-IsValid : (ip : IpAddr) → IsValid (spend_at l ip now) now
  unfolding spend_at
  spend_at-IsValid ip = record {
    unique = insert-Unique (bucket_key ip) _ (collected l now) (collected-Unique l now v.unique);
    sound = λ key.
        subst (λ (o : Option Bucket). Sound l.burst l.refill now o)
          (sym (get-insert key (bucket_key ip) written (collected l now)))
          (elim (Bool-cases (bucket_key ip == key)) [
            | inl e ↦ rw e (spent-Sound _)
            | inr f ↦ rw f (collected-Sound key)
          ]);
  }
    where
      written : Bucket
      written = spent (entry (get (bucket_key ip) (collected l now)) l now) now l.burst l.refill

  -- `check_at` passes exactly if the address's bucket has a whole token.
  check_at_lem :
      (ip : IpAddr)
      → 1 ≤ l.burst
      → check_at l ip now ≡ leb l.refill (available l (bucket_key ip) now)
  unfolding check_at available worth
  check_at_lem ip b = elim (Option-cases (get (bucket_key ip) l.buckets)) [
    | inl a ↦ rw (a, check_at, worth) (grind arith)
    | inr (bucket, a) ↦ rw (a, check_at, worth) refl
  ]

-- `check_at`, and `spend_at` if it passes.
unfoldable pub attempt : IpLimiter → IpAddr → Instant → Bool × IpLimiter
attempt l ip now = if check_at l ip now then (true, spend_at l ip now) else (false, l)

-- How many attempts on one bucket pass, among attempts of all addresses in turn.
unfoldable pub admitted : IpLimiter → IpAddr → List (IpAddr × Instant) → ℕ
admitted l key [] = 0
admitted l key ((ip, t) ∷ events) =
    let (passed, l') = attempt l ip t in
    let rest = admitted l' key events in
    if passed then (if bucket_key ip == key then suc rest else rest) else rest

-- The events' times do not fall, from `now` to `end`.
abbrev pub Ascending : Instant → List (IpAddr × Instant) → Instant → Type 0
Ascending now [] end = now ≤ end
Ascending now ((ip, t) ∷ events) end = (now ≤ t) × Ascending t events end

Ascending-le :
    (now : Instant) (events : List (IpAddr × Instant)) (end : Instant)
    → Ascending now events end
    → now ≤ end
Ascending-le now [] end up = up
Ascending-le now ((ip, t) ∷ events) end up = omega (arith, up.0, Ascending-le t events end up.1)

burst-spend_at : (l : IpLimiter) (ip : IpAddr) (now : Instant) → (spend_at l ip now).burst ≡ l.burst
unfolding spend_at
burst-spend_at l ip now = refl

refill-spend_at :
    (l : IpLimiter) (ip : IpAddr) (now : Instant) → (spend_at l ip now).refill ≡ l.refill
unfolding spend_at
refill-spend_at l ip now = refl

admitted_refused :
    (l : IpLimiter) (key ip : IpAddr) (t : Instant) (events : List (IpAddr × Instant))
    → check_at l ip t ≡ false
    → admitted l key ((ip, t) ∷ events) ≡ admitted l key events
unfolding admitted attempt
admitted_refused l key ip t events f = rw f refl

pub admitted_passed :
    (l : IpLimiter) (key ip : IpAddr) (t : Instant) (events : List (IpAddr × Instant))
    → check_at l ip t ≡ true
    → admitted l key ((ip, t) ∷ events) ≡ (
        if bucket_key ip == key
        then suc (admitted (spend_at l ip t) key events)
        else admitted (spend_at l ip t) key events)
unfolding admitted attempt
admitted_passed l key ip t events c = rw c refl

-- However the addresses' attempts interleave, those of one bucket that pass, each worth `refill`,
-- are covered by what the bucket had and the time that went by.
pub admitted_bound :
    (events : List (IpAddr × Instant)) {l : IpLimiter} (key : IpAddr) {now : Instant}
    (end : Instant)
    → 1 ≤ l.burst
    → IsValid l now
    → Ascending now events end
    → admitted l key events * l.refill ≤ available l key now + (end - now)
unfolding admitted
admitted_bound [] key end b v up = omega arith
admitted_bound ((ip, t) ∷ events) {l = l} key {now = now} end b v up =
    elim (Bool-cases (check_at l ip t)) [
      | inr f ↦ rw (admitted_refused l key ip t events f) (
          omega (
            arith,
            later,
            Ascending-le t events end up.1,
            admitted_bound events {l = l} key {now = t} end b w up.1,
          ))
      | inl c ↦
          let rest : admitted (spend_at l ip t) key events * (spend_at l ip t).refill
              ≤ available (spend_at l ip t) key t + (end - t) =
            admitted_bound events {l = spend_at l ip t} key {now = t} end
              (rw (burst-spend_at l ip t) b) (spend_at-IsValid w ip) up.1 in
          let same_refill = refill-spend_at l ip t in
          let rest' : admitted (spend_at l ip t) key events * l.refill
              ≤ available (spend_at l ip t) key t + (end - t) =
            subst
              (λ (n : ℕ).
                admitted (spend_at l ip t) key events * n
                ≤ available (spend_at l ip t) key t + (end - t))
              same_refill rest in
          elim (==_cases (bucket_key ip) key) [
            | inr (f, _) ↦
                rw (admitted_passed l key ip t events c ∙ if_false _ _ _ f)
                  (omega (arith, later, rest', left f, Ascending-le t events end up.1))
            | inl (e, same) ↦
                rw (admitted_passed l key ip t events c ∙ if_true _ _ _ e) (
                  omega
                    (arith, later, rest', taken e, whole c same, Ascending-le t events end up.1))
          ]
    ]
  where
    later : available l key t ≡ min (available l key now + (t - now)) (full l.burst l.refill)
    later = available_later v key t up.0

    w : IsValid l t
    w = later-IsValid t up.0 v

    after : available (spend_at l ip t) key t ≡ (
        if bucket_key ip == key
        then min (available l key t - l.refill + (t - t)) (full l.burst l.refill)
        else available l key t)
    after = available-spend_at w ip key t (omega arith)

    left : (bucket_key ip == key) ≡ false → available (spend_at l ip t) key t ≡ available l key t
    left f = after ∙ if_false _ _ _ f

    taken :
        (bucket_key ip == key) ≡ true
        → available (spend_at l ip t) key t
          ≡ min (available l key t - l.refill + (t - t)) (full l.burst l.refill)
    taken e = after ∙ if_true _ _ _ e

    whole : check_at l ip t ≡ true → bucket_key ip ≡ key → l.refill ≤ available l key t
    whole c same =
        let e : leb l.refill (available l (bucket_key ip) t) ≡ true =
          sym (check_at_lem w ip b) ∙ c in
        rw same at (leb→le _ _ e)

available-new :
    (burst : ℕ) (refill : Duration) (key : IpAddr) (now : Instant)
    → available (new burst refill) key now ≡ full burst refill
unfolding available worth new get
available-new burst refill key now = refl

-- From a new limiter on, of the attempts of an address up to `end` no more pass than the burst and
-- one for each `refill` that went by.
pub new-admitted_bound :
    (burst : ℕ) (refill : Duration) (key : IpAddr) (events : List (IpAddr × Instant))
    (now end : Instant)
    → 1 ≤ burst
    → Ascending now events end
    → admitted (new burst refill) key events * refill ≤ burst * refill + (end - now)
unfolding new
new-admitted_bound burst refill key events now end b up =
    rw (available-new burst refill key now) at (
      admitted_bound events {l = new burst refill} key {now = now} end b
        (new-IsValid burst refill now) up)

worth-refunded :
    (burst : ℕ) (refill : Duration) (now : Instant) (o : Option Bucket) (l : IpLimiter)
    → l.burst ≡ burst
    → l.refill ≡ refill
    → refill ≤ worth burst refill o now
    → worth burst refill
        (some (refunded (spent (entry o l now) now burst refill) now burst refill))
        now
      ≡ worth burst refill o now
unfolding worth refunded spent entry
worth-refunded burst refill now none l p q h = rw (p, q) (omega arith)
worth-refunded burst refill now (some b) l p q h = omega arith

-- An attempt that passed and is refunded at the same instant costs nothing: the address's bucket
-- has what it had.
refund_at-spend_at :
    {l : IpLimiter} {now : Instant} (ip : IpAddr)
    → IsValid l now
    → l.refill ≤ available l (bucket_key ip) now
    → available (refund_at (spend_at l ip now) ip now) (bucket_key ip) now
      ≡ available l (bucket_key ip) now
unfolding refund_at spend_at available
refund_at-spend_at {l} {now} ip v enough =
    rw (get-update, ==_self (bucket_key ip), get-insert_self)
      (worth-refunded l.burst l.refill now (get (bucket_key ip) (collected l now)) l refl refl
          (rw kept enough)
        ∙ kept)
  where
    kept :
        worth l.burst l.refill (get (bucket_key ip) (collected l now)) now
        ≡ worth l.burst l.refill (get (bucket_key ip) l.buckets) now
    kept = worth-collected v (bucket_key ip) now (omega arith)
