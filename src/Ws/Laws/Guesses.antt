-- ===== src/Ws/Laws/Guesses.antt =====
-- server/src/ws.rs, `Join`: how many wrong PINs an address gets to try, whatever others do.
use rcdesk.Common.{
  ℕ, suc, ◌+◌, ◌-◌, ◌*◌, ◌≤◌, String, Bool, true, false, not, ◌&&◌, List, [], ◌∷◌, ◌≡◌, refl,
  if◌then◌else◌, ◌==◌, ◌⊎◌, inl, inr, Bool-cases, arith, nat_test, string_test,
}
use native.Mathlib.Nat.{mul-le-mul_right}
use mathlib.Core.Path.{subst}
use rcdesk.Registry.{Tx, Inner, Instant, Duration}
use rcdesk.Registry.Draws.{Draws, Outcome, done, starved, panicked, ◌>>=◌}
use rcdesk.Registry.Join.{Result, ok, err, PinJoined}
use rcdesk.IpLimit.{
  IpAddr, addr_test, bucket_key, IpLimiter, new, check_at, spend_at, GlobalLimiter, check_global,
}
use rcdesk.IpLimit.Rate.{admitted, Ascending, admitted_passed, new-admitted_bound}
use rcdesk.Ws.{error, IceServer, Effect, send}
use rcdesk.Ws.Client.{Server, Ensured, on_joined, join_answer, on_join}

-- The answer tells the client that the registry refused its PIN.
unfoldable pub reveals : List Effect → Bool
reveals (send to (error m) ∷ effects) = not (m == "too many attempts")
reveals effects = false

-- A `Join`, what others did to the registry before it, and what it draws and is answered.
pub record Try : Type 0 where
  pub tx : Tx
  pub ip : IpAddr
  pub now : Instant
  pub pin : String
  pub draws : Draws
  pub ensured : Ensured
  pub before : Inner → Inner

module _ (ice_servers : String → List IceServer) (pin_ttl : Duration) where
  abbrev pub tried : Server → Try → Outcome (Server × List Effect × Draws)
  tried s t =
      on_join ice_servers t.tx t.ip t.now (record s { registry = t.before s.registry }) t.pin
        pin_ttl t.draws t.ensured

  unfoldable pub counted :
      IpAddr → IpAddr → (Server → ℕ) → Outcome (Server × List Effect × Draws) → ℕ
  unfolding reveals
  counted key ip rest (done (s, effects, ds)) =
      if reveals effects && (bucket_key ip == key) then suc (rest s) else rest s
  counted key ip rest starved = 0
  counted key ip rest panicked = 0

  -- How many of the answers to the addresses of one bucket reveal that a PIN is wrong.
  unfoldable pub revealed : Server → IpAddr → List Try → ℕ
  unfolding counted
  revealed s key [] = 0
  revealed s key (t ∷ tries) = counted key t.ip (λ s'. revealed s' key tries) (tried s t)

  -- What a `Join` does to the bucket of its address.
  Charged : Server → IpAddr → Instant → Server × List Effect × Draws → Type 0
  Charged s ip now (s', effects, rest) =
      ((reveals effects ≡ false) × (s'.pin_limiter ≡ s.pin_limiter))
      ⊎ ((check_at s.pin_limiter ip now ≡ true) × (s'.pin_limiter ≡ spend_at s.pin_limiter ip now))

  ChargedDone : Server → IpAddr → Instant → Outcome (Server × List Effect × Draws) → Type 0
  ChargedDone s ip now (done out) = Charged s ip now out
  ChargedDone s ip now starved = Unit
  ChargedDone s ip now panicked = Unit

  join_answer-Charged :
      (s : Server) (tx : Tx) (ip : IpAddr) (now : Instant) (ensured : Ensured)
      (answered : Result PinJoined × Inner × Draws)
      → check_at s.pin_limiter ip now ≡ true
      → Charged s ip now (join_answer ice_servers tx ip now s ensured answered)
  unfolding join_answer on_joined reveals Charged
  join_answer-Charged s tx ip now ensured (ok (sid, h, name, host_tx, new_pin), r, rest) c =
      inl (refl, refl)
  join_answer-Charged s tx ip now ensured (err e, r, rest) c = inr (c, refl)

  joining-Charged :
      (s : Server) (tx : Tx) (ip : IpAddr) (now : Instant) (ensured : Ensured)
      (m : Outcome (Result PinJoined × Inner × Draws))
      → check_at s.pin_limiter ip now ≡ true
      → ChargedDone s ip now
          (m >>= (λ answered. done (join_answer ice_servers tx ip now s ensured answered)))
  unfolding ChargedDone
  joining-Charged s tx ip now ensured (done answered) c =
      join_answer-Charged s tx ip now ensured answered c
  joining-Charged s tx ip now ensured starved c = tt
  joining-Charged s tx ip now ensured panicked c = tt

  on_join-Charged :
      (s : Server) (tx : Tx) (ip : IpAddr) (now : Instant) (pin : String) (ds : Draws)
      (ensured : Ensured)
      → ChargedDone s ip now (on_join ice_servers tx ip now s pin pin_ttl ds ensured)
  unfolding on_join ChargedDone Charged reveals
  on_join-Charged s tx ip now pin ds ensured = elim (Bool-cases (check_at s.pin_limiter ip now)) [
    | inr f ↦ rw f (inl (refl, refl))
    | inl c ↦ elim (Bool-cases (check_global s.pin_global_limiter now)) [
      | inr f ↦ rw (c, f) (inl (refl, refl))
      | inl g ↦ rw (c, g) (joining-Charged s tx ip now ensured _ c)
    ]
  ]

  -- The tries that are charged, as the limiter's events.
  Covered : Server → IpAddr → List Try → Instant → Instant → Type 0
  Covered s key tries now end =
      (events : List (IpAddr × Instant)) × Ascending now events end
      × (revealed s key tries ≤ admitted s.pin_limiter key events)

  earlier :
      (now t : Instant) (events : List (IpAddr × Instant)) (end : Instant)
      → now ≤ t
      → Ascending t events end
      → Ascending now events end
  earlier now t [] end le up = omega arith
  earlier now t ((ip, at) ∷ events) end le (next, up) = (omega arith, up)

  cover_one_more :
      (s : Server) (key : IpAddr) (t : Try) (tries : List Try) (now end : Instant)
      (answer : Outcome (Server × List Effect × Draws))
      → now ≤ t.now
      → now ≤ end
      → ChargedDone s t.ip t.now answer
      → ((s' : Server) → Covered s' key tries t.now end)
      → (events : List (IpAddr × Instant)) × Ascending now events end
        × (counted key t.ip (λ s'. revealed s' key tries) answer
            ≤ admitted s.pin_limiter key events)
  unfolding counted Charged ChargedDone Covered
  cover_one_more s key t tries now end starved le past charged rest = ([], past, omega arith)
  cover_one_more s key t tries now end panicked le past charged rest = ([], past, omega arith)
  cover_one_more s key t tries now end (done (s', effects, ds)) le past (inl (quiet, same)) rest =
      let (events, up, covered) = rest s' in
      (
        events,
        earlier now t.now events end le up,
        rw quiet
            (subst (λ (l : IpLimiter). revealed s' key tries ≤ admitted l key events) same covered),
      )
  cover_one_more s key t tries now end (done (s', effects, ds)) le past (inr (passes, spent)) rest =
      let (events, up, covered) = rest s' in
      let more = admitted_passed s.pin_limiter key t.ip t.now events passes in
      let covered' : revealed s' key tries
          ≤ admitted (spend_at s.pin_limiter t.ip t.now) key events =
        subst (λ (l : IpLimiter). revealed s' key tries ≤ admitted l key events) spent covered in
      (
        (t.ip, t.now) ∷ events,
        (le, up),
        rw more (elim (Bool-cases (bucket_key t.ip == key)) [
          | inl here ↦ elim (Bool-cases (reveals effects)) [
            | inl shown ↦ rw (here, shown) (omega arith)
            | inr quiet ↦ rw (here, quiet) (omega arith)
          ]
          | inr off ↦ elim (Bool-cases (reveals effects)) [
            | inl shown ↦ rw (off, shown) covered'
            | inr quiet ↦ rw (off, quiet) covered'
          ]
        ]),
      )

  -- The times do not fall, from `now` to `end`.
  abbrev pub InOrder : Instant → List Try → Instant → Type 0
  InOrder now [] end = now ≤ end
  InOrder now (t ∷ tries) end = (now ≤ t.now) × InOrder t.now tries end

  InOrder-le :
      (now : Instant) (tries : List Try) (end : Instant) → InOrder now tries end → now ≤ end
  InOrder-le now [] end up = up
  InOrder-le now (t ∷ tries) end (le, up) = omega (arith, InOrder-le t.now tries end up)

  revealed-Covered :
      (tries : List Try) (s : Server) (key : IpAddr) (now end : Instant)
      → InOrder now tries end
      → Covered s key tries now end
  unfolding revealed Covered ChargedDone Charged
  revealed-Covered [] s key now end up = ([], up, omega arith)
  revealed-Covered (t ∷ tries) s key now end (le, up) =
      cover_one_more s key t tries now end _ le (omega (arith, InOrder-le t.now tries end up))
        (on_join-Charged (record s { registry = t.before s.registry }) t.tx t.ip t.now t.pin t.draws
          t.ensured)
        (λ s'. revealed-Covered tries s' key t.now end up)

  -- From the server's start on, if the joins are handled one after another, each from the tests of the
  -- limits to the spending of its tokens: whoever tries which PINs, in whatever order, and whatever else
  -- happens to the registry between them, the answers that tell an address's bucket that a PIN was wrong are at most the
  -- burst and one for each `refill` that went by.
  pub revealed_bound :
      (burst : ℕ) (refill : Duration) (registry : Inner) (g : GlobalLimiter) (key : IpAddr)
      (tries : List Try) (now end : Instant)
      → 1 ≤ burst
      → InOrder now tries end
      → revealed
            (record { registry = registry; pin_limiter = new burst refill; pin_global_limiter = g })
            key
            tries
          * refill
        ≤ burst * refill + (end - now)
  unfolding Covered
  revealed_bound burst refill registry g key tries now end b up =
      let s : Server = record {
        registry = registry;
        pin_limiter = new burst refill;
        pin_global_limiter = g;
      } in
      let (events, rising, covered) = revealed-Covered tries s key now end up in
      let bound = new-admitted_bound burst refill key events now end b rising in
      omega (arith, mul-le-mul_right refill covered)
