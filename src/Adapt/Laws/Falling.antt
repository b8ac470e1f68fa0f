-- ===== src/Adapt/Laws/Falling.antt =====
-- host/src/adapt/mod.rs, `tick`: while probing is held, the bitrate does not rise.
use mathlib.Core.Path.{subst}
use rcdesk.Common.{
  ℕ, ◌+◌, ◌≤◌, ◌<◌, ◌^◌, Option, none, some, Bool, true, false, ◌≡◌, ◌≢◌, refl, arith, leb, ◌&&◌,
  not, List, [], ◌∷◌, Bool-cases, inl, inr,
}
use rcdesk.Registry.{Instant}
use rcdesk.Adapt.{AdaptConfig, RateTarget, Decision, Reason}
use rcdesk.Adapt.Floats.{Floats, RoundingLaws, fmin, fmax, clamp}
use rcdesk.Adapt.Controller.{Controller}
use rcdesk.Adapt.Controller.Tick.{
  Signals, Rate, before, loss_probe_hold, remb_congestion_ticks, base_rate, cap_by_remb,
  cap_by_sent, new_rate, signals, answer, conclude, adapt, tick, fresh_loss,
}
use rcdesk.Adapt.Run.{heard, Event, said, ticked, react, run}
use rcdesk.Adapt.Laws.Bounds.{IsValid, feedback-IsValid, tick-IsValid, if_both}
use rcdesk.Adapt.Laws.Reasons.{HeldUntil, HeldUntil-before, before_kept}
use rcdesk.Adapt.Laws.Probing.{Since, run_hold, lossy_tick_hold, no_probe_after_loss}

-- What IEEE 754 says of finite values: the order, that it is the order of the whole numbers, and that
-- a rate less half of its lost share, which is more than 10%, is no more than the rate.
pub record OrderLaws (f : Floats) : Type 0 where
  pub lt_irreflexive : (a : f.F) → f.lt a a ≡ false
  pub lt_transitive : (a b c : f.F) → f.lt a b ≡ true → f.lt b c ≡ true → f.lt a c ≡ true
  pub from_nat_monotone : (n m : ℕ) → n ≤ m → f.lt (f.from_nat m) (f.from_nat n) ≡ false
  pub shrinks :
      (n : ℕ) (x : f.F)
      → f.lt (f.lit_f32 10 100) x ≡ true
      → f.lt (f.from_nat n) (f.mul (f.from_nat n) (f.sub (f.lit 1 1) (f.mul (f.lit 5 10) x)))
        ≡ false

module _ (f : Floats) (order : OrderLaws f) where
  -- A value that is below one that is not above `old` is not above it.
  below : (old x y : f.F) → f.lt x y ≡ true → f.lt old y ≡ false → f.lt old x ≡ false
  below old x y less up = elim (Bool-cases (f.lt old x)) [
    | inr off ↦ off
    | inl over ↦ absurd (clash (order.lt_transitive old x y over less) up)
  ]
    where
      clash : {b : Bool} → b ≡ true → b ≡ false → ⊥
      clash p q = ground arith

  fmin-NotAbove : (old x : f.F) → f.lt old (fmin f old x) ≡ false
  fmin-NotAbove old x = elim (Bool-cases (f.lt x old)) [
    | inl less ↦ rw less (below old x old less (order.lt_irreflexive old))
    | inr off ↦ rw off (order.lt_irreflexive old)
  ]

  and_not : (a b : Bool) → (not a && not true && b) ≡ false
  and_not true b = refl
  and_not false b = refl

  base_rate-NotAbove :
      (s : Signals f) (cfg : AdaptConfig) (now : Instant) (n : ℕ)
      → s.old_b ≡ f.from_nat n
      → before now s.probe_hold_until ≡ true
      → f.lt (f.from_nat n) ((base_rate f s cfg now).0) ≡ false
  unfolding base_rate
  base_rate-NotAbove s cfg now n is held = rw held (
      rw (and_not s.remb_congested _) (elim (Bool-cases (f.lt (f.lit_f32 10 100) s.loss)) [
        | inl lossy ↦ rw lossy (rw is (order.shrinks n s.loss lossy))
        | inr calm ↦
            rw calm
              (elim (Bool-cases (s.remb_congested && leb remb_congestion_ticks s.congested_ticks)) [
                | inl t ↦ rw t (rw is (fmin-NotAbove (f.from_nat n) _))
                | inr u ↦ rw u (rw is (order.lt_irreflexive (f.from_nat n)))
              ])
      ]))

  cap_by_remb-NotAbove :
      (old : f.F) (remb? : Option f.F) (until : Option Instant) (now : Instant) (r : Rate f)
      → f.lt old (r.0) ≡ false
      → f.lt old ((cap_by_remb f remb? until now r).0) ≡ false
  unfolding cap_by_remb
  cap_by_remb-NotAbove old none until now r n = n
  cap_by_remb-NotAbove old (some k) until now (b, reason) n =
      let ceiling = fmax f (f.mul k (f.lit 9 10)) (f.lit 1000 1) in
      elim (Bool-cases (before now until && f.lt ceiling b)) [
        | inl t ↦ rw t (below old ceiling b (ground arith) n)
        | inr u ↦ rw u n
      ]

  cap_by_sent-NotAbove :
      (old : f.F) (ceiling? : Option f.F) (until : Option Instant) (now : Instant) (r : Rate f)
      → f.lt old (r.0) ≡ false
      → f.lt old ((cap_by_sent f ceiling? until now r).0) ≡ false
  unfolding cap_by_sent
  cap_by_sent-NotAbove old none until now r n = n
  cap_by_sent-NotAbove old (some k) until now (b, reason) n =
      elim (Bool-cases (before now until && f.lt k b)) [
        | inl t ↦ rw t (below old k b (ground arith) n)
        | inr u ↦ rw u n
      ]

  clamp-NotAbove :
      (old x lo hi : f.F)
      → f.lt old lo ≡ false
      → f.lt old x ≡ false
      → f.lt old (clamp f x lo hi) ≡ false
  clamp-NotAbove old x lo hi low n = elim (Bool-cases (f.lt x lo)) [
    | inl t ↦ rw t low
    | inr u ↦
        rw u (elim (Bool-cases (f.lt hi x)) [ inl t ↦ rw t (below old hi x t n) | inr k ↦ rw k n ])
  ]

  new_rate-NotAbove :
      (s : Signals f) (cfg : AdaptConfig) (now : Instant) (n : ℕ)
      → s.old_b ≡ f.from_nat n
      → cfg.min_bitrate_kbps ≤ n
      → before now s.probe_hold_until ≡ true
      → f.lt (f.from_nat n) ((new_rate f s cfg now).0) ≡ false
  unfolding new_rate
  new_rate-NotAbove s cfg now n is low held =
      clamp-NotAbove (f.from_nat n) _ _ _ (order.from_nat_monotone cfg.min_bitrate_kbps n low) (
        cap_by_sent-NotAbove (f.from_nat n) s.sent_cap_kbps s.probe_hold_until now _ (
          cap_by_remb-NotAbove (f.from_nat n) s.remb_kbps s.loss_cap_until now _
            (base_rate-NotAbove s cfg now n is held)))

  -- A decision, if there is one, asks for no more than n kbit/s.
  abbrev AtMost : ℕ → Option Decision → Type 0
  AtMost n none = Unit
  AtMost n (some d) = d.target.bitrate_kbps ≤ n

  answer-AtMost :
      (b : Bool) (d : Decision) (c : Controller f) (n : ℕ)
      → d.target.bitrate_kbps ≤ n
      → AtMost n ((answer f b d c).0)
  unfolding answer
  answer-AtMost true d c n le = le
  answer-AtMost false d c n le = tt

  module _ (laws : RoundingLaws f) where
    conclude-AtMost :
        (c : Controller f) (s : Signals f) (r : Rate f) (n : ℕ)
        → n < 2 ^ 32
        → f.lt (f.from_nat n) (r.0) ≡ false
        → AtMost n ((conclude f c s r).0)
    unfolding conclude
    conclude-AtMost c s (b, reason) n word up =
        answer-AtMost _ _ _ n (laws.to_u32_upper b n word up)

    tick-AtMost :
        (c : Controller f) {t : Instant} (now : Instant)
        → IsValid f c
        → HeldUntil t c.probe_hold_until
        → now < t
        → AtMost c.target.bitrate_kbps ((tick f c now).0)
    unfolding tick adapt signals
    tick-AtMost c {t} now v h early =
        let high = v.bitrate_high in
        let word = v.sane.bitrate_word in
        if_both f (λ (x : Option Decision × Controller f). AtMost c.target.bitrate_kbps (x.0))
          c.preset_announce_pending (omega arith)
          (conclude-AtMost c (signals f c now) (new_rate f (signals f c now) c.cfg now)
            c.target.bitrate_kbps (omega arith)
            (new_rate-NotAbove (signals f c now) c.cfg now c.target.bitrate_kbps refl v.bitrate_low
              (before_kept (f.le (f.lit_f32 2 100) (fresh_loss f c now)) now c.probe_hold_until
                (HeldUntil-before h early))))

    run-IsValid :
        (events : List (Event f)) (told : RateTarget) (c : Controller f)
        → IsValid f c
        → IsValid f ((run f (told, c) events).1)
    unfolding run react
    run-IsValid [] told c v = v
    run-IsValid (said fb now ∷ events) told c v =
        run-IsValid events told _ (feedback-IsValid f fb now v)
    run-IsValid (ticked now ∷ events) told c v = run-IsValid events _ _ (tick-IsValid f laws now v)

    -- A tick at t that has no preset to tell sees a fresh loss of 2% or more. Then whatever feedback
    -- and later ticks come before it, a tick less than LOSS_PROBE_HOLD after t asks for no higher
    -- bitrate than the target has, and gives no probe as its reason. The controller's target is within
    -- its limits at t, and the floats keep OrderLaws and RoundingLaws.
    pub no_rise_after_loss :
        (c : Controller f) (told : RateTarget) (t now : Instant) (events : List (Event f))
        (d : Decision)
        → IsValid f c
        → c.preset_announce_pending ≡ false
        → f.le (f.lit_f32 2 100) (fresh_loss f c t) ≡ true
        → Since f t events
        → now < t + loss_probe_hold
        → (tick f ((run f (told, c) (ticked t ∷ events)).1) now).0 ≡ some d
        → (d.target.bitrate_kbps ≤ (run f (told, c) (ticked t ∷ events)).1.target.bitrate_kbps)
          × (d.reason ≢ Reason.probe)
    unfolding run react
    no_rise_after_loss c told t now events d v quiet lossy late early is_d =
        let after = heard told ((tick f c t).0) in
        let c' = (run f (after, (tick f c t).1) events).1 in
        let h =
          run_hold f t events after ((tick f c t).1) (lossy_tick_hold f c t quiet lossy) late in
        let v' = run-IsValid events after ((tick f c t).1) (tick-IsValid f laws t v) in
        (
          subst (AtMost c'.target.bitrate_kbps) is_d (tick-AtMost c' now v' h early),
          no_probe_after_loss f c told t now events d quiet lossy late early is_d,
        )
