-- ===== src/Adapt/Laws/Probing.antt =====
-- host/src/adapt/mod.rs, `LOSS_PROBE_HOLD`: after a loss the controller does not probe for a while.
use rcdesk.Common.{
  ◌+◌, ◌≤◌, ◌<◌, Option, some, Bool, true, false, ◌≡◌, ◌≢◌, refl, arith, List, [], ◌∷◌,
}
use rcdesk.Registry.{Instant}
use rcdesk.Adapt.{RateTarget, Decision, Reason}
use rcdesk.Adapt.Floats.{Floats}
use rcdesk.Adapt.Controller.{
  Controller, Feedback, remb, loss, receiver_stats, frame, overrun, set_quality, feedback,
  set_preset,
}
use rcdesk.Adapt.Controller.Tick.{
  Signals, Rate, signals, before, loss_probe_hold, new_rate, answer, conclude, adapt, tick,
  fresh_loss,
}
use rcdesk.Adapt.Laws.Bounds.{if_both}
use rcdesk.Adapt.Run.{heard, Event, said, ticked, react, run}
use rcdesk.Adapt.Laws.Reasons.{
  is_probe, reason_of, decide_reason-is_probe, HeldUntil, HeldUntil-before, HeldUntil-kept,
  not_probe, before_kept, new_rate-NoProbe, NoProbe,
}

module _ (f : Floats) where
  feedback_hold :
      (c : Controller f) (fb : Feedback f) (now : Instant)
      → (feedback f c fb now).probe_hold_until ≡ c.probe_hold_until
  unfolding feedback set_preset
  feedback_hold c (remb bps) now = refl
  feedback_hold c (loss fraction total) now = refl
  feedback_hold c receiver_stats now = refl
  feedback_hold c (frame bytes) now = refl
  feedback_hold c (overrun frames) now = refl
  feedback_hold c (set_quality preset) now = refl

  answer-is_probe :
      (b : Bool) (d : Decision) (c : Controller f)
      → is_probe (some d.reason) ≡ false
      → is_probe (reason_of ((answer f b d c).0)) ≡ false
  unfolding answer
  answer-is_probe true d c n = n
  answer-is_probe false d c n = refl

  conclude-is_probe :
      (c : Controller f) (s : Signals f) (r : Rate f)
      → NoProbe f r
      → is_probe (reason_of ((conclude f c s r).0)) ≡ false
  unfolding conclude
  conclude-is_probe c s (b, reason) n =
      answer-is_probe _ _ _ (decide_reason-is_probe reason _ _ n.not_probe)

  adapt-is_probe :
      (c : Controller f) (now : Instant)
      → before now (signals f c now).probe_hold_until ≡ true
      → is_probe (reason_of ((adapt f c now).0)) ≡ false
  unfolding adapt
  adapt-is_probe c now held =
      conclude-is_probe c (signals f c now) (new_rate f (signals f c now) c.cfg now)
        (new_rate-NoProbe f (signals f c now) c.cfg now held)

  adapt_hold :
      (c : Controller f) {t : Instant} (now : Instant)
      → HeldUntil t c.probe_hold_until
      → t ≤ now + loss_probe_hold
      → HeldUntil t ((adapt f c now).1.probe_hold_until)
  unfolding adapt signals
  adapt_hold c now h later =
      HeldUntil-kept (f.le (f.lit_f32 2 100) (fresh_loss f c now)) now h later

  tick_hold :
      (c : Controller f) {t : Instant} (now : Instant)
      → HeldUntil t c.probe_hold_until
      → t ≤ now + loss_probe_hold
      → HeldUntil t ((tick f c now).1.probe_hold_until)
  unfolding tick
  tick_hold c {t} now h later =
      if_both f (λ (x : Option Decision × Controller f). HeldUntil t x.1.probe_hold_until)
        c.preset_announce_pending h (adapt_hold c now h later)

  -- A tick while probing is held gives no probe as its reason.
  tick-is_probe :
      (c : Controller f) {t : Instant} (now : Instant)
      → HeldUntil t c.probe_hold_until
      → now < t
      → is_probe (reason_of ((tick f c now).0)) ≡ false
  unfolding tick signals
  tick-is_probe c {t} now h early =
      if_both f (λ (x : Option Decision × Controller f). is_probe (reason_of (x.0)) ≡ false)
        c.preset_announce_pending refl
        (adapt-is_probe c now (
          before_kept (f.le (f.lit_f32 2 100) (fresh_loss f c now)) now c.probe_hold_until
            (HeldUntil-before h early)))

  -- No tick among the events is before t.
  abbrev pub Since : Instant → List (Event f) → Type 0
  Since t [] = Unit
  Since t (said fb now ∷ events) = Since t events
  Since t (ticked now ∷ events) = (t ≤ now) × Since t events

  pub run_hold :
      (t : Instant) (events : List (Event f)) (told : RateTarget) (c : Controller f)
      → HeldUntil (t + loss_probe_hold) c.probe_hold_until
      → Since t events
      → HeldUntil (t + loss_probe_hold) ((run f (told, c) events).1.probe_hold_until)
  unfolding run react
  run_hold t [] told c h late = h
  run_hold t (said fb now ∷ events) told c h late =
      run_hold t events told (feedback f c fb now) (rw (feedback_hold c fb now) h) late
  run_hold t (ticked now ∷ events) told c h (later, late) =
      run_hold t events _ ((tick f c now).1) (tick_hold c now h (omega arith)) late

  -- A tick that adapts and sees a fresh loss of 2% or more holds probing.
  pub lossy_tick_hold :
      (c : Controller f) (now : Instant)
      → c.preset_announce_pending ≡ false
      → f.le (f.lit_f32 2 100) (fresh_loss f c now) ≡ true
      → HeldUntil (now + loss_probe_hold) ((tick f c now).1.probe_hold_until)
  unfolding tick adapt signals
  lossy_tick_hold c now quiet lossy = rw quiet (rw lossy (now + loss_probe_hold, refl, omega arith))

  -- A tick at t that has no preset to tell sees a fresh loss of 2% or more. Then whatever feedback
  -- and later ticks come before it, a tick less than LOSS_PROBE_HOLD after t makes no decision whose
  -- reason is a probe.
  pub no_probe_after_loss :
      (c : Controller f) (told : RateTarget) (t now : Instant) (events : List (Event f))
      (d : Decision)
      → c.preset_announce_pending ≡ false
      → f.le (f.lit_f32 2 100) (fresh_loss f c t) ≡ true
      → Since t events
      → now < t + loss_probe_hold
      → (tick f ((run f (told, c) (ticked t ∷ events)).1) now).0 ≡ some d
      → d.reason ≢ Reason.probe
  unfolding run react
  no_probe_after_loss c told t now events d quiet lossy late early is_d =
      let after = heard told ((tick f c t).0) in
      let h = run_hold t events after ((tick f c t).1) (lossy_tick_hold c t quiet lossy) late in
      let n = tick-is_probe ((run f (after, (tick f c t).1) events).1) now h early in
      not_probe _ d is_d n
