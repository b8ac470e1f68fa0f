-- ===== src/Adapt/Laws/Reasons.antt =====
-- host/src/adapt/mod.rs, `tick`: while probing is held, the new bitrate is not chosen to probe.
use mathlib.Core.Path.{subst}
use rcdesk.Common.{
  ◌+◌, ◌≤◌, ◌<◌, Option, none, some, Bool, true, false, ◌≡◌, ◌≢◌, refl, arith, if◌then◌else◌, leb,
  ◌&&◌, not,
}
use rcdesk.Registry.{Instant}
use rcdesk.Adapt.{AdaptConfig, Decision, Reason}
use rcdesk.Adapt.Floats.{Floats, fmax}
use rcdesk.Adapt.Controller.Tick.{
  Signals, Rate, before, loss_probe_hold, remb_congestion_ticks, base_rate, cap_by_remb,
  cap_by_sent, remb_reason, loss_reason, new_rate, decide_reason,
}
use rcdesk.Adapt.Laws.Bounds.{if_both}

abbrev pub is_probe : Option Reason → Bool
is_probe (some Reason.probe) = true
is_probe other = false

abbrev pub reason_of : Option Decision → Option Reason
reason_of none = none
reason_of (some d) = some d.reason

pub decide_reason-is_probe :
    (r : Option Reason) (fired limited : Bool)
    → is_probe r ≡ false
    → is_probe (some (decide_reason r fired limited)) ≡ false
unfolding decide_reason
decide_reason-is_probe none true limited e = refl
decide_reason-is_probe none false limited e = refl
decide_reason-is_probe (some Reason.preset) true limited e = refl
decide_reason-is_probe (some Reason.preset) false limited e = refl
decide_reason-is_probe (some Reason.loss) fired limited e = refl
decide_reason-is_probe (some Reason.remb) fired limited e = refl
decide_reason-is_probe (some Reason.encoder) true limited e = refl
decide_reason-is_probe (some Reason.encoder) false limited e = refl
decide_reason-is_probe (some Reason.bitrate) true limited e = refl
decide_reason-is_probe (some Reason.bitrate) false limited e = refl
decide_reason-is_probe (some Reason.probe) fired limited e = ground arith

and_not : (a b : Bool) → (not a && not true && b) ≡ false
and_not true b = refl
and_not false b = refl

-- Probing is held until t at least.
abbrev pub HeldUntil : Instant → Option Instant → Type 0
HeldUntil t until = (u : Instant) × (until ≡ some u) × (t ≤ u)

pub HeldUntil-before :
    {t now : Instant} {until : Option Instant}
    → HeldUntil t until
    → now < t
    → before now until ≡ true
HeldUntil-before (u, e, le) lt = rw e (ground arith)

pub HeldUntil-kept :
    (lossy : Bool) {t : Instant} (now : Instant) {until : Option Instant}
    → HeldUntil t until
    → t ≤ now + loss_probe_hold
    → HeldUntil t (if lossy then some (now + loss_probe_hold) else until)
HeldUntil-kept true now h later = (now + loss_probe_hold, refl, later)
HeldUntil-kept false now h later = h

pub not_probe :
    (x : Option Decision) (d : Decision)
    → x ≡ some d
    → is_probe (reason_of x) ≡ false
    → d.reason ≢ Reason.probe
not_probe x d is n e =
    let m : is_probe (some d.reason) ≡ false = subst (λ y. is_probe (reason_of y) ≡ false) is n in
    let k : true ≡ false = subst (λ r. is_probe (some r) ≡ false) e m in ground arith

pub before_kept :
    (lossy : Bool) (now : Instant) (until : Option Instant)
    → before now until ≡ true
    → before now (if lossy then some (now + loss_probe_hold) else until) ≡ true
before_kept true now until held = ground arith
before_kept false now until held = held

module _ (f : Floats) where
  remb_reason-is_probe :
      (r : Option Reason) → is_probe r ≡ false → is_probe (remb_reason f r) ≡ false
  unfolding remb_reason
  remb_reason-is_probe none e = refl
  remb_reason-is_probe (some Reason.preset) e = refl
  remb_reason-is_probe (some Reason.loss) e = refl
  remb_reason-is_probe (some Reason.remb) e = refl
  remb_reason-is_probe (some Reason.encoder) e = refl
  remb_reason-is_probe (some Reason.bitrate) e = refl
  remb_reason-is_probe (some Reason.probe) e = refl

  loss_reason-is_probe :
      (r : Option Reason) → is_probe r ≡ false → is_probe (loss_reason f r) ≡ false
  unfolding loss_reason
  loss_reason-is_probe none e = refl
  loss_reason-is_probe (some r) e = e

  pub record NoProbe (r : Rate f) : Type 0 where
    pub not_probe : is_probe (r.1) ≡ false

  base_rate-NoProbe :
      (s : Signals f) (cfg : AdaptConfig) (now : Instant)
      → before now s.probe_hold_until ≡ true
      → NoProbe (base_rate f s cfg now)
  unfolding base_rate
  base_rate-NoProbe s cfg now held = rw held (
      rw (and_not s.remb_congested _) (
        if_both f NoProbe (f.lt (f.lit_f32 10 100) s.loss) (record { not_probe = refl })
          (if_both f NoProbe (s.remb_congested && leb remb_congestion_ticks s.congested_ticks)
            (record { not_probe = refl }) (record { not_probe = refl }))))

  cap_by_remb-NoProbe :
      (remb? : Option f.F) (until : Option Instant) (now : Instant) (r : Rate f)
      → NoProbe r
      → NoProbe (cap_by_remb f remb? until now r)
  unfolding cap_by_remb
  cap_by_remb-NoProbe none until now r n = n
  cap_by_remb-NoProbe (some k) until now (b, reason) n =
      if_both f NoProbe (before now until && f.lt (fmax f (f.mul k (f.lit 9 10)) (f.lit 1000 1)) b)
        (record { not_probe = remb_reason-is_probe reason n.not_probe }) n

  cap_by_sent-NoProbe :
      (ceiling? : Option f.F) (until : Option Instant) (now : Instant) (r : Rate f)
      → NoProbe r
      → NoProbe (cap_by_sent f ceiling? until now r)
  unfolding cap_by_sent
  cap_by_sent-NoProbe none until now r n = n
  cap_by_sent-NoProbe (some k) until now (b, reason) n =
      if_both f NoProbe (before now until && f.lt k b)
        (record { not_probe = loss_reason-is_probe reason n.not_probe }) n

  pub new_rate-NoProbe :
      (s : Signals f) (cfg : AdaptConfig) (now : Instant)
      → before now s.probe_hold_until ≡ true
      → NoProbe (new_rate f s cfg now)
  unfolding new_rate
  new_rate-NoProbe s cfg now held =
      let n = cap_by_sent-NoProbe s.sent_cap_kbps s.probe_hold_until now _ (
        cap_by_remb-NoProbe s.remb_kbps s.loss_cap_until now _
          (base_rate-NoProbe s cfg now held)) in
      record { not_probe = n.not_probe }
