-- ===== src/Adapt/Controller/Tick.antt =====
-- host/src/adapt/mod.rs, `Controller::tick`, in its parts: what the link and the losses say, the
-- new bitrate, the new frame rate, and the decision.
use rcdesk.Common.{
  ℕ, ◌+◌, ◌*◌, ◌%◌, ◌^◌, min, max, Option, none, some, Bool, true, false, ◌&&◌, ◌||◌, not,
  if◌then◌else◌, ltb, leb, ◌==◌, nat_test, is_some, List, [], ◌∷◌,
}
use mathlib.Core.Option
use rcdesk.Registry.{Instant, Duration, since, nanos_per_sec}
use rcdesk.Adapt.{AdaptConfig, RateTarget, Window, no_window, Reason, Decision}
use rcdesk.Adapt.Floats.{Floats, fmin, fmax, clamp}
use rcdesk.Adapt.Ladder.{ladder, step_down, step_up}
use rcdesk.Adapt.Policy.{QualityPolicy}
use rcdesk.Adapt.Controller.{Controller}

abbrev pub remb_fresh_for : Duration
remb_fresh_for = 3 * nanos_per_sec

abbrev pub loss_fresh_for : Duration
loss_fresh_for = 3 * nanos_per_sec

abbrev pub loss_cap_hold : Duration
loss_cap_hold = 10 * nanos_per_sec

abbrev pub loss_probe_hold : Duration
loss_probe_hold = 10 * nanos_per_sec

abbrev pub remb_congestion_ticks : ℕ
remb_congestion_ticks = 2

abbrev pub encoder_overrun_frames : ℕ
encoder_overrun_frames = 2

abbrev pub encoder_fast_ticks : ℕ
encoder_fast_ticks = 5

-- The instant is there and lies ahead.
abbrev pub before : Instant → Option Instant → Bool
before now none = false
before now (some until) = ltb now until

-- The instant is there and no older than `age`.
abbrev pub within : Instant → Duration → Option Instant → Bool
within now age none = false
within now age (some at) = leb (since now at) age

-- `step_down` or `step_up` by what the encoder did, and the streak of ticks without overruns.
pub record EncoderStep : Type 0 where
  pub fps : ℕ
  pub fired : Bool
  pub fast_ticks : ℕ

unfoldable pub encoder_step : List ℕ → ℕ → Window → ℕ → EncoderStep
encoder_step steps current_fps window fast_ticks =
    let stepped = step_down steps current_fps in
    let higher = step_up steps current_fps in
    let streak = (fast_ticks + 1) % 2 ^ 32 in
    if leb encoder_overrun_frames window.overruns
    then record { fps = stepped; fired = not (stepped == current_fps); fast_ticks = 0 }
    else if ltb 0 window.frames && window.overruns == 0
    then (if higher == current_fps
        then record { fps = current_fps; fired = false; fast_ticks = fast_ticks }
        else if leb encoder_fast_ticks streak
        then record { fps = higher; fired = true; fast_ticks = 0 }
        else record { fps = current_fps; fired = false; fast_ticks = streak })
    else record { fps = current_fps; fired = false; fast_ticks = fast_ticks }

-- The text of a decision: loss and REMB first, then the encoder, the bit budget and probing.
unfoldable pub decide_reason : Option Reason → Bool → Bool → Reason
decide_reason (some Reason.loss) fired limited = Reason.loss
decide_reason (some Reason.remb) fired limited = Reason.remb
decide_reason (some Reason.probe) fired limited =
    if fired then Reason.encoder else if limited then Reason.bitrate else Reason.probe
decide_reason other fired limited = if fired then Reason.encoder else Reason.bitrate

module _ (f : Floats) where
  unfoldable pub sent_rate : Window → Duration → f.F
  sent_rate window elapsed =
      if f.lt (f.lit 0 1) (f.as_secs elapsed)
      then f.div (f.div (f.mul (f.from_nat window.bytes) (f.lit 8 1)) (f.lit 1000 1))
          (f.as_secs elapsed)
      else f.lit 0 1

  -- `filter(|&r| r >= REMB_IGNORE_BELOW_KBPS)`
  unfoldable pub plausible : Option f.F → Option f.F
  plausible none = none
  plausible (some r) = if f.le (f.lit 50 1) r then some r else none

  unfoldable pub fresh_remb : Controller f → Instant → Option f.F
  unfolding plausible
  fresh_remb c now =
      if within now remb_fresh_for c.last_remb_at then plausible c.last_remb_kbps else none

  unfoldable pub rising : Option f.F → Option f.F → Bool
  rising (some now) (some prev) = f.lt prev now
  rising _ _ = false

  unfoldable pub undercuts : Option f.F → f.F → Bool
  undercuts none sent_kbps = false
  undercuts (some remb) sent_kbps = f.lt remb (f.mul sent_kbps (f.lit 9 10))

  unfoldable pub fresh_loss : Controller f → Instant → f.F
  fresh_loss c now = if within now loss_fresh_for c.last_loss_at then c.last_loss else f.lit_f32 0 1

  -- What a tick reads off the feedback, and the fields that it writes from it.
  pub record Signals : Type 0 where
    pub old_b : f.F
    pub remb_kbps : Option f.F
    pub remb_congested : Bool
    pub congested_ticks : ℕ
    pub loss : f.F
    pub loss_cap_until : Option Instant
    pub probe_hold_until : Option Instant
    pub sent_cap_kbps : Option f.F

  -- The lowest sent rate of a loaded tick that saw loss.
  unfoldable pub lower_cap : Option f.F → f.F → f.F
  lower_cap none sent = sent
  lower_cap (some c) sent = fmin f c sent

  unfoldable pub signals : Controller f → Instant → Signals
  unfolding sent_rate fresh_remb rising undercuts fresh_loss lower_cap
  signals c now =
      let sent_kbps = sent_rate c.window (since now c.last_tick_at) in
      let old_b = f.from_nat c.target.bitrate_kbps in
      let remb_kbps = fresh_remb c now in
      let link_loaded = f.le (f.mul (f.lit 8 10) old_b) sent_kbps in
      let remb_congested =
        link_loaded
        && not (rising remb_kbps c.prev_tick_remb_kbps)
        && undercuts remb_kbps sent_kbps in
      let loss = fresh_loss c now in
      let lossy = f.le (f.lit_f32 2 100) loss in
      let kept_cap = if before now c.probe_hold_until then c.sent_cap_kbps else none in
      let sent = fmax f sent_kbps (f.lit 1000 1) in
      record {
        old_b = old_b;
        remb_kbps = remb_kbps;
        remb_congested = remb_congested;
        congested_ticks = if remb_congested then (c.congested_ticks + 1) % 2 ^ 32 else 0;
        loss = loss;
        loss_cap_until =
            if lossy && is_some remb_kbps then some (now + loss_cap_hold) else c.loss_cap_until;
        probe_hold_until = if lossy then some (now + loss_probe_hold) else c.probe_hold_until;
        sent_cap_kbps = if lossy && link_loaded then some (lower_cap kept_cap sent) else kept_cap;
      }

  -- A bitrate and why it was chosen.
  abbrev pub Rate : Type 0
  Rate = f.F × Option Reason

  unfoldable pub base_rate : Signals → AdaptConfig → Instant → Rate
  base_rate s cfg now =
      if f.lt (f.lit_f32 10 100) s.loss
      then (f.mul s.old_b (f.sub (f.lit 1 1) (f.mul (f.lit 5 10) s.loss)), some Reason.loss)
      else if s.remb_congested && leb remb_congestion_ticks s.congested_ticks
      then (fmin f s.old_b (Option.get_or s.remb_kbps s.old_b), some Reason.remb)
      else if not s.remb_congested
          && not (before now s.probe_hold_until)
          && f.lt s.loss (f.lit_f32 2 100)
          && f.lt s.old_b (f.from_nat cfg.max_bitrate_kbps)
      then (f.mul s.old_b (f.lit 110 100), some Reason.probe)
      else (s.old_b, none)

  unfoldable pub remb_reason : Option Reason → Option Reason
  remb_reason none = some Reason.remb
  remb_reason (some Reason.probe) = some Reason.remb
  remb_reason other = other

  unfoldable pub loss_reason : Option Reason → Option Reason
  loss_reason none = some Reason.loss
  loss_reason other = other

  -- The ceiling after loss, from a fresh REMB.
  unfoldable pub cap_by_remb : Option f.F → Option Instant → Instant → Rate → Rate
  unfolding remb_reason
  cap_by_remb none until now rate = rate
  cap_by_remb (some r) until now (b, reason) =
      let ceiling = fmax f (f.mul r (f.lit 9 10)) (f.lit 1000 1) in
      if before now until && f.lt ceiling b then (ceiling, remb_reason reason) else (b, reason)

  -- The ceiling after loss, from what was sent.
  unfoldable pub cap_by_sent : Option f.F → Option Instant → Instant → Rate → Rate
  unfolding loss_reason
  cap_by_sent none until now rate = rate
  cap_by_sent (some ceiling) until now (b, reason) =
      if before now until && f.lt ceiling b then (ceiling, loss_reason reason) else (b, reason)

  unfoldable pub new_rate : Signals → AdaptConfig → Instant → Rate
  unfolding base_rate cap_by_remb cap_by_sent
  new_rate s cfg now =
      let capped = cap_by_remb s.remb_kbps s.loss_cap_until now (base_rate s cfg now) in
      let (b, reason) = cap_by_sent s.sent_cap_kbps s.probe_hold_until now capped in
      (clamp f b (f.from_nat cfg.min_bitrate_kbps) (f.from_nat cfg.max_bitrate_kbps), reason)

  -- The highest rung that the bitrate affords, or the policy's floor.
  unfoldable pub bitrate_fps_step : AdaptConfig → QualityPolicy f → List ℕ → f.F → ℕ
  bitrate_fps_step cfg policy [] b_kbps = policy.min_fps
  bitrate_fps_step cfg policy (fps ∷ steps) b_kbps =
      let threshold_bits =
        f.mul (f.mul (f.from_nat cfg.width) (f.from_nat cfg.height)) policy.bpp_budget in
      let budget_bits = f.div (f.mul b_kbps (f.lit 1000 1)) (f.from_nat fps) in
      if f.le threshold_bits budget_bits then fps else bitrate_fps_step cfg policy steps b_kbps

  abbrev pub bound_fps : QualityPolicy f → ℕ → ℕ → ℕ
  bound_fps policy encoder_fps bitrate_fps =
      max (min (min policy.max_fps encoder_fps) bitrate_fps) policy.min_fps

  unfoldable pub worth_telling : f.F → f.F → Bool
  worth_telling old_b b =
      f.lt (f.lit 0 1) old_b && f.le (f.lit 5 100) (f.div (f.abs_diff b old_b) old_b)

  -- A decision is told and its target kept, or there is none.
  unfoldable pub answer : Bool → Decision → Controller f → Option Decision × Controller f
  answer true d c = (some d, record c { target = d.target })
  answer false d c = (none, c)

  -- The end of a tick: the target changes if it is worth telling.
  unfoldable pub conclude : Controller f → Signals → Rate → Option Decision × Controller f
  unfolding encoder_step bitrate_fps_step worth_telling decide_reason answer
  conclude c s (b, reason) =
      let steps = ladder c.policy.min_fps c.policy.max_fps in
      let current = c.target.fps in
      let enc = encoder_step steps current c.window c.fast_ticks in
      let by_bits = bitrate_fps_step c.cfg c.policy steps b in
      let new_fps = bound_fps c.policy enc.fps by_bits in
      let limited = new_fps == by_bits && ltb by_bits c.policy.max_fps && leb by_bits enc.fps in
      let new_target : RateTarget = record { bitrate_kbps = f.to_u32 b; fps = new_fps } in
      let c' : Controller f = record c { window = no_window; fast_ticks = enc.fast_ticks } in
      answer (not (new_fps == current) || worth_telling s.old_b b)
        (record { target = new_target; reason = decide_reason reason enc.fired limited }) c'

  -- A tick with no preset to announce.
  unfoldable pub adapt : Controller f → Instant → Option Decision × Controller f
  unfolding signals new_rate conclude
  adapt c now =
      let s = signals c now in
      let (d, c') = conclude c s (new_rate s c.cfg now) in
      (
        d,
        record c' {
          prev_tick_remb_kbps = s.remb_kbps;
          congested_ticks = s.congested_ticks;
          loss_cap_until = s.loss_cap_until;
          probe_hold_until = s.probe_hold_until;
          sent_cap_kbps = s.sent_cap_kbps;
          last_tick_at = now;
        },
      )

  unfoldable pub tick : Controller f → Instant → Option Decision × Controller f
  unfolding adapt
  tick c now =
      if c.preset_announce_pending
      then (
        some (record { target = c.target; reason = Reason.preset }),
        record c { preset_announce_pending = false; window = no_window; last_tick_at = now },
      )
      else adapt c now
