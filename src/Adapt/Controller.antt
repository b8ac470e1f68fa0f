-- ===== src/Adapt/Controller.antt =====
-- host/src/adapt/mod.rs, `Controller`: its state, `new`, `feedback` and `set_preset`.
pub mod Tick
use rcdesk.Common.{
  ℕ, ◌+◌, ◌-◌, ◌*◌, ◌%◌, ◌^◌, min, max, Option, none, some, Bool, true, false, if◌then◌else◌, leb,
}
use rcdesk.Registry.{Instant, Duration}
use rcdesk.Adapt.{QualityPreset, auto, AdaptConfig, RateTarget, Window, no_window}
use rcdesk.Adapt.Floats.{Floats}
use rcdesk.Adapt.Policy.{QualityPolicy, for_preset}

abbrev pub min_lost_packets : ℕ
min_lost_packets = 3

-- `u32::clamp`
abbrev pub clamp_u32 : ℕ → ℕ → ℕ → ℕ
clamp_u32 x lo hi = min (max x lo) hi

module _ (f : Floats) where
  pub data Feedback : Type 0 where
    remb : ℕ → Feedback
    -- the fraction lost, and the count of all lost packets
    loss : f.F → ℕ → Feedback
    receiver_stats : Feedback
    -- the bytes of an encoded frame
    frame : ℕ → Feedback
    overrun : ℕ → Feedback
    set_quality : QualityPreset → Feedback

  pub record Controller : Type 0 where
    pub cfg : AdaptConfig
    pub policy : QualityPolicy f
    pub preset : QualityPreset
    pub preset_announce_pending : Bool
    pub target : RateTarget
    pub last_remb_kbps : Option f.F
    pub last_remb_at : Option Instant
    pub prev_tick_remb_kbps : Option f.F
    pub last_loss : f.F
    pub last_loss_at : Option Instant
    pub prev_total_lost : Option ℕ
    pub loss_cap_until : Option Instant
    pub probe_hold_until : Option Instant
    pub sent_cap_kbps : Option f.F
    pub window : Window
    pub congested_ticks : ℕ
    pub fast_ticks : ℕ
    pub last_tick_at : Instant

  unfoldable pub new : AdaptConfig → Instant → Controller
  new cfg now = record {
    cfg = cfg;
    policy = for_preset f auto cfg;
    preset = auto;
    preset_announce_pending = false;
    target = record { bitrate_kbps = cfg.max_bitrate_kbps; fps = cfg.max_fps };
    last_remb_kbps = none;
    last_remb_at = none;
    prev_tick_remb_kbps = none;
    last_loss = f.lit_f32 0 1;
    last_loss_at = none;
    prev_total_lost = none;
    loss_cap_until = none;
    probe_hold_until = none;
    sent_cap_kbps = none;
    window = no_window;
    congested_ticks = 0;
    fast_ticks = 0;
    last_tick_at = now;
  }

  unfoldable pub set_preset : Controller → QualityPreset → Instant → Controller
  set_preset c preset now =
      let policy = for_preset f preset c.cfg in
      record c {
        preset = preset;
        policy = policy;
        target = record {
          bitrate_kbps =
              clamp_u32 c.target.bitrate_kbps c.cfg.min_bitrate_kbps c.cfg.max_bitrate_kbps;
          fps = policy.max_fps;
        };
        window = no_window;
        last_tick_at = now;
        preset_announce_pending = true;
      }

  abbrev pub or_zero : Option ℕ → ℕ
  or_zero none = 0
  or_zero (some n) = n

  -- `saturating_sub` is subtraction that stops at 0. The window's counters are u64, u32 and u64.
  unfoldable pub feedback : Controller → Feedback → Instant → Controller
  unfolding set_preset
  feedback c (remb bitrate_bps) now = record c {
    last_remb_kbps = some (f.div (f.from_nat bitrate_bps) (f.lit 1000 1));
    last_remb_at = some now;
  }
  feedback c (loss fraction total_lost) now = record c {
    prev_total_lost = some total_lost;
    last_loss =
        if leb min_lost_packets (total_lost - or_zero c.prev_total_lost)
        then fraction
        else f.lit_f32 0 1;
    last_loss_at = some now;
  }
  feedback c receiver_stats now = c
  feedback c (frame bytes) now = record c {
    window = record c.window {
      bytes = (c.window.bytes + bytes) % 2 ^ 64;
      frames = (c.window.frames + 1) % 2 ^ 32;
    };
  }
  feedback c (overrun frames) now = record c {
    window = record c.window { overruns = (c.window.overruns + frames) % 2 ^ 64 };
  }
  feedback c (set_quality preset) now = set_preset c preset now
