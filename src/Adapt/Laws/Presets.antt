-- ===== src/Adapt/Laws/Presets.antt =====
-- host/src/adapt/mod.rs, `set_preset` and the tick that tells of it.
use rcdesk.Common.{some, true, ◌≡◌, refl, List, [], ◌∷◌}
use rcdesk.Registry.{Instant}
use rcdesk.Adapt.{QualityPreset, RateTarget, Reason}
use rcdesk.Adapt.Floats.{Floats}
use rcdesk.Adapt.Policy.{for_preset}
use rcdesk.Adapt.Controller.{
  Controller, remb, loss, receiver_stats, frame, overrun, set_quality, feedback, set_preset,
  clamp_u32,
}
use rcdesk.Adapt.Controller.Tick.{tick}
use rcdesk.Adapt.Run.{Event, said, ticked, react, run}

module _ (f : Floats) where
  -- Events that are reports: feedback other than a choice of preset.
  abbrev pub IsReport : Event f → Type 0
  IsReport (said (set_quality preset) now) = ⊥
  IsReport (said fb now) = Unit
  IsReport (ticked now) = ⊥

  abbrev pub Reports : List (Event f) → Type 0
  Reports [] = Unit
  Reports (e ∷ events) = IsReport e × Reports events

  -- A report leaves what a preset set.
  feedback_report :
      (told : RateTarget) (c : Controller f) (e : Event f)
      → IsReport e
      → ((react f (told, c) e).1.preset_announce_pending ≡ c.preset_announce_pending)
        × ((react f (told, c) e).1.target ≡ c.target)
  unfolding react feedback
  feedback_report told c (said (remb bps) now) r = (refl, refl)
  feedback_report told c (said (loss fraction total) now) r = (refl, refl)
  feedback_report told c (said receiver_stats now) r = (refl, refl)
  feedback_report told c (said (frame bytes) now) r = (refl, refl)
  feedback_report told c (said (overrun frames) now) r = (refl, refl)
  feedback_report told c (said (set_quality preset) now) r = absurd r
  feedback_report told c (ticked now) r = absurd r

  tick_pending :
      (c : Controller f) (now : Instant) (t : RateTarget)
      → c.preset_announce_pending ≡ true
      → c.target ≡ t
      → (tick f c now).0 ≡ some (record { target = t; reason = Reason.preset })
  unfolding tick
  tick_pending c now t pending target = rw pending (rw target refl)

  pending_tick :
      (events : List (Event f)) (told : RateTarget) (c : Controller f) (now : Instant)
      (t : RateTarget)
      → Reports events
      → c.preset_announce_pending ≡ true
      → c.target ≡ t
      → (tick f ((run f (told, c) events).1) now).0
        ≡ some (record { target = t; reason = Reason.preset })
  unfolding run
  pending_tick [] told c now t r pending target = tick_pending c now t pending target
  pending_tick (e ∷ events) told c now t (r, rs) pending target =
      let (same, kept) = feedback_report told c e r in
      pending_tick events ((react f (told, c) e).0) ((react f (told, c) e).1) now t rs
        (rw same pending) (rw kept target)

  -- A preset is chosen, reports of the link and of the encoder follow, and the first tick after that
  -- tells the encoder the top frame rate of the preset and the bitrate of before, clamped to the
  -- session's limits, with the preset as its reason: whatever the reports say.
  pub preset_is_told :
      (told : RateTarget) (c : Controller f) (preset : QualityPreset) (at now : Instant)
      (events : List (Event f))
      → Reports events
      → (tick f ((run f (told, c) (said (set_quality preset) at ∷ events)).1) now).0
        ≡ some (record {
          target = record {
            bitrate_kbps =
                clamp_u32 c.target.bitrate_kbps c.cfg.min_bitrate_kbps c.cfg.max_bitrate_kbps;
            fps = (for_preset f preset c.cfg).max_fps;
          };
          reason = Reason.preset;
        })
  unfolding run react feedback set_preset
  preset_is_told told c preset at now events rs =
      pending_tick events told (feedback f c (set_quality preset) at) now _ rs refl refl
