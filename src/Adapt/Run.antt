-- ===== src/Adapt/Run.antt =====
-- host/src/adapt/mod.rs, every history: feedback and ticks in any order, and what the encoder has
-- been told by the decisions so far.
use rcdesk.Common.{
  ◌≤◌, Option, none, some, Bool, true, false, ◌≡◌, ◌⊎◌, inl, inr, refl, sym, arith, List, [], ◌∷◌,
}
use rcdesk.Registry.{Instant}
use rcdesk.Adapt.{AdaptConfig, RateTarget, Decision}
use rcdesk.Adapt.Floats.{Floats, RoundingLaws}
use rcdesk.Adapt.Controller.{
  Controller, Feedback, remb, loss, receiver_stats, frame, overrun, set_quality, new, feedback,
  set_preset,
}
use rcdesk.Adapt.Controller.Tick.{answer, conclude, adapt, tick}
use rcdesk.Adapt.Laws.Bounds.{
  IsSane, IsValid, new-IsValid, feedback-IsValid, tick-IsValid, for_preset_bounds, if_both,
}

-- What the encoder runs at once it has heard of a tick's decision.
abbrev pub heard : RateTarget → Option Decision → RateTarget
heard told none = told
heard told (some d) = d.target

module _ (f : Floats) where
  pub data Event : Type 0 where
    said : Feedback f → Instant → Event
    ticked : Instant → Event

  -- The encoder's rate and the controller.
  abbrev pub Loop : Type 0
  Loop = RateTarget × Controller f

  unfoldable pub react : Loop → Event → Loop
  react (told, c) (said fb now) = (told, feedback f c fb now)
  react (told, c) (ticked now) = let (d, c') = tick f c now in (heard told d, c')

  unfoldable pub run : Loop → List Event → Loop
  unfolding react
  run loop [] = loop
  run loop (e ∷ events) = run (react loop e) events

  -- The encoder's rate is the controller's, or the next tick tells it.
  abbrev pub InSync : Loop → Type 0
  InSync (told, c) = (c.preset_announce_pending ≡ true) ⊎ (told ≡ c.target)

  abbrev pub Within : AdaptConfig → RateTarget → Type 0
  Within cfg t =
      ((cfg.min_fps ≤ t.fps) × (t.fps ≤ cfg.max_fps))
      × ((cfg.min_bitrate_kbps ≤ t.bitrate_kbps) × (t.bitrate_kbps ≤ cfg.max_bitrate_kbps))

  IsValid-Within : {c : Controller f} → IsValid f c → Within c.cfg c.target
  IsValid-Within {c} v =
      let (a, b, d) = for_preset_bounds f c.preset c.cfg v.sane in
      let lo : c.cfg.min_fps ≤ c.policy.min_fps = rw v.policy_is a in
      let hi : c.policy.max_fps ≤ c.cfg.max_fps = rw v.policy_is d in
      let fps_low = v.fps_low in
      let fps_high = v.fps_high in ((omega arith, omega arith), (v.bitrate_low, v.bitrate_high))

  -- What an answer of `tick` leaves of the encoder's rate and the session's limits.
  abbrev Told : RateTarget → Controller f → Option Decision × Controller f → Type 0
  Told told c (d, c') =
      (c'.cfg ≡ c.cfg)
      × ((heard told d ≡ told) ⊎ (heard told d ≡ c'.target))
      × (told ≡ c.target → heard told d ≡ c'.target)

  answer-Told :
      (told : RateTarget) (b : Bool) (d : Decision) (c : Controller f)
      → Told told c (answer f b d c)
  unfolding answer
  answer-Told told true d c = (refl, inr refl, λ e. refl)
  answer-Told told false d c = (refl, inl refl, λ e. e)

  adapt-Told : (told : RateTarget) (c : Controller f) (now : Instant) → Told told c (adapt f c now)
  unfolding adapt conclude
  adapt-Told told c now = answer-Told told _ _ _

  tick-Told : (told : RateTarget) (c : Controller f) (now : Instant) → Told told c (tick f c now)
  unfolding tick
  tick-Told told c now =
      if_both f (Told told c) c.preset_announce_pending (refl, inr refl, λ e. refl)
        (adapt-Told told c now)

  tick-InSync :
      (told : RateTarget) (c : Controller f) (now : Instant)
      → InSync (told, c)
      → heard told ((tick f c now).0) ≡ (tick f c now).1.target
  unfolding tick
  tick-InSync told c now (inl pending) = rw pending refl
  tick-InSync told c now (inr e) = let (same, what, kept) = tick-Told told c now in kept e

  feedback-InSync :
      (told : RateTarget) (c : Controller f) (fb : Feedback f) (now : Instant)
      → InSync (told, c)
      → InSync (told, feedback f c fb now) × ((feedback f c fb now).cfg ≡ c.cfg)
  unfolding feedback set_preset
  feedback-InSync told c (remb bps) now s = (s, refl)
  feedback-InSync told c (loss fraction total) now s = (s, refl)
  feedback-InSync told c receiver_stats now s = (s, refl)
  feedback-InSync told c (frame bytes) now s = (s, refl)
  feedback-InSync told c (overrun frames) now s = (s, refl)
  feedback-InSync told c (set_quality preset) now s = (inl refl, refl)

  pub record IsSteady (cfg : AdaptConfig) (told : RateTarget) (c : Controller f) : Type 0 where
    pub valid : IsValid f c
    pub limits : c.cfg ≡ cfg
    pub in_sync : InSync (told, c)
    pub told_within : Within cfg told

  react-IsSteady :
      RoundingLaws f
      → {cfg : AdaptConfig} {told : RateTarget} {c : Controller f} (e : Event) → IsSteady cfg told c
      → IsSteady cfg ((react (told, c) e).0) ((react (told, c) e).1)
  unfolding react
  react-IsSteady laws {cfg} {told} {c} (said fb now) s =
      let (sync, same) = feedback-InSync told c fb now s.in_sync in
      record {
        valid = feedback-IsValid f fb now s.valid;
        limits = rw same s.limits;
        in_sync = sync;
        told_within = s.told_within;
      }
  react-IsSteady laws {cfg} {told} {c} (ticked now) s =
      let v = tick-IsValid f laws now s.valid in
      let (same, what, kept) = tick-Told told c now in
      let limits : (tick f c now).1.cfg ≡ cfg = rw same s.limits in
      record {
        valid = v;
        limits = limits;
        in_sync = inr (tick-InSync told c now s.in_sync);
        told_within = elim what [
          | inl stays ↦ rw stays s.told_within
          | inr is ↦ rw is (rw (sym limits) (IsValid-Within v))
        ];
      }

  run-IsSteady :
      RoundingLaws f
      → {cfg : AdaptConfig} (events : List Event) {told : RateTarget} {c : Controller f}
      → IsSteady cfg told c
      → IsSteady cfg ((run (told, c) events).0) ((run (told, c) events).1)
  unfolding run
  run-IsSteady laws [] s = s
  run-IsSteady laws (e ∷ events) s = run-IsSteady laws events (react-IsSteady laws e s)

  -- A session starts with the encoder at the controller's first target. Whatever feedback and ticks
  -- follow, the rate that the encoder has been told lies within the session's limits of bitrate and
  -- frame rate, and it is the controller's target unless a preset waits to be told. The limits are
  -- sane and the floats round as RoundingLaws says.
  pub run-new :
      RoundingLaws f
      → (cfg : AdaptConfig) (now : Instant) (events : List Event) → IsSane cfg
      → let (told, c) = run ((new f cfg now).target, new f cfg now) events in
        Within cfg told × InSync (told, c)
  unfolding new
  run-new laws cfg now events sane =
      let v = new-IsValid f cfg now sane in
      let s =
        run-IsSteady laws events {told = (new f cfg now).target} {c = new f cfg now} (record {
          valid = v;
          limits = refl;
          in_sync = inr refl;
          told_within = IsValid-Within v;
        }) in
      (s.told_within, s.in_sync)
