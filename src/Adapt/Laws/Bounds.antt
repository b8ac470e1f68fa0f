-- ===== src/Adapt/Laws/Bounds.antt =====
-- host/src/adapt/mod.rs: the target stays within the session's and the policy's bounds.
use rcdesk.Common.{
  ℕ, ◌^◌, ◌≤◌, ◌<◌, Option, Bool, true, false, if◌then◌else◌, nat_test, ◌≡◌, inl, inr, refl, arith,
  Bool-cases,
}
use rcdesk.Registry.{Instant}
use rcdesk.Adapt.{QualityPreset, auto, sharp, smooth, AdaptConfig, Decision}
use rcdesk.Adapt.Floats.{Floats, RoundingLaws, clamp}
use rcdesk.Adapt.Policy.{QualityPolicy, for_preset}
use rcdesk.Adapt.Controller.{
  Controller, Feedback, remb, loss, receiver_stats, frame, overrun, set_quality, new, feedback,
  set_preset,
}
use rcdesk.Adapt.Controller.Tick.{
  Signals, bound_fps, signals, new_rate, answer, conclude, adapt, tick,
}

-- A session's limits: floors below ceilings, a frame rate floor that `sharp` allows, and a ceiling
-- that is a u32.
pub record IsSane (cfg : AdaptConfig) : Type 0 where
  pub fps_order : cfg.min_fps ≤ cfg.max_fps
  pub fps_floor : cfg.min_fps ≤ 15
  pub bitrate_order : cfg.min_bitrate_kbps ≤ cfg.max_bitrate_kbps
  pub bitrate_word : cfg.max_bitrate_kbps < 2 ^ 32

module _ (f : Floats) where
  pub record IsValid (c : Controller f) : Type 0 where
    pub sane : IsSane c.cfg
    pub policy_is : c.policy ≡ for_preset f c.preset c.cfg
    pub fps_low : c.policy.min_fps ≤ c.target.fps
    pub fps_high : c.target.fps ≤ c.policy.max_fps
    pub bitrate_low : c.cfg.min_bitrate_kbps ≤ c.target.bitrate_kbps
    pub bitrate_high : c.target.bitrate_kbps ≤ c.cfg.max_bitrate_kbps

  -- In a session with sane limits every preset has its lowest frame rate below its highest, and both
  -- within the session's.
  pub for_preset_bounds :
      (preset : QualityPreset) (cfg : AdaptConfig)
      → IsSane cfg
      → (cfg.min_fps ≤ (for_preset f preset cfg).min_fps)
        × ((for_preset f preset cfg).min_fps ≤ (for_preset f preset cfg).max_fps)
        × ((for_preset f preset cfg).max_fps ≤ cfg.max_fps)
  unfolding for_preset
  for_preset_bounds auto cfg s = (omega arith, omega arith, omega arith)
  for_preset_bounds sharp cfg s = (omega arith, omega arith, omega arith)
  for_preset_bounds smooth cfg s = (omega arith, omega arith, omega arith)

  pub new-IsValid : (cfg : AdaptConfig) (now : Instant) → IsSane cfg → IsValid (new f cfg now)
  unfolding new for_preset
  new-IsValid cfg now s = record {
    sane = s;
    policy_is = refl;
    fps_low = omega arith;
    fps_high = omega arith;
    bitrate_low = omega arith;
    bitrate_high = omega arith;
  }

  pub set_preset-IsValid :
      {c : Controller f} (preset : QualityPreset) (now : Instant)
      → IsValid c
      → IsValid (set_preset f c preset now)
  unfolding set_preset
  set_preset-IsValid {c} preset now v =
      let (a, b, d) = for_preset_bounds preset c.cfg v.sane in
      let order = v.sane.bitrate_order in
      record {
        sane = v.sane;
        policy_is = refl;
        fps_low = b;
        fps_high = omega arith;
        bitrate_low = omega arith;
        bitrate_high = omega arith;
      }

  pub feedback-IsValid :
      {c : Controller f} (fb : Feedback f) (now : Instant)
      → IsValid c
      → IsValid (feedback f c fb now)
  unfolding feedback
  feedback-IsValid (remb bps) now v = record {
    sane = v.sane;
    policy_is = v.policy_is;
    fps_low = v.fps_low;
    fps_high = v.fps_high;
    bitrate_low = v.bitrate_low;
    bitrate_high = v.bitrate_high;
  }
  feedback-IsValid (loss fraction total) now v = record {
    sane = v.sane;
    policy_is = v.policy_is;
    fps_low = v.fps_low;
    fps_high = v.fps_high;
    bitrate_low = v.bitrate_low;
    bitrate_high = v.bitrate_high;
  }
  feedback-IsValid receiver_stats now v = v
  feedback-IsValid (frame bytes) now v = record {
    sane = v.sane;
    policy_is = v.policy_is;
    fps_low = v.fps_low;
    fps_high = v.fps_high;
    bitrate_low = v.bitrate_low;
    bitrate_high = v.bitrate_high;
  }
  feedback-IsValid (overrun frames) now v = record {
    sane = v.sane;
    policy_is = v.policy_is;
    fps_low = v.fps_low;
    fps_high = v.fps_high;
    bitrate_low = v.bitrate_low;
    bitrate_high = v.bitrate_high;
  }
  feedback-IsValid (set_quality preset) now v = set_preset-IsValid preset now v

  bound_fps_range :
      (policy : QualityPolicy f) (a b : ℕ)
      → policy.min_fps ≤ policy.max_fps
      → (policy.min_fps ≤ bound_fps f policy a b) × (bound_fps f policy a b ≤ policy.max_fps)
  bound_fps_range policy a b ord = (omega arith, omega arith)

  policy_order : {c : Controller f} → IsValid c → c.policy.min_fps ≤ c.policy.max_fps
  policy_order v = let lo = v.fps_low in let hi = v.fps_high in omega arith

  -- A rate clamped between two whole numbers rounds to one between them.
  clamp_range :
      RoundingLaws f
      → (x : f.F) (lo hi : ℕ) → lo ≤ hi
      → hi < 2 ^ 32
      → (lo ≤ f.to_u32 (clamp f x (f.from_nat lo) (f.from_nat hi)))
        × (f.to_u32 (clamp f x (f.from_nat lo) (f.from_nat hi)) ≤ hi)
  clamp_range laws x lo hi ord word = elim (Bool-cases (f.lt x (f.from_nat lo))) [
    | inl below ↦ let e = laws.to_u32_exact lo (omega arith) in rw below (rw e (omega arith, ord))
    | inr not_below ↦ elim (Bool-cases (f.lt (f.from_nat hi) x)) [
      | inl above ↦
          let e = laws.to_u32_exact hi word in rw not_below (rw above (rw e (ord, omega arith)))
      | inr not_above ↦
          let low = laws.to_u32_lower x lo (omega arith) not_below in
          let high = laws.to_u32_upper x hi word not_above in
          rw not_below (rw not_above (low, high))
    ]
  ]

  pub if_both :
      {A : Type 0} (P : A → Type 0) (b : Bool) {x y : A} → P x → P y → P (if b then x else y)
  if_both P true p q = p
  if_both P false p q = q

  retarget :
      {c c' : Controller f} (fps kbps : ℕ)
      → IsValid c
      → c'.cfg ≡ c.cfg
      → c'.policy ≡ c.policy
      → c'.preset ≡ c.preset
      → c'.target ≡ record { bitrate_kbps = kbps; fps = fps }
      → (c.policy.min_fps ≤ fps) × (fps ≤ c.policy.max_fps)
      → (c.cfg.min_bitrate_kbps ≤ kbps) × (kbps ≤ c.cfg.max_bitrate_kbps)
      → IsValid c'
  retarget fps kbps v cfg policy preset target (a, b) (d, e) = record {
    sane = rw cfg v.sane;
    policy_is = rw policy (rw preset (rw cfg v.policy_is));
    fps_low = rw policy (rw target a);
    fps_high = rw policy (rw target b);
    bitrate_low = rw cfg (rw target d);
    bitrate_high = rw cfg (rw target e);
  }

  answer-IsValid :
      {c : Controller f} (b : Bool) (d : Decision)
      → IsValid c
      → (c.policy.min_fps ≤ d.target.fps) × (d.target.fps ≤ c.policy.max_fps)
      → (c.cfg.min_bitrate_kbps ≤ d.target.bitrate_kbps)
        × (d.target.bitrate_kbps ≤ c.cfg.max_bitrate_kbps)
      → IsValid ((answer f b d c).1)
  unfolding answer
  answer-IsValid true d v fps kbps =
      retarget d.target.fps d.target.bitrate_kbps v refl refl refl refl fps kbps
  answer-IsValid false d v fps kbps = v

  conclude-IsValid :
      RoundingLaws f
      → {c : Controller f} (s : Signals f) (now : Instant) → IsValid c
      → IsValid ((conclude f c s (new_rate f s c.cfg now)).1)
  unfolding conclude new_rate
  conclude-IsValid laws {c} s now v =
      answer-IsValid _ _
        (retarget c.target.fps c.target.bitrate_kbps v refl refl refl refl (v.fps_low, v.fps_high)
          (v.bitrate_low, v.bitrate_high))
        (bound_fps_range c.policy _ _ (policy_order v))
        (clamp_range laws _ c.cfg.min_bitrate_kbps c.cfg.max_bitrate_kbps v.sane.bitrate_order
          v.sane.bitrate_word)

  adapt-IsValid :
      RoundingLaws f → {c : Controller f} (now : Instant) → IsValid c → IsValid ((adapt f c now).1)
  unfolding adapt
  adapt-IsValid laws {c} now v =
      let w = conclude-IsValid laws (signals f c now) now v in
      record {
        sane = w.sane;
        policy_is = w.policy_is;
        fps_low = w.fps_low;
        fps_high = w.fps_high;
        bitrate_low = w.bitrate_low;
        bitrate_high = w.bitrate_high;
      }

  pub tick-IsValid :
      RoundingLaws f → {c : Controller f} (now : Instant) → IsValid c → IsValid ((tick f c now).1)
  unfolding tick
  tick-IsValid laws {c} now v =
      if_both (λ (r : Option Decision × Controller f). IsValid (r.1)) c.preset_announce_pending
        (retarget c.target.fps c.target.bitrate_kbps v refl refl refl refl (v.fps_low, v.fps_high)
          (v.bitrate_low, v.bitrate_high))
        (adapt-IsValid laws now v)
