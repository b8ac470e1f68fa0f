-- ===== src/Tests/Adapt.antt =====
-- host/src/adapt/mod.rs, at a session of 720p, with fractions in place of the floats.
use native.Mathlib.Nat.{mul-le-mul_left}
use rcdesk.Common.{
  ℕ, ◌+◌, ◌-◌, ◌*◌, ◌/◌, ◌≤◌, min, some, true, false, ◌≡◌, ◌≢◌, refl, arith, List, [], ◌∷◌, ltb,
  leb, nat_test, All,
}
use rcdesk.Registry.{nanos_per_sec}
use rcdesk.Adapt.{sharp, AdaptConfig, Decision, Reason}
use rcdesk.Adapt.Floats.{Floats, RoundingLaws}
use rcdesk.Adapt.Policy.{for_preset}
use rcdesk.Adapt.Ladder.{ladder, step_down, step_up}
use rcdesk.Adapt.Controller.{Controller, loss, frame, overrun, set_quality, new, feedback}
use rcdesk.Adapt.Controller.Tick.{tick, fresh_loss}
use rcdesk.Adapt.Run.{Event, said, ticked, Within, InSync, run, run-new}
use rcdesk.Adapt.Laws.Ladder.{Desc, has, ladder_lem}
use rcdesk.Adapt.Laws.Bounds.{IsSane, new-IsValid, feedback-IsValid}
use rcdesk.Adapt.Laws.Falling.{OrderLaws, no_rise_after_loss}
use rcdesk.Adapt.Laws.Presets.{preset_is_told}

-- Fractions counted in thousandths, rounded half up, and held at the ends of their range.
abbrev thousandths : Floats
thousandths = record {
  F = ℕ;
  from_nat = λ n. 1000 * n;
  lit = λ a b. 1000 * a / b;
  lit_f32 = λ a b. 1000 * a / b;
  as_secs = λ n. n / 1_000_000;
  mul = λ a b. a * b / 1000;
  div = λ a b. 1000 * a / b;
  sub = λ a b. a - b;
  abs_diff = λ a b. (a - b) + (b - a);
  lt = ltb;
  le = leb;
  to_u32 = λ x. min ((x + 500) / 1000) 4_294_967_295;
}

thousandths-RoundingLaws : RoundingLaws thousandths
thousandths-RoundingLaws = record {
  to_u32_exact = λ n h. omega arith;
  to_u32_lower = λ x n h b. ground arith;
  to_u32_upper = λ x n h b. ground arith;
}

abbrev hd : AdaptConfig
hd = record {
  max_bitrate_kbps = 6000;
  min_bitrate_kbps = 300;
  max_fps = 30;
  min_fps = 10;
  width = 1280;
  height = 720;
}

hd-IsSane : IsSane hd
hd-IsSane = record {
  fps_order = omega arith;
  fps_floor = omega arith;
  bitrate_order = omega arith;
  bitrate_word = omega arith;
}

abbrev sec : ℕ → ℕ
sec n = n * nanos_per_sec

-- Loss, a tick, frames, a preset, a tick.
abbrev history : List (Event thousandths)
history =
    said (frame 500_000) (sec 1)
    ∷ said (loss 200 10) (sec 1)
    ∷ ticked (sec 2)
    ∷ said (set_quality sharp) (sec 3)
    ∷ ticked (sec 3)
    ∷ []

run-new_example :
    let (told, c) = run thousandths ((new thousandths hd 0).target, new thousandths hd 0) history in
    Within thousandths hd told × InSync thousandths (told, c)
run-new_example = run-new thousandths thousandths-RoundingLaws hd 0 history hd-IsSane

-- The loss of 20% takes a tenth off the bitrate, and the preset brings its frame rate.
rate_after_history :
    (run thousandths ((new thousandths hd 0).target, new thousandths hd 0) history).0
    ≡ record { bitrate_kbps = 5400; fps = 15 }
unfolding run tick feedback new for_preset step_up ladder
rate_after_history = refl

ladder_example :
    Desc (ladder 10 25)
    × All (λ s. (10 ≤ s) × (s ≤ 25)) (ladder 10 25)
    × (has 25 (ladder 10 25) ≡ true)
ladder_example = ladder_lem 10 25 (omega arith)

ladder_run : step_down (ladder 10 25) 25 ≡ 24
unfolding ladder step_down
ladder_run = refl

preset_is_told_example :
    (tick thousandths
      ((run thousandths
        ((new thousandths hd 0).target, new thousandths hd 0)
        (said (set_quality sharp) (sec 1) ∷ said (loss 200 10) (sec 1) ∷ [])).1)
      (sec 2)).0
    ≡ some (record { target = record { bitrate_kbps = 6000; fps = 15 }; reason = Reason.preset })
unfolding for_preset new
preset_is_told_example =
    preset_is_told thousandths (new thousandths hd 0).target (new thousandths hd 0) sharp (sec 1)
      (sec 2) (said (loss 200 10) (sec 1) ∷ []) (tt, tt)

-- A loss of 5% was reported; after a tick the encoder is late, and steps down.
abbrev lossy : Controller thousandths
lossy = feedback thousandths (new thousandths hd 0) (loss 50 10) (sec 1)

abbrev late : List (Event thousandths)
late = said (overrun 5) (sec 3) ∷ []

lossy_is_fresh : leb 20 (fresh_loss thousandths lossy (sec 2)) ≡ true
unfolding feedback new fresh_loss
lossy_is_fresh = refl

abbrev decided : Decision
decided = record { target = record { bitrate_kbps = 6000; fps = 24 }; reason = Reason.encoder }

stepped_down :
    (tick thousandths ((run thousandths (lossy.target, lossy) (ticked (sec 2) ∷ late)).1) (sec 4)).0
    ≡ some decided
unfolding run tick feedback new for_preset step_up ladder step_down
stepped_down = refl

shrunk : (n k : ℕ) → k ≤ 1000 → ltb (1000 * n) (1000 * n * k / 1000) ≡ false
shrunk n k le = let more = mul-le-mul_left (1000 * n) le in ground arith

thousandths-OrderLaws : OrderLaws thousandths
thousandths-OrderLaws = record {
  lt_irreflexive = λ a. ground arith;
  lt_transitive = λ a b c p q. ground arith;
  from_nat_monotone = λ n m le. ground arith;
  shrinks = λ n x p. shrunk n (1000 - 500 * x / 1000) (omega arith);
}

no_rise_after_loss_example :
    (decided.target.bitrate_kbps
      ≤ (run thousandths (lossy.target, lossy) (ticked (sec 2) ∷ late)).1.target.bitrate_kbps)
    × (decided.reason ≢ Reason.probe)
unfolding feedback new
no_rise_after_loss_example =
    no_rise_after_loss thousandths thousandths-OrderLaws thousandths-RoundingLaws lossy lossy.target
      (sec 2) (sec 4) late decided
      (feedback-IsValid thousandths (loss 50 10) (sec 1) (new-IsValid thousandths hd 0 hd-IsSane))
      refl lossy_is_fresh tt (omega arith) stepped_down
