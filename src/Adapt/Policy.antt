-- ===== src/Adapt/Policy.antt =====
-- host/src/adapt/mod.rs, `QualityPolicy::for_preset`.
use rcdesk.Common.{ℕ, min, max, Option, none, some}
use rcdesk.Adapt.{QualityPreset, auto, sharp, smooth, AdaptConfig}
use rcdesk.Adapt.Floats.{Floats}

abbrev pub sharp_max_qp : ℕ
sharp_max_qp = 28

abbrev pub sharp_fps_ceiling : ℕ
sharp_fps_ceiling = 15

abbrev pub smooth_fps_floor : ℕ
smooth_fps_floor = 15

module _ (f : Floats) where
  pub record QualityPolicy : Type 0 where
    pub max_fps : ℕ
    pub min_fps : ℕ
    pub bpp_budget : f.F
    pub max_qp : Option ℕ

  abbrev pub min_bits_per_pixel_per_frame : f.F
  min_bits_per_pixel_per_frame = f.lit 2 100

  unfoldable pub for_preset : QualityPreset → AdaptConfig → QualityPolicy
  for_preset auto cfg = record {
    max_fps = cfg.max_fps;
    min_fps = cfg.min_fps;
    bpp_budget = min_bits_per_pixel_per_frame;
    max_qp = none;
  }
  for_preset sharp cfg = record {
    max_fps = min cfg.max_fps sharp_fps_ceiling;
    min_fps = cfg.min_fps;
    bpp_budget = f.mul min_bits_per_pixel_per_frame (f.lit 3 1);
    max_qp = some sharp_max_qp;
  }
  for_preset smooth cfg = record {
    max_fps = cfg.max_fps;
    min_fps = min (max cfg.min_fps smooth_fps_floor) cfg.max_fps;
    bpp_budget = f.mul min_bits_per_pixel_per_frame (f.lit 5 10);
    max_qp = none;
  }
