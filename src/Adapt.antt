-- ===== src/Adapt.antt =====
-- host/src/adapt/mod.rs: the controller of bitrate and frame rate. This file has its data; the
-- operations are in Ladder, Policy and Controller, the proofs in Run and below Adapt/Laws.
pub mod Floats
pub mod Ladder
pub mod Policy
pub mod Controller
pub mod Laws
pub mod Run
use rcdesk.Common.{ℕ, Option, Bool}
use rcdesk.Registry.{Instant, Duration, nanos_per_sec}

-- `proto::control::QualityPreset`
pub data QualityPreset : Type 0 where
  auto sharp smooth : QualityPreset

pub record AdaptConfig : Type 0 where
  pub max_bitrate_kbps : ℕ
  pub min_bitrate_kbps : ℕ
  pub max_fps : ℕ
  pub min_fps : ℕ
  pub width : ℕ
  pub height : ℕ

-- `encode::RateTarget`
pub record RateTarget : Type 0 where
  pub bitrate_kbps : ℕ
  pub fps : ℕ

-- The texts that the source gives as a decision's reason.
pub data Reason : Type 0 where
  preset loss remb encoder bitrate probe : Reason

pub record Decision : Type 0 where
  pub target : RateTarget
  pub reason : Reason

pub record Window : Type 0 where
  pub bytes : ℕ
  pub frames : ℕ
  pub overruns : ℕ

-- `Window::reset`
abbrev pub no_window : Window
no_window = record { bytes = 0; frames = 0; overruns = 0 }
