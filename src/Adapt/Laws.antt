-- ===== src/Adapt/Laws.antt =====
-- host/src/adapt/mod.rs: what holds of the ladder, of the targets, of the reasons and of presets.
pub mod Ladder
pub mod Bounds
pub mod Reasons
pub mod Probing
pub mod Presets
pub mod Falling
