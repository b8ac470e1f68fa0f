-- ===== src/Input/Laws.antt =====
-- host/src/input: what holds of the keys, and of what is held down.
pub mod Keys
pub mod Held
pub mod Rate
