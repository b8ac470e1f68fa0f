-- ===== src/Slot/Laws.antt =====
-- host/src/signaling/mod.rs: what holds of the host's side of signaling.
pub mod Guarded
pub mod Pace
pub mod Fingerprint
pub mod Binding
pub mod Exchange
pub mod Ends
