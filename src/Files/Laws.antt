-- ===== src/Files/Laws.antt =====
-- host/src/files/mod.rs: names that are safe, limits that hold, and files that are whole.
pub mod Trim
pub mod Safe
pub mod Room
pub mod Limits
pub mod Begun
pub mod Follow
pub mod Whole
pub mod Sent
pub mod Swept
pub mod Offers
pub mod Counted
