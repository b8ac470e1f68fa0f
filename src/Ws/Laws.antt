-- ===== src/Ws/Laws.antt =====
-- server/src/ws.rs: what holds of its connections.
pub mod Peers
pub mod Ends
pub mod Gone
pub mod Guesses
