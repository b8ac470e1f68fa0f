-- ===== src/Accounts/Laws.antt =====
-- server/src/accounts.rs: how many codes an address gets, and how often one can be tried.
pub mod Entries
pub mod Costs
pub mod Tries
