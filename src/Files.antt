-- ===== src/Files.antt =====
-- host/src/files/mod.rs: the files that a client sends to the host. Names has the texts, Disk the file
-- system as a parameter, Receiver the state machine; the proofs are below Files/Laws.
pub mod Names
pub mod Disk
pub mod Receiver
pub mod Handlers
pub mod Sender
pub mod Sweep
pub mod Downloader
pub mod Laws
