-- ===== src/Tests.antt =====
-- The theorems at concrete inputs, and runs of the modelled code.
mod States
mod Registry
mod Sessions
mod Limits
mod Adapt
mod Wake
mod Outbound
mod Input
mod Files
mod Sender
mod Sweep
mod Offers
mod Ws
mod Slot
mod Accounts
