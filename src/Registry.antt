-- ===== src/Registry.antt =====
-- server/src/registry.rs: the signaling server's in-memory state. `Inner`, what a failing join
-- answers, and the outcomes of a routine that draws random values.
pub mod Draws
pub mod Pins
pub mod Hosts
pub mod Sessions
pub mod Join
pub mod Routers
pub mod Invariant
pub mod Run
pub mod Registration
pub mod Admission
pub mod Refusals
pub mod Relay
pub mod Departure
pub mod FreshPins
pub mod Wakes
use rcdesk.Common.{ℕ, ◌-◌, Bool, Option, String, List, []}
use rcdesk.Assoc.{Assoc}

-- A `Tx` is known by its channel: `same_channel` compares these numbers.
abbrev pub Tx : Type 0
Tx = ℕ

-- Instants and durations, in nanoseconds of one clock.
abbrev pub Instant : Type 0
Instant = ℕ

abbrev pub Duration : Type 0
Duration = ℕ

abbrev pub nanos_per_sec : ℕ
nanos_per_sec = 1_000_000_000

pub data JoinError : Type 0 where
  unknown_pin host_busy host_offline already_in_session : JoinError

unfoldable pub message : JoinError → String
message JoinError.unknown_pin = "unknown pin"
message JoinError.host_busy = "host busy"
message JoinError.host_offline = "device offline"
message JoinError.already_in_session = "already in session"

pub record HostEntry : Type 0 where
  pub name : String
  pub pin : String
  pub tx : Tx
  pub session_id : Option String
  pub pin_issued_at : Instant
  pub pin_rotation : Bool

pub record SessionEntry : Type 0 where
  pub host_id : String
  pub host_tx : Tx
  pub client_tx : Tx

abbrev pub HostMap : Type 0
HostMap = Assoc String HostEntry

abbrev pub PinMap : Type 0
PinMap = Assoc String String

abbrev pub SessionMap : Type 0
SessionMap = Assoc String SessionEntry

pub record Inner : Type 0 where
  pub hosts : HostMap
  pub pin_to_host : PinMap
  pub sessions : SessionMap
  pub watchers : List (Tx × String)
  pub wake_attempts : Assoc String Instant
  -- when a router last polled, on the monotonic clock and in Unix seconds
  pub router_polls : Assoc String (Instant × ℕ)
  pub router_queue : Assoc String (List (String × Instant))

-- `Registry::default`
abbrev pub empty : Inner
empty = record {
  hosts = [];
  pin_to_host = [];
  sessions = [];
  watchers = [];
  wake_attempts = [];
  router_polls = [];
  router_queue = [];
}

-- `saturating_duration_since` is subtraction that stops at 0.
abbrev pub since : Instant → Instant → Duration
since now at = now - at
