-- ===== src/Registry/Invariant.antt =====
-- server/src/registry.rs, what holds of `Inner` between two calls: the PIN index and the hosts name
-- each other, and each session is the one that its host is in.
pub mod Index
pub mod Table
pub mod Pins
pub mod Hosts
pub mod Sessions
pub mod Join
pub mod Rotation
use rcdesk.Common.{string_test, String, Option, some, ◌≡◌}
use rcdesk.Assoc.{get, Unique}
use rcdesk.Registry.{Inner, HostEntry, HostMap, PinMap, SessionEntry, SessionMap}

pub record PinsMatch (hosts : HostMap) (pins : PinMap) : Type 0 where
  -- a PIN leads to a host whose PIN it is
  pub named :
      (pin h : String)
      → get pin pins ≡ some h
      → (e : HostEntry) × (get h hosts ≡ some e) × (e.pin ≡ pin)
  -- a host is found under its PIN
  pub listed : (h : String) (e : HostEntry) → get h hosts ≡ some e → get e.pin pins ≡ some h

pub record SessionsMatch (hosts : HostMap) (ss : SessionMap) : Type 0 where
  -- a session's host is registered, is in that session, and is reached by the same connection
  pub held :
      (sid : String) (s : SessionEntry)
      → get sid ss ≡ some s
      → (e : HostEntry) × (get s.host_id hosts ≡ some e)
        × (e.session_id ≡ some sid)
        × (e.tx ≡ s.host_tx)
  -- a client's connection is in one session
  pub single :
      (sid sid' : String) (s s' : SessionEntry)
      → get sid ss ≡ some s
      → get sid' ss ≡ some s'
      → s.client_tx ≡ s'.client_tx
      → sid ≡ sid'

pub record IsConsistent (r : Inner) : Type 0 where
  pub pins_match : PinsMatch r.hosts r.pin_to_host
  pub sessions_match : SessionsMatch r.hosts r.sessions
  pub hosts_unique : Unique r.hosts
  pub sessions_unique : Unique r.sessions
