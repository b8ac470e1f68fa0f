-- ===== src/Slot.antt =====
-- host/src/signaling/mod.rs: the host's side of signaling. Here is what the host keeps between
-- messages, `SessionSlot`, and what all the handlers use.
pub mod Access
pub mod DtlsBind
pub mod Login
pub mod Signals
pub mod Events
pub mod Laws
use rcdesk.Common.{
  ℕ, ◌+◌, ◌-◌, ◌*◌, ◌%◌, ◌^◌, min, String, Option, none, some, Bool, true, false, List, [], ◌∷◌,
  ◌++◌, map, ◌==◌, nat_test, string_test, is_some,
}
use rcdesk.Registry.{Instant, Duration, nanos_per_sec}
use rcdesk.Ws.{
  ByeReason, display_unavailable, IceCandidate, IceServer, SignalMessage, bye, session_stats,
}
use rcdesk.Slot.Access.{Bytes, Opaque, FileRead, SessionKey}

abbrev pub max_auth_attempts : ℕ
max_auth_attempts = 5

-- Numbers of 32 and of 64 bits.
abbrev pub u32 : ℕ → ℕ
u32 n = n % 4_294_967_296

abbrev pub u64 : ℕ → ℕ
u64 n = n % 18_446_744_073_709_551_616

unfoldable pub auth_lockout_duration : ℕ → Duration
auth_lockout_duration auth_failures =
    let exponent = min (auth_failures - 6) 63 in
    min (min (5 * 2 ^ exponent) 18_446_744_073_709_551_615) 60 * nanos_per_sec

pub record DisconnectGrace : Type 0 where
  pub epoch : ℕ
  pub pending : Option ℕ

abbrev pub no_grace : DisconnectGrace
no_grace = record { epoch = 0; pending = none }

unfoldable pub open_window : ℕ → Option ℕ → Option ℕ × DisconnectGrace
open_window epoch (some running) = (none, record { epoch = epoch; pending = some running })
open_window epoch none =
    (some (u64 (epoch + 1)), record { epoch = u64 (epoch + 1); pending = some (u64 (epoch + 1)) })

unfoldable pub disconnected : DisconnectGrace → Option ℕ × DisconnectGrace
unfolding open_window
disconnected g = open_window g.epoch g.pending

unfoldable pub connected : DisconnectGrace → DisconnectGrace
connected g = record g { pending = none }

abbrev pub holds_number : Option ℕ → ℕ → Bool
holds_number none n = false
holds_number (some m) n = m == n

unfoldable pub is_current : DisconnectGrace → ℕ → Bool
is_current g generation = holds_number g.pending generation

-- `ActiveSession`, as far as signaling reads it: its tag, whether there is a curtain, the windows
-- under it, the grace window and the login's key.
pub record ActiveSession : Type 0 where
  pub session_tag : ℕ
  pub curtain : Bool
  pub curtain_windows : List ℕ
  pub disconnect_grace : DisconnectGrace
  pub session_key : Option SessionKey

pub record PendingAuth (o : Opaque) : Type 0 where
  pub session_id : String
  pub ice_servers : List IceServer
  pub login : Option (o.LoginServer)
  pub generation : ℕ

-- `AgentStatus`; an error and its delay are left out.
pub data AgentStatus : Type 0 where
  connecting reconnecting : AgentStatus
  registered in_session : String → AgentStatus

-- `SessionSlot`, with what goes with it: the counter of `next_auth_generation`, the PIN and the status.
pub record Slot (o : Opaque) : Type 0 where
  pub active : Option ActiveSession
  pub current_session_id : Option String
  pub pending_auth : Option (PendingAuth o)
  pub auth_failures : ℕ
  pub auth_locked_until : Option Instant
  pub next_generation : ℕ
  pub pin : String
  pub status : AgentStatus

-- What a handler does besides.
pub data Effect : Type 0 where
  send : SignalMessage → Effect
  -- `start_session`, with the ICE servers chosen
  start_session : List IceServer → Effect
  -- a timer for a session and a generation
  auth_timer disconnect_timer : String → ℕ → Effect
  -- the SDP answer and a candidate, for a session's peer connection
  set_answer : ℕ → String → Effect
  add_remote_ice : ℕ → IceCandidate → Effect
  -- `PeerSession::close`, the tasks, and a session that was started in vain
  close stop_tasks abort : ℕ → Effect
  lock_screen : Bool → Effect
  hide_curtain : Effect

-- `TrafficStats`
pub record TrafficStats : Type 0 where
  pub bytes_sent : ℕ
  pub bytes_received : ℕ
  pub relay : Bool

-- What `start_session` and `create_offer` come to.
pub record SessionParts : Type 0 where
  pub session_tag : ℕ
  pub curtain : Bool
  pub curtain_windows : List ℕ
  pub offer_sdp : Option String

pub data Started : Type 0 where
  no_display start_failed : Started
  parts : SessionParts → Started

-- What the world answers while a message is handled: the clock, twice, the access file, the system's
-- generator, `start_session`, `set_answer`, the traffic, the screen's lock, `recover_pipeline`.
pub record World : Type 0 where
  pub now : Instant
  pub later : Instant
  pub access_file : FileRead
  pub seed : ℕ
  pub started : Started
  pub answer_applies : Bool
  pub traffic : Option TrafficStats
  pub screen_locks : Bool
  pub recovers : Bool

unfoldable pub session_stats_message : String → TrafficStats → Bool → SignalMessage
session_stats_message sid stats final =
    session_stats sid stats.bytes_sent stats.bytes_received stats.relay final

unfoldable pub send_session_stats : Option TrafficStats → String → Bool → List Effect
unfolding session_stats_message
send_session_stats none sid final = []
send_session_stats (some stats) sid final = send (session_stats_message sid stats final) ∷ []

abbrev pub has_windows : List ℕ → Bool
has_windows [] = false
has_windows (w ∷ ws) = true

-- The curtain at the end of a session: the screen is locked first.
unfoldable pub drop_curtain : Bool → Bool → Bool → List Effect
drop_curtain true true true = lock_screen true ∷ hide_curtain ∷ []
drop_curtain true true false = lock_screen false ∷ []
drop_curtain curtain windows locks = []

unfoldable pub shutdown : ActiveSession → Bool → List Effect
unfolding drop_curtain
shutdown s locks =
    close s.session_tag
    ∷ stop_tasks s.session_tag
    ∷ drop_curtain s.curtain (has_windows s.curtain_windows) locks

unfoldable pub shutdown_reporting : World → ActiveSession → Option String → List Effect
unfolding shutdown send_session_stats
shutdown_reporting w s none = shutdown s w.screen_locks
shutdown_reporting w s (some sid) =
    send_session_stats w.traffic sid true ++ shutdown s w.screen_locks

unfoldable pub peer_ice_servers : List IceServer → List IceServer → List IceServer
peer_ice_servers [] own = own
peer_ice_servers (s ∷ from_peer_joined) own = s ∷ from_peer_joined

abbrev pub holds : Option String → String → Bool
holds none sid = false
holds (some current) sid = current == sid

-- The server is told that a session is over, if there was one.
abbrev pub bye_for : Option String → Option ByeReason → List Effect
bye_for none reason = []
bye_for (some sid) reason = send (bye sid reason) ∷ []

module _ (o : Opaque) where
  -- `SessionSlot::new`, with what the client has when it is registered.
  abbrev pub new_slot : ℕ → String → Slot o
  new_slot generation pin = record {
    active = none;
    current_session_id = none;
    pending_auth = none;
    auth_failures = 0;
    auth_locked_until = none;
    next_generation = generation;
    pin = pin;
    status = registered pin;
  }

  -- The active session is taken and shut down, if there is one, and the status says so.
  unfoldable pub take_active : World → Slot o → Option ActiveSession → Slot o × List Effect
  unfolding shutdown_reporting
  take_active w a none = (a, [])
  take_active w a (some old) = (
    record a { active = none; status = registered a.pin },
    shutdown_reporting w old a.current_session_id,
  )

  unfoldable pub supersede_active_session : World → Slot o → Slot o × List Effect
  unfolding take_active
  supersede_active_session w a =
      let (a', out) = take_active w a a.active in (record a' { current_session_id = none }, out)

  -- How a session ends from this side: the server is told.
  unfoldable pub end_here : World → Slot o → Option ByeReason → Slot o × List Effect
  unfolding take_active
  end_here w a reason =
      let (a', out) = take_active w a a.active in
      (record a' { current_session_id = none }, out ++ bye_for a.current_session_id reason)
