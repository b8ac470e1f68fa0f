-- ===== src/Ws.antt =====
-- server/src/ws.rs, the connections: what the server does with the messages of a host and of a client
-- that concern PINs and sessions. Here are the messages (proto/src/signal.rs) and the effects.
pub mod Budget
pub mod Host
pub mod Client
pub mod Laws
use rcdesk.Common.{ℕ, String, Option, none, some, Bool, List, [], ◌∷◌}
use rcdesk.Registry.{Tx, Inner}

pub data ByeReason : Type 0 where
  display_unavailable video_failed : ByeReason

pub record IceCandidate : Type 0 where
  pub candidate : String
  pub sdp_mid : Option String
  pub sdp_mline_index : Option ℕ

pub record IceServer : Type 0 where
  pub urls : List String
  pub username : Option String
  pub credential : Option String

-- `SignalMessage`; the messages on accounts, devices and registration, which the handlers here do not
-- treat, are `other`, with their tag.
pub data SignalMessage : Type 0 where
  pin_changed : String → SignalMessage
  join : String → SignalMessage
  -- session, host name, ICE servers, device
  joined : String → String → List IceServer → Option String → SignalMessage
  peer_joined : String → List IceServer → SignalMessage
  -- session, sdp, auth
  offer answer : String → String → Option String → SignalMessage
  ice : String → IceCandidate → SignalMessage
  bye : String → Option ByeReason → SignalMessage
  auth_required : String → SignalMessage
  pake_start pake_response pake_finish : String → String → SignalMessage
  auth_failed : String → Option ℕ → SignalMessage
  -- session, bytes sent and received, relay, final report
  session_stats : String → ℕ → ℕ → Bool → Bool → SignalMessage
  error : String → SignalMessage
  other : String → SignalMessage

-- What a handler does besides changing the registry: it sends, or calls a function of the database.
pub data Effect : Type 0 where
  send : Tx → SignalMessage → Effect
  -- `end_session_logged`: session, reason
  end_session : String → String → Effect
  -- `insert_session_logged`: session, host, owner, way
  insert_session : String → String → Option String → String → Effect
  -- session, host, bytes sent and received, relay, final report
  record_session_stats : String → String → ℕ → ℕ → Bool → Bool → Effect
  -- owner, device
  link_device displace_duplicates : String → String → Effect
  announce_owner : Effect
  notify_device_owners : String → Effect

-- Whether the connection's loop goes on.
pub data Flow : Type 0 where
  go_on stop : Flow

abbrev pub Handled : Type 0
Handled = Flow × Inner × List Effect

-- A message for the peer, or the answer that there is none.
unfoldable pub forward : Option Tx → Tx → SignalMessage → List Effect
forward (some peer) tx msg = send peer msg ∷ []
forward none tx msg = send tx (error "not in session") ∷ []
