-- ===== src/Ws/Laws/Peers.antt =====
-- server/src/ws.rs, where messages go: the two ends of a session reach each other and nobody else.
use rcdesk.Common.{String, Option, none, some, List, [], ◌∷◌, ◌≡◌, ◌⊎◌, nat_test, string_test}
use rcdesk.Registry.{Tx, Inner}
use rcdesk.Registry.Hosts.{host_tx}
use rcdesk.Registry.Sessions.{session_host_id}
use rcdesk.Ws.{
  SignalMessage, offer, answer, ice, bye, auth_required, pake_start, pake_response, pake_finish,
  auth_failed, Effect, send, Handled,
}

-- The session that a message names.
unfoldable pub session_of : SignalMessage → Option String
session_of (offer sid sdp auth) = some sid
session_of (answer sid sdp auth) = some sid
session_of (ice sid candidate) = some sid
session_of (bye sid reason) = some sid
session_of (auth_required sid) = some sid
session_of (pake_start sid payload) = some sid
session_of (pake_response sid payload) = some sid
session_of (pake_finish sid payload) = some sid
session_of (auth_failed sid secs) = some sid
session_of msg = none

-- What is sent satisfies `P`.
abbrev pub AllSent : (Tx → SignalMessage → Type 0) → List Effect → Type 0
AllSent P [] = Unit
AllSent P (send to m ∷ effects) = P to m × AllSent P effects
AllSent P (effect ∷ effects) = AllSent P effects

abbrev pub AllSentIn : (Tx → SignalMessage → Type 0) → Option Handled → Type 0
AllSentIn P none = Unit
AllSentIn P (some out) = AllSent P (out.2)

-- An answer to the connection itself, or the message, for the client that has this session with the
-- host.
abbrev pub FromHost : Inner → String → Tx → SignalMessage → Tx → SignalMessage → Type 0
FromHost r h tx msg to m =
    (to ≡ tx)
    ⊎ ((sid : String) × (session_of msg ≡ some sid)
        × (session_host_id r sid to ≡ some h)
        × (m ≡ msg))

-- An answer to the connection itself, or the message, for the current connection of the host that
-- has this session with the client.
abbrev pub FromClient : Inner → Tx → SignalMessage → Tx → SignalMessage → Type 0
FromClient r tx msg to m =
    (to ≡ tx)
    ⊎ ((sid h : String) × (session_of msg ≡ some sid)
        × (session_host_id r sid tx ≡ some h)
        × (host_tx r h ≡ some to)
        × (m ≡ msg))
