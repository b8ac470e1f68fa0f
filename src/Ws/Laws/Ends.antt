-- ===== src/Ws/Laws/Ends.antt =====
-- server/src/ws.rs, one session from both ends, while it lasts and once an end has said `bye`; and a
-- host's connection that is over.
use rcdesk.Common.{
  String, Option, none, some, true, false, List, [], ◌∷◌, ◌≡◌, refl, ◌∙◌, Option-cases, inl, inr,
  arith, ==_iff, nat_test, string_test,
}
use rcdesk.Assoc.{get}
use rcdesk.Registry.{Tx, Inner}
use rcdesk.Registry.Hosts.{host_tx, host_presence, is_current_host}
use rcdesk.Registry.Sessions.{peer_tx_for_host, peer_tx_for_client}
use rcdesk.Registry.Invariant.{IsConsistent}
use rcdesk.Registry.Relay.{
  peers_agree, client_reaches_host, close_session_by_host_lem, close_session_by_client_lem,
}
use rcdesk.Ws.{
  ByeReason, offer, answer, bye, error, Effect, send, end_session, notify_device_owners, go_on,
  Handled, forward,
}
use rcdesk.Ws.Host.{host_bye, to_client, on_host_message}
use rcdesk.Ws.Client.{client_bye, to_host, on_client_message}

current-host_tx :
    (r : Inner) (h : String) (tx : Tx) → is_current_host r h tx ≡ true → host_tx r h ≡ some tx
unfolding is_current_host host_tx
current-host_tx r h tx q = elim (Option-cases (get h r.hosts)) [
  | inl a ↦ absurd (ground arith)
  | inr (e, found) ↦ ground (arith, ==_iff e.tx tx)
]

abbrev pub refused : Tx → List Effect
refused tx = send tx (error "not in session") ∷ []

-- Neither end's messages of the session are passed on.
abbrev pub IsCut : Inner → String → String → Tx → Tx → Type 0
IsCut r h sid host client =
    ((sdp : String) (auth : Option String)
      → on_host_message r h host (offer sid sdp auth) ≡ (go_on, r, refused host))
    × ((sdp : String) (auth : Option String)
        → on_client_message r client (answer sid sdp auth) ≡ some (go_on, r, refused client))

-- The host's offer goes to the client, and the client's answer to the host.
abbrev pub Exchange : Inner → String → String → Tx → Tx → String → Option String → Type 0
Exchange r h sid host client sdp auth =
    (on_host_message r h host (offer sid sdp auth)
      ≡ (go_on, r, send client (offer sid sdp auth) ∷ []))
    × (on_client_message r client (answer sid sdp auth)
        ≡ some (go_on, r, send host (answer sid sdp auth) ∷ []))

-- The host's `bye` tells the client, frees the host and cuts both.
abbrev pub HostEnds : Inner → String → String → Tx → Tx → Option ByeReason → Type 0
HostEnds r h sid host client reason =
    let (flow, r', out) = on_host_message r h host (bye sid reason) in
    (out ≡ end_session sid "host_bye" ∷ send client (bye sid reason) ∷ notify_device_owners h ∷ [])
    × (host_presence r' h ≡ some false)
    × IsCut r' h sid host client

-- The client's `bye` tells the host, frees it and cuts both.
abbrev pub ClientEnds : Inner → String → String → Tx → Tx → Option ByeReason → Type 0
ClientEnds r h sid host client reason =
    (out : Handled) × (on_client_message r client (bye sid reason) ≡ some out)
    × (out.2
        ≡ end_session sid "client_bye" ∷ send host (bye sid reason) ∷ notify_device_owners h ∷ [])
    × (host_presence (out.1) h ≡ some false)
    × IsCut (out.1) h sid host client

is_cut :
    (r : Inner) (h sid : String) (host client : Tx)
    → peer_tx_for_host r h sid ≡ none
    → peer_tx_for_client r sid client ≡ none
    → IsCut r h sid host client
unfolding on_host_message on_client_message to_client to_host forward
is_cut r h sid host client p q = (λ sdp auth. rw p refl, λ sdp auth. rw q refl)

-- What a host's message and a client's message come to in a session between them.
module _ {r : Inner} (v : IsConsistent r) (h sid : String) (host client : Tx)
    (joined : peer_tx_for_host r h sid ≡ some client)
    (current : is_current_host r h host ≡ true) where
  back : peer_tx_for_client r sid client ≡ some host
  back = (client_reaches_host v h sid client joined).0 ∙ current-host_tx r h host current

  offered :
      (sdp : String) (auth : Option String)
      → on_host_message r h host (offer sid sdp auth)
        ≡ (go_on, r, send client (offer sid sdp auth) ∷ [])
  unfolding on_host_message to_client forward
  offered sdp auth = rw joined refl

  answered :
      (sdp : String) (auth : Option String)
      → on_client_message r client (answer sid sdp auth)
        ≡ some (go_on, r, send host (answer sid sdp auth) ∷ [])
  unfolding on_client_message to_host forward
  answered sdp auth = rw back refl

  host_says_bye : (reason : Option ByeReason) → HostEnds r h sid host client reason
  unfolding on_host_message host_bye
  host_says_bye reason =
      let (told, free, a, b) = close_session_by_host_lem v h sid client joined in
      rw told (refl, free, is_cut _ h sid host client a b)

  client_says_bye : (reason : Option ByeReason) → ClientEnds r h sid host client reason
  unfolding on_client_message client_bye
  client_says_bye reason =
      let here = (peers_agree v h sid client).0 joined in
      let (told, free, a, b) = close_session_by_client_lem v h sid client here in
      let there = told ∙ current-host_tx r h host current in
      (_, refl, rw (here, there) refl, rw there free, rw there (is_cut _ h sid host client a b))

  -- In a consistent registry with a session between a client and the host on its current connection,
  -- the host's offer goes to the client and the client's answer to the host. If either says `bye`,
  -- the other is told, the session's end is logged, the host is free, and neither's offers and answers
  -- in the session are passed on any more.
  pub session_runs :
      (sdp : String) (auth : Option String) (reason : Option ByeReason)
      → Exchange r h sid host client sdp auth
        × HostEnds r h sid host client reason
        × ClientEnds r h sid host client reason
  session_runs sdp auth reason =
      ((offered sdp auth, answered sdp auth), host_says_bye reason, client_says_bye reason)
