-- ===== src/Ws/Host.antt =====
-- server/src/ws.rs, `run_host` once the host is registered: its loop over the host's messages, and
-- what follows when the connection is over.
use rcdesk.Common.{
  String, Option, none, some, Bool, true, false, List, [], ◌∷◌, ◌++◌, if◌then◌else◌,
}
use rcdesk.Registry.{Tx, Inner, Instant}
use rcdesk.Registry.Hosts.{is_current_host, unregister_host}
use rcdesk.Registry.Sessions.{peer_tx_for_host, close_session_by_host}
use rcdesk.Ws.{
  ByeReason, SignalMessage, offer, answer, ice, bye, auth_required, pake_response, auth_failed,
  session_stats, error, Effect, send, end_session, record_session_stats, notify_device_owners, Flow,
  go_on, stop, Handled, forward,
}
use rcdesk.Ws.Budget.{MessageBudget, take_at}

unfoldable pub host_bye : String → String → Option ByeReason → Option (Option Tx) × Inner → Handled
host_bye h sid reason (some (some client), r) = (
  go_on,
  r,
  end_session sid "host_bye" ∷ send client (bye sid reason) ∷ notify_device_owners h ∷ [],
)
host_bye h sid reason (some none, r) = (go_on, r, notify_device_owners h ∷ [])
host_bye h sid reason (none, r) = (go_on, r, [])

-- A message for the client of the host's session.
unfoldable pub to_client : Inner → String → Tx → String → SignalMessage → Handled
unfolding forward
to_client r h tx sid msg = (go_on, r, forward (peer_tx_for_host r h sid) tx msg)

unfoldable pub on_host_message : Inner → String → Tx → SignalMessage → Handled
unfolding to_client host_bye
on_host_message r h tx (offer sid sdp auth) = to_client r h tx sid (offer sid sdp auth)
on_host_message r h tx (answer sid sdp auth) = to_client r h tx sid (answer sid sdp auth)
on_host_message r h tx (ice sid candidate) = to_client r h tx sid (ice sid candidate)
on_host_message r h tx (auth_required sid) = to_client r h tx sid (auth_required sid)
on_host_message r h tx (pake_response sid payload) =
    to_client r h tx sid (pake_response sid payload)
on_host_message r h tx (auth_failed sid secs) = to_client r h tx sid (auth_failed sid secs)
on_host_message r h tx (bye sid reason) = host_bye h sid reason (close_session_by_host r h sid)
on_host_message r h tx (session_stats sid out in_ relay last) =
    (go_on, r, record_session_stats sid h out in_ relay last ∷ [])
on_host_message r h tx msg = (stop, r, send tx (error "unexpected message") ∷ [])

-- A message of the host, and what other connections do to the registry before the server asks
-- whether the host is displaced, and between that and the handling.
pub record Arrival : Type 0 where
  pub now : Instant
  pub msg : SignalMessage
  pub before : Inner → Inner
  pub between : Inner → Inner

unfoldable pub host_turn : Bool → Bool → Inner → Inner → String → Tx → SignalMessage → Handled
unfolding on_host_message
host_turn false current seen r h tx msg = (stop, seen, send tx (error "too many messages") ∷ [])
host_turn true false seen r h tx msg = (stop, seen, [])
host_turn true true seen r h tx msg = on_host_message r h tx msg

abbrev pub goes_on : Flow → Bool
goes_on go_on = true
goes_on stop = false

-- The loop, until the connection brings no more.
unfoldable pub host_loop : String → Tx → MessageBudget → List Arrival → Inner → Inner × List Effect
unfolding host_turn
host_loop h tx b [] r = (r, [])
host_loop h tx b (a ∷ arrivals) r =
    let (passed, b') = take_at b a.now in
    let seen = a.before r in
    let (flow, r', out) =
      host_turn passed (is_current_host seen h tx) seen (a.between seen) h tx a.msg in
    let (last, rest) = host_loop h tx b' arrivals r' in
    if goes_on flow then (last, out ++ rest) else (r', out)

unfoldable pub host_gone : Inner → String → Tx → Inner × List Effect
host_gone r h tx = ((unregister_host r h tx).1, notify_device_owners h ∷ [])

-- The rest of `run_host`, with what others do before the host is taken out.
unfoldable pub host_session :
    String → Tx → MessageBudget → List Arrival → (Inner → Inner) → Inner → Inner × List Effect
unfolding host_loop host_gone
host_session h tx b arrivals before r =
    let (last, out) = host_loop h tx b arrivals r in
    let (end, told) = host_gone (before last) h tx in (end, out ++ told)
