-- ===== src/Ws/Laws/Gone.antt =====
-- server/src/ws.rs, `run_host` as a whole: what it leaves behind, whatever other connections do
-- meanwhile.
use rcdesk.Common.{
  String, Option, none, some, Bool, true, false, List, [], ◌∷◌, ◌≡◌, refl, Option-cases, Bool-cases,
  inl, inr, arith, ◌==◌, nat_test, string_test,
}
use rcdesk.Assoc.{get, get-remove_self}
use rcdesk.Registry.{Tx, Inner}
use rcdesk.Registry.Hosts.{is_current_host, unregister_host}
use rcdesk.Registry.Invariant.{IsConsistent}
use rcdesk.Registry.Invariant.Hosts.{unregister_host-IsConsistent}
use rcdesk.Registry.Invariant.Sessions.{close_session_by_host-IsConsistent}
use rcdesk.Ws.{
  ByeReason, SignalMessage, offer, answer, ice, bye, auth_required, pake_response, auth_failed,
  session_stats,
}
use rcdesk.Ws.Budget.{MessageBudget, take_at}
use rcdesk.Ws.Host.{
  host_bye, to_client, on_host_message, Arrival, goes_on, host_turn, host_loop, host_gone,
  host_session,
}

-- What others do to the registry keeps it consistent.
abbrev pub IsFair : (Inner → Inner) → Type 0
IsFair change = (r : Inner) → IsConsistent r → IsConsistent (change r)

abbrev pub AllFair : List Arrival → Type 0
AllFair [] = Unit
AllFair (a ∷ arrivals) = IsFair a.before × IsFair a.between × AllFair arrivals

unregistered :
    (r : Inner) (h : String) (tx : Tx) → is_current_host ((unregister_host r h tx).1) h tx ≡ false
unfolding is_current_host unregister_host
unregistered r h tx = elim (Option-cases (get h r.hosts)) [
  | inl a ↦ ground arith
  | inr (e, found) ↦ elim (Bool-cases (e.tx == tx)) [
    | inr f ↦ ground arith
    | inl t ↦ rw (found, unregister_host, t) (rw (get-remove_self h r.hosts, is_current_host) refl)
  ]
]

host_bye-IsConsistent :
    (h sid : String) (reason : Option ByeReason) (closed : Option (Option Tx) × Inner)
    → IsConsistent closed.1
    → IsConsistent (host_bye h sid reason closed).1
unfolding host_bye
host_bye-IsConsistent h sid reason (some (some client), r) v = v
host_bye-IsConsistent h sid reason (some none, r) v = v
host_bye-IsConsistent h sid reason (none, r) v = v

on_host_message-IsConsistent :
    {r : Inner} (h : String) (tx : Tx) (msg : SignalMessage)
    → IsConsistent r
    → IsConsistent (on_host_message r h tx msg).1
unfolding on_host_message to_client
on_host_message-IsConsistent h tx (offer sid sdp auth) v = v
on_host_message-IsConsistent h tx (answer sid sdp auth) v = v
on_host_message-IsConsistent h tx (ice sid candidate) v = v
on_host_message-IsConsistent h tx (auth_required sid) v = v
on_host_message-IsConsistent h tx (pake_response sid payload) v = v
on_host_message-IsConsistent h tx (auth_failed sid secs) v = v
on_host_message-IsConsistent h tx (bye sid reason) v =
    host_bye-IsConsistent h sid reason _ (close_session_by_host-IsConsistent v h sid)
on_host_message-IsConsistent h tx (session_stats sid out in_ relay last) v = v
on_host_message-IsConsistent h tx msg v = v

host_turn-IsConsistent :
    (passed current : Bool) (seen : Inner) {r : Inner} (h : String) (tx : Tx) (msg : SignalMessage)
    → IsConsistent seen
    → IsConsistent r
    → IsConsistent (host_turn passed current seen r h tx msg).1
unfolding host_turn
host_turn-IsConsistent false current seen h tx msg s v = s
host_turn-IsConsistent true false seen h tx msg s v = s
host_turn-IsConsistent true true seen h tx msg s v = on_host_message-IsConsistent h tx msg v

host_loop-IsConsistent :
    (h : String) (tx : Tx) (b : MessageBudget) (arrivals : List Arrival) {r : Inner}
    → AllFair arrivals
    → IsConsistent r
    → IsConsistent (host_loop h tx b arrivals r).0
unfolding host_loop
host_loop-IsConsistent h tx b [] fair v = v
host_loop-IsConsistent h tx b (a ∷ arrivals) {r} (f, g, fair) v =
    let seen = a.before r in
    let turn =
      host_turn ((take_at b a.now).0) (is_current_host seen h tx) seen (a.between seen) h tx
        a.msg in
    let w =
      host_turn-IsConsistent ((take_at b a.now).0) (is_current_host seen h tx) seen h tx a.msg
        (f r v) (g (a.before r) (f r v)) in
    elim (Bool-cases (goes_on (turn.0))) [
      | inl t ↦ rw t (host_loop-IsConsistent h tx ((take_at b a.now).1) arrivals fair w)
      | inr f ↦ rw f w
    ]

-- Whatever messages a host's connection brings, and whatever other connections do between them, as
-- long as they keep the registry consistent: when the connection is over, the registry is consistent
-- and does not have this host on that connection.
pub host_session-IsConsistent :
    (h : String) (tx : Tx) (b : MessageBudget) (arrivals : List Arrival) (before : Inner → Inner)
    {r : Inner}
    → AllFair arrivals
    → IsFair before
    → IsConsistent r
    → IsConsistent (host_session h tx b arrivals before r).0
      × (is_current_host ((host_session h tx b arrivals before r).0) h tx ≡ false)
unfolding host_session host_gone
host_session-IsConsistent h tx b arrivals before {r} fair last v = (
  unregister_host-IsConsistent h tx (last _ (host_loop-IsConsistent h tx b arrivals fair v)),
  unregistered (before ((host_loop h tx b arrivals r).0)) h tx,
)
