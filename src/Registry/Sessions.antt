-- ===== src/Registry/Sessions.antt =====
-- server/src/registry.rs, sessions once they exist: whom a message goes to, and how they end.
use rcdesk.Common.{
  string_test, nat_test, String, List, [], ◌∷◌, Option, none, some, Bool, false, if◌then◌else◌,
  ◌==◌, not, keep, map, ◌++◌,
}
use mathlib.Core.Option
use rcdesk.Assoc.{get, remove, update, keys}
use rcdesk.Registry.{Inner, HostEntry, HostMap, SessionEntry, SessionMap, Tx}
use rcdesk.Registry.Hosts.{owns_session}

-- `host.session_id.as_deref() == Some(session_id)`
unfoldable pub attached : HostEntry → String → Bool
attached host sid = elim host.session_id [ none ↦ false | some own ↦ own == sid ]

unfoldable pub peer_tx_for_host : Inner → String → String → Option Tx
unfolding attached
peer_tx_for_host r host_id sid = elim (get host_id r.hosts) [
  | none ↦ none
  | some host ↦ if not (attached host sid) then none else elim (get sid r.sessions) [
    | none ↦ none
    | some s ↦ if s.host_id == host_id then some s.client_tx else none
  ]
]

unfoldable pub peer_tx_for_client : Inner → String → Tx → Option Tx
peer_tx_for_client r sid client_tx = elim (get sid r.sessions) [
  | none ↦ none
  | some s ↦ if not (s.client_tx == client_tx) then none else some s.host_tx
]

-- `host.session_id = None`
abbrev pub free_host : String → HostMap → HostMap
free_host host_id hosts = update host_id (λ h. record h { session_id = none }) hosts

-- `none`: nothing to free; `some none`: a detached session, with no client to tell.
unfoldable pub close_session_by_host : Inner → String → String → Option (Option Tx) × Inner
unfolding attached owns_session
close_session_by_host r host_id sid = elim (get host_id r.hosts) [
  | none ↦ (none, r)
  | some host ↦
      if not (attached host sid)
      then (none, r)
      else if owns_session host_id sid r.sessions
      then (
        some (Option.map (λ s. s.client_tx) (get sid r.sessions)),
        record r { hosts = free_host host_id r.hosts; sessions = remove sid r.sessions },
      )
      else (some none, record r { hosts = free_host host_id r.hosts })
]

-- A session leaves the table and frees its host.
unfoldable pub drop_session : Inner → String → SessionEntry → Inner
drop_session r sid s = record r {
  hosts = free_host s.host_id r.hosts;
  sessions = remove sid r.sessions;
}

unfoldable pub close_session_by_client : Inner → String → Tx → Option Tx × Inner
unfolding drop_session
close_session_by_client r sid client_tx = elim (get sid r.sessions) [
  | none ↦ (none, r)
  | some s ↦
      if not (s.client_tx == client_tx) then (none, r) else (some s.host_tx, drop_session r sid s)
]

unfoldable pub session_host_id : Inner → String → Tx → Option String
session_host_id r sid client_tx = elim (get sid r.sessions) [
  | none ↦ none
  | some s ↦ if s.client_tx == client_tx then some s.host_id else none
]

-- The sessions of a client's connection.
unfoldable pub client_sessions : Tx → SessionMap → SessionMap
client_sessions client_tx ss = keep (λ p. p.1.client_tx == client_tx) ss

unfoldable pub client_session_host_ids : Inner → Tx → List String
unfolding client_sessions
client_session_host_ids r client_tx = map (λ p. p.1.host_id) (client_sessions client_tx r.sessions)

-- The loop of `disconnect_client` over the ids that it collected.
unfoldable pub drop_each : Inner → List String → List (String × Tx) × Inner
unfolding drop_session
drop_each r [] = ([], r)
drop_each r (sid ∷ sids) = elim (get sid r.sessions) [
  | none ↦ drop_each r sids
  | some s ↦
      let (freed, r') = drop_each (drop_session r sid s) sids in ((sid, s.host_tx) ∷ freed, r')
]

unfoldable pub disconnect_client : Inner → Tx → List (String × Tx) × Inner
unfolding drop_each client_sessions
disconnect_client r client_tx = drop_each r (keys (client_sessions client_tx r.sessions))

-- Ids of session entries, and those that hosts report.
unfoldable pub reported : HostMap → List String
reported [] = []
reported ((id, host) ∷ m) =
    let rest = reported m in elim host.session_id [ none ↦ rest | some sid ↦ sid ∷ rest ]

unfoldable pub active_session_ids : Inner → List String
unfolding keys reported
active_session_ids r = keys r.sessions ++ reported r.hosts

unfoldable pub watch_owner : Inner → Tx → Option String → Inner
watch_owner r tx none = record r { watchers = keep (λ w. not (w.0 == tx)) r.watchers }
watch_owner r tx (some owner_id) = record r {
  watchers = keep (λ w. not (w.0 == tx)) r.watchers ++ ((tx, owner_id) ∷ []);
}

unfoldable pub owner_watchers : Inner → String → List Tx
owner_watchers r owner_id = map (λ w. w.0) (keep (λ w. w.1 == owner_id) r.watchers)
