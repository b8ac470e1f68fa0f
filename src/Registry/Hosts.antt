-- ===== src/Registry/Hosts.antt =====
-- server/src/registry.rs, a host's registration and its end: `register_host`, `unregister_host`,
-- `is_current_host`, `host_presence`, `host_tx`, `online_host_ids`.
use rcdesk.Common.{
  string_test, nat_test, String, List, Option, none, some, Bool, true, false, if◌then◌else◌, ◌==◌,
  is_some,
}
use mathlib.Core.Option
use rcdesk.Assoc.{get, insert, remove, update, keys}
use rcdesk.Registry.{Inner, HostEntry, PinMap, SessionMap, Tx, Instant}
use rcdesk.Registry.Draws.{Draws, Outcome, done, ◌>>=◌}
use rcdesk.Registry.Pins.{unique_pin}

pub record Displaced : Type 0 where
  pub host_tx : Tx
  pub session : Option (String × Tx)

-- The server has a session under this id, and it is this host's.
unfoldable pub owns_session : String → String → SessionMap → Bool
owns_session host_id sid ss = elim (get sid ss) [ none ↦ false | some s ↦ s.host_id == host_id ]

unfoldable pub reattaches : String → Option String → SessionMap → Bool
unfolding owns_session
reattaches host_id none ss = false
reattaches host_id (some sid) ss = owns_session host_id sid ss

-- The session lives on under the new connection.
unfoldable pub repoint : Option String → Tx → SessionMap → SessionMap
repoint none tx ss = ss
repoint (some sid) tx ss = update sid (λ s. record s { host_tx = tx }) ss

-- Ends the session that the host's entry names, unless it is another host's or none at all.
unfoldable pub close_owned : String → Option String → SessionMap → Option (String × Tx) × SessionMap
close_owned host_id none ss = (none, ss)
close_owned host_id (some sid) ss = elim (get sid ss) [
  | none ↦ (none, ss)
  | some s ↦ if s.host_id == host_id then (some (sid, s.client_tx), remove sid ss) else (none, ss)
]

unfoldable pub forget_pin : Option HostEntry → PinMap → PinMap
forget_pin none pins = pins
forget_pin (some old) pins = remove old.pin pins

-- What the displaced connection is told, and the sessions that stay.
unfoldable pub displace :
    String → Bool → Option HostEntry → SessionMap → Option Displaced × SessionMap
unfolding close_owned
displace host_id reattach none ss = (none, ss)
displace host_id true (some old) ss = (some (record { host_tx = old.tx; session = none }), ss)
displace host_id false (some old) ss =
    let (session, rest) = close_owned host_id old.session_id ss in
    (some (record { host_tx = old.tx; session = session }), rest)

-- The sessions once the new connection is re-attached, if it is.
unfoldable pub reattached : String → Option String → Tx → SessionMap → SessionMap
unfolding reattaches repoint
reattached host_id session_id tx ss =
    if reattaches host_id session_id ss then repoint session_id tx ss else ss

unfoldable pub register_host :
    Inner
    → String
    → String
    → Tx
    → Option String
    → Bool
    → Instant
    → Draws
    → Outcome ((String × Option Displaced) × Inner × Draws)
unfolding reattached displace forget_pin unique_pin
register_host r host_id name tx session_id pin_rotation now ds = do
  let old = get host_id r.hosts
  let pins = forget_pin old r.pin_to_host
  let reattach = reattaches host_id session_id r.sessions
  let (displaced, sessions) =
      displace host_id reattach old (reattached host_id session_id tx r.sessions)
  (pin, rest) ← unique_pin pins ds
  let host : HostEntry = record {
    name = name;
    pin = pin;
    tx = tx;
    session_id = session_id;
    pin_issued_at = now;
    pin_rotation = pin_rotation;
  }
  let r' : Inner = record r {
    hosts = insert host_id host (remove host_id r.hosts);
    pin_to_host = insert pin host_id pins;
    sessions = sessions;
  }
  done ((pin, displaced), r', rest)

unfoldable pub is_current_host : Inner → String → Tx → Bool
is_current_host r host_id tx = elim (get host_id r.hosts) [
  | none ↦ false
  | some host ↦ host.tx == tx
]

unfoldable pub unregister_host : Inner → String → Tx → Option (String × Tx) × Inner
unfolding close_owned
unregister_host r host_id tx = elim (get host_id r.hosts) [
  | none ↦ (none, r)
  | some host ↦
      let (closed, sessions) = close_owned host_id host.session_id r.sessions in
      if host.tx == tx
      then (
        closed,
        record r {
          hosts = remove host_id r.hosts;
          pin_to_host = remove host.pin r.pin_to_host;
          sessions = sessions;
        },
      )
      else (none, r)
]

-- `None`: not connected; otherwise whether it has a session.
unfoldable pub host_presence : Inner → String → Option Bool
host_presence r host_id = Option.map (λ host. is_some host.session_id) (get host_id r.hosts)

unfoldable pub host_tx : Inner → String → Option Tx
host_tx r host_id = Option.map (λ host. host.tx) (get host_id r.hosts)

unfoldable pub online_host_ids : Inner → List String
unfolding keys
online_host_ids r = keys r.hosts
