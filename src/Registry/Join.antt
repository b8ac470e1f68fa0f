-- ===== src/Registry/Join.antt =====
-- server/src/registry.rs, how a client gets a session: `join_by_host_id` and `join` by PIN.
use rcdesk.Common.{
  string_test, nat_test, String, [], ◌∷◌, Option, none, some, Bool, if◌then◌else◌, ◌==◌, ◌&&◌,
  is_some, any,
}
use rcdesk.Assoc.{get, insert, update, contains_key}
use rcdesk.Registry.{
  Inner, HostEntry, SessionMap, Tx, Instant, Duration, JoinError, unknown_pin, host_busy,
  host_offline, already_in_session,
}
use rcdesk.Registry.Draws.{Draws, Outcome, done, starved, ◌>>=◌, random_id}
use rcdesk.Registry.Pins.{pin_expired, rotate_pin}

pub data Result {ℓ} (A : Type ℓ) : Type ℓ where
  ok : A → Result A
  err : JoinError → Result A

-- The first drawn id that no session has.
unfoldable pub unique_id : SessionMap → Draws → Outcome (String × Draws)
unfolding contains_key
unique_id ss [] = starved
unique_id ss (d ∷ ds) =
    let rest = unique_id ss ds in
    if contains_key (random_id d) ss then rest else done (random_id d, ds)

unfoldable pub in_session : Tx → SessionMap → Bool
in_session client_tx ss = any (λ p. p.1.client_tx == client_tx) ss

-- The session id, the host's name and its connection.
abbrev pub Joined : Type 0
Joined = String × String × Tx

-- The new session's entry, and the host marked busy.
unfoldable pub attach : Inner → String → HostEntry → Tx → String → Inner
attach r host_id host client_tx sid = record r {
  sessions =
      insert sid (record { host_id = host_id; host_tx = host.tx; client_tx = client_tx })
        r.sessions;
  hosts = update host_id (λ h. record h { session_id = some sid }) r.hosts;
}

-- A refusal leaves the registry as it was.
unfoldable pub join_by_host_id :
    Inner → String → Tx → Draws → Outcome (Result Joined × Inner × Draws)
unfolding unique_id in_session attach
join_by_host_id r host_id client_tx ds = elim (get host_id r.hosts) [
  | none ↦ done (err host_offline, r, ds)
  | some host ↦
      let joined : Outcome (Result Joined × Inner × Draws) = do
        (sid, rest) ← unique_id r.sessions ds
        done (ok (sid, host.name, host.tx), attach r host_id host client_tx sid, rest)
      in if in_session client_tx r.sessions
        then done (err already_in_session, r, ds)
        else if is_some host.session_id
        then done (err host_busy, r, ds)
        else joined
]

-- The first critical section of `join`: the host that a live PIN names.
unfoldable pub resolve_pin : Inner → String → Duration → Instant → Result String
unfolding pin_expired
resolve_pin r pin pin_ttl now = elim (get pin r.pin_to_host) [
  | none ↦ err unknown_pin
  | some host_id ↦ elim (get host_id r.hosts) [
    | none ↦ ok host_id
    | some host ↦ if pin_expired now pin_ttl host then err unknown_pin else ok host_id
  ]
]

unfoldable pub hide_offline : JoinError → JoinError
hide_offline host_offline = unknown_pin
hide_offline other = other

-- The third critical section: a new PIN for a host that can be told of it, if it is still the
-- connection that was joined.
unfoldable pub rotate_after_join :
    Inner → String → Tx → Instant → Draws → Outcome (Option String × Inner × Draws)
unfolding rotate_pin
rotate_after_join r host_id host_tx now ds = elim (get host_id r.hosts) [
  | none ↦ done (none, r, ds)
  | some host ↦
      let rotated : Outcome (Option String × Inner × Draws) = do
        (pin, r', rest) ← rotate_pin r host_id now ds
        done (some pin, r', rest)
      in if host.pin_rotation && (host.tx == host_tx) then rotated else done (none, r, ds)
]

-- Session id, host id, host name, the host's connection, and its new PIN if it got one.
abbrev pub PinJoined : Type 0
PinJoined = String × String × String × Tx × Option String

-- The rest of `join`, once the second section has answered.
unfoldable pub finish_join :
    String → Instant → Result Joined × Inner × Draws → Outcome (Result PinJoined × Inner × Draws)
unfolding rotate_after_join hide_offline
finish_join host_id now (err e, r, ds) = done (err (hide_offline e), r, ds)
finish_join host_id now (ok (sid, name, tx), r, ds) = do
  (new_pin, r', rest) ← rotate_after_join r host_id tx now ds
  done (ok (sid, host_id, name, tx, new_pin), r', rest)

-- `join` with nothing between its three critical sections.
unfoldable pub join :
    Inner → String → Tx → Duration → Instant → Draws → Outcome (Result PinJoined × Inner × Draws)
unfolding resolve_pin join_by_host_id finish_join
join r pin client_tx pin_ttl now ds = elim (resolve_pin r pin pin_ttl now) [
  | err e ↦ done (err e, r, ds)
  | ok host_id ↦ do answer ← join_by_host_id r host_id client_tx ds; finish_join host_id now answer
]
