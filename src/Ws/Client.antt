-- ===== src/Ws/Client.antt =====
-- server/src/ws.rs, `run_client`: the messages on PINs and sessions, and what follows when the
-- connection is over.
use rcdesk.Common.{
  ℕ, ◌*◌, String, Option, none, some, Bool, not, List, [], ◌∷◌, ◌++◌, map, if◌then◌else◌,
}
use rcdesk.Registry.{Tx, Inner, Instant, Duration, nanos_per_sec, JoinError, message}
use rcdesk.Registry.Draws.{Draws, Outcome, done, ◌>>=◌}
use rcdesk.Registry.Sessions.{
  peer_tx_for_client, session_host_id, close_session_by_client, client_session_host_ids,
  disconnect_client, watch_owner,
}
use rcdesk.Registry.Join.{Result, ok, err, PinJoined}
use rcdesk.IpLimit.{
  IpAddr, IpLimiter, check_at, spend_at, GlobalLimiter, check_global, spend_global,
}
use rcdesk.Ws.{
  ByeReason, SignalMessage, pin_changed, joined, peer_joined, offer, answer, ice, bye, pake_start,
  pake_finish, error, join, other, IceServer, Effect, send, end_session, insert_session,
  link_device, displace_duplicates, announce_owner, notify_device_owners, go_on, stop, Handled,
  forward,
}

-- `PIN_BURST` and `PIN_REFILL` of server/src/app.rs, and those of the whole server
abbrev pub pin_burst : ℕ
pin_burst = 10

abbrev pub pin_refill : Duration
pin_refill = 60 * nanos_per_sec

abbrev pub pin_global_burst : ℕ
pin_global_burst = 300

abbrev pub pin_global_refill : Duration
pin_global_refill = 2 * nanos_per_sec

-- What the server shares among its connections.
pub record Server : Type 0 where
  pub registry : Inner
  pub pin_limiter : IpLimiter
  pub pin_global_limiter : GlobalLimiter

-- `ensure_owner_quiet`, which is not modelled: the owner, if there is one, and whether it is new.
pub record Ensured : Type 0 where
  pub owner : Option String
  pub created : Bool

unfoldable pub tell_pin : Tx → Option String → List Effect
tell_pin host_tx none = []
tell_pin host_tx (some pin) = send host_tx (pin_changed pin) ∷ []

unfoldable pub link : Option String → String → List Effect
link none h = []
link (some owner) h = link_device owner h ∷ displace_duplicates owner h ∷ []

module _ (ice_servers : String → List IceServer) (tx : Tx) (ip : IpAddr) (now : Instant) where
  -- A client that joined: what is logged and sent.
  unfoldable pub on_joined : Ensured → PinJoined → List Effect
  unfolding tell_pin link
  on_joined ensured (sid, h, name, host_tx, new_pin) =
      insert_session sid h ensured.owner "pin"
        ∷ send tx (joined sid name (ice_servers sid) (some h))
        ∷ send host_tx (peer_joined sid (ice_servers sid))
        ∷ tell_pin host_tx new_pin
      ++ link ensured.owner h
      ++ (if ensured.created then announce_owner ∷ [] else [])
      ++ (notify_device_owners h ∷ [])

  unfoldable pub join_answer :
      Server → Ensured → Result PinJoined × Inner × Draws → Server × List Effect × Draws
  unfolding on_joined message
  join_answer s ensured (ok result, r, rest) =
      (record s { registry = r }, on_joined ensured result, rest)
  join_answer s ensured (err e, r, rest) = (
    record {
      registry = r;
      pin_limiter = spend_at s.pin_limiter ip now;
      pin_global_limiter = spend_global s.pin_global_limiter now;
    },
    send tx (error (message e)) ∷ [],
    rest,
  )

  -- `SignalMessage::Join`, with nothing between the tests of the limits, `join` and the spending of the
  -- tokens, which take their locks one after another, and at one time.
  unfoldable pub on_join :
      Server → String → Duration → Draws → Ensured → Outcome (Server × List Effect × Draws)
  unfolding join_answer
  on_join s pin pin_ttl ds ensured =
      let joining : Outcome (Server × List Effect × Draws) = do
        answered ← rcdesk.Registry.Join.join s.registry pin tx pin_ttl now ds
        done (join_answer s ensured answered)
      in if not (check_at s.pin_limiter ip now)
        then done (s, send tx (error "too many attempts") ∷ [], ds)
        else if not (check_global s.pin_global_limiter now)
        then done (s, send tx (error "too many attempts") ∷ [], ds)
        else joining

-- A message for the host of the client's session.
unfoldable pub to_host : Inner → Tx → String → SignalMessage → Handled
unfolding forward
to_host r tx sid msg = (go_on, r, forward (peer_tx_for_client r sid tx) tx msg)

abbrev pub notify_host : Option String → List Effect
notify_host none = []
notify_host (some h) = notify_device_owners h ∷ []

unfoldable pub client_bye : String → Option ByeReason → Option String → Option Tx × Inner → Handled
client_bye sid reason host (some host_tx, r) =
    (go_on, r, end_session sid "client_bye" ∷ send host_tx (bye sid reason) ∷ notify_host host)
client_bye sid reason host (none, r) = (go_on, r, [])

-- The arms for the other end of a session. `Join` is `on_join`; the arms on accounts and devices are
-- not modelled.
unfoldable pub on_client_message : Inner → Tx → SignalMessage → Option Handled
unfolding to_host client_bye
on_client_message r tx (offer sid sdp auth) = some (to_host r tx sid (offer sid sdp auth))
on_client_message r tx (answer sid sdp auth) = some (to_host r tx sid (answer sid sdp auth))
on_client_message r tx (ice sid candidate) = some (to_host r tx sid (ice sid candidate))
on_client_message r tx (pake_start sid payload) = some (to_host r tx sid (pake_start sid payload))
on_client_message r tx (pake_finish sid payload) = some (to_host r tx sid (pake_finish sid payload))
on_client_message r tx (bye sid reason) =
    some (client_bye sid reason (session_host_id r sid tx) (close_session_by_client r sid tx))
on_client_message r tx (join pin) = none
on_client_message r tx (other tag) = none
on_client_message r tx msg = some (stop, r, send tx (error "unexpected message") ∷ [])

unfoldable pub client_gone : Inner → Tx → Inner × List Effect
client_gone r tx =
    let hosts = client_session_host_ids r tx in
    let (freed, r') = disconnect_client r tx in
    (watch_owner r' tx none, map notify_device_owners hosts)
