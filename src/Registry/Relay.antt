-- ===== src/Registry/Relay.antt =====
-- server/src/registry.rs, the two ends of a session: they find each other while it lasts, and no
-- longer once one of them closes it.
use rcdesk.Common.{
  string_test, nat_test, ◌==◌, String, none, some, true, false, ◌≡◌, ◌↔◌, arith, ==_iff, ==_self,
  Option-cases, inl, inr,
}
use rcdesk.Assoc.{get, get-update, get-remove_self}
use rcdesk.Registry.{Inner, HostEntry, SessionEntry, Tx}
use rcdesk.Registry.Hosts.{host_presence, host_tx, owns_session}
use rcdesk.Registry.Sessions.{
  attached, peer_tx_for_host, peer_tx_for_client, session_host_id, close_session_by_client,
  close_session_by_host, drop_session,
}
use rcdesk.Registry.Invariant.{IsConsistent}

-- A session that both ends know.
abbrev Session : Inner → String → String → Tx → Type 0
Session r h sid client =
    (s : SessionEntry) × (get sid r.sessions ≡ some s) × (s.host_id ≡ h) × (s.client_tx ≡ client)

host_side :
    (r : Inner) (h sid : String) (client : Tx)
    → peer_tx_for_host r h sid ≡ some client
    → Session r h sid client
unfolding peer_tx_for_host
host_side r h sid client q = elim (Option-cases (get h r.hosts)) [
  | inl a ↦ absurd (ground arith)
  | inr (e, found) ↦ elim (Option-cases (get sid r.sessions)) [
    | inl a ↦ absurd (ground arith)
    | inr (s, known) ↦ (s, known, ground (arith, ==_iff s.host_id h), ground arith)
  ]
]

client_side :
    (r : Inner) (h sid : String) (client : Tx)
    → session_host_id r sid client ≡ some h
    → Session r h sid client
unfolding session_host_id
client_side r h sid client q = elim (Option-cases (get sid r.sessions)) [
  | inl a ↦ absurd (ground arith)
  | inr (s, known) ↦ (s, known, ground arith, ground (arith, ==_iff s.client_tx client))
]

module _ {r : Inner} (v : IsConsistent r) (h sid : String) (client : Tx) where
  both_sides :
      Session r h sid client
      → (peer_tx_for_host r h sid ≡ some client)
        × (session_host_id r sid client ≡ some h)
        × (peer_tx_for_client r sid client ≡ host_tx r h)
        × (host_presence r h ≡ some true)
  unfolding peer_tx_for_host session_host_id peer_tx_for_client host_tx host_presence attached
  both_sides (s, known, own, mine) =
      let (e, a, b, c) = v.sessions_match.held sid s known in
      let found : get h r.hosts ≡ some e = ground arith in
      let t₁ : (s.host_id == h) ≡ true = (==_iff s.host_id h).1 own in
      let t₂ : (s.client_tx == client) ≡ true = (==_iff s.client_tx client).1 mine in
      (ground (arith, ==_self sid), ground arith, ground arith, ground arith)

  -- A session of a host has this client for the host's messages exactly if it has this host for the
  -- client's.
  pub peers_agree :
      (peer_tx_for_host r h sid ≡ some client) ↔ (session_host_id r sid client ≡ some h)
  peers_agree = (
    λ q. (both_sides (host_side r h sid client q)).1,
    λ q. (both_sides (client_side r h sid client q)).0,
  )

  -- A client that gets a host's messages reaches that host's current connection, and the host is
  -- shown as busy.
  pub client_reaches_host :
      peer_tx_for_host r h sid ≡ some client
      → (peer_tx_for_client r sid client ≡ host_tx r h) × (host_presence r h ≡ some true)
  client_reaches_host q = let (a, b, c, d) = both_sides (host_side r h sid client q) in (c, d)

  -- When the client ends its session, the host is told and is free, and neither end finds the other.
  pub close_session_by_client_lem :
      session_host_id r sid client ≡ some h
      → ((close_session_by_client r sid client).0 ≡ host_tx r h)
        × (host_presence (close_session_by_client r sid client).1 h ≡ some false)
        × (peer_tx_for_host (close_session_by_client r sid client).1 h sid ≡ none)
        × (peer_tx_for_client (close_session_by_client r sid client).1 sid client ≡ none)
  unfolding close_session_by_client host_tx host_presence peer_tx_for_host peer_tx_for_client
      drop_session attached
  close_session_by_client_lem q =
      let (s, known, own, mine) = client_side r h sid client q in
      let (e, a, b, c) = v.sessions_match.held sid s known in
      let found : get h r.hosts ≡ some e = ground arith in
      let t : (s.client_tx == client) ≡ true = (==_iff s.client_tx client).1 mine in
      let freed =
        get-update h s.host_id (λ (e : HostEntry). record e { session_id = none }) r.hosts in
      let gone = get-remove_self sid r.sessions in
      (
        ground arith,
        ground (arith, freed, ==_iff s.host_id h),
        ground (arith, freed, ==_iff s.host_id h),
        ground (arith, gone),
      )

  -- When the host ends the session that it has with a client, the client is told, the host is free,
  -- and neither end finds the other.
  pub close_session_by_host_lem :
      peer_tx_for_host r h sid ≡ some client
      → ((close_session_by_host r h sid).0 ≡ some (some client))
        × (host_presence (close_session_by_host r h sid).1 h ≡ some false)
        × (peer_tx_for_host (close_session_by_host r h sid).1 h sid ≡ none)
        × (peer_tx_for_client (close_session_by_host r h sid).1 sid client ≡ none)
  unfolding close_session_by_host host_presence peer_tx_for_host peer_tx_for_client owns_session
      attached
  close_session_by_host_lem q =
      let (s, known, own, mine) = host_side r h sid client q in
      let (e, a, b, c) = v.sessions_match.held sid s known in
      let found : get h r.hosts ≡ some e = ground arith in
      let t : (s.host_id == h) ≡ true = (==_iff s.host_id h).1 own in
      let freed = get-update h h (λ (e : HostEntry). record e { session_id = none }) r.hosts in
      let gone = get-remove_self sid r.sessions in
      (
        ground (arith, ==_self sid),
        ground (arith, ==_self sid, freed, ==_self h),
        ground (arith, ==_self sid, freed, ==_self h),
        ground (arith, ==_self sid, gone),
      )
