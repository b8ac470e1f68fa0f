-- ===== src/Registry/Invariant/Sessions.antt =====
-- server/src/registry.rs, `close_session_by_host`, `close_session_by_client` and
-- `disconnect_client`: the invariant.
use rcdesk.Common.{
  string_test, nat_test, ◌==◌, String, List, [], ◌∷◌, some, true, false, ◌≡◌, refl, arith, ==_iff,
  Option-cases, Bool-cases, inl, inr,
}
use rcdesk.Assoc.{get, remove, update-Unique, remove-Unique, keys}
use rcdesk.Registry.{Inner, HostEntry, SessionEntry, Tx}
use rcdesk.Registry.Hosts.{owns_session}
use rcdesk.Registry.Sessions.{
  attached, free_host, close_session_by_host, drop_session, close_session_by_client, drop_each,
  disconnect_client, client_sessions,
}
use rcdesk.Registry.Invariant.{IsConsistent}
use rcdesk.Registry.Invariant.Index.{update-PinsMatch}
use rcdesk.Registry.Invariant.Table.{
  outside-SessionsMatch, detached-NotHosting, update-SameBut, drop-SessionsMatch,
}
use rcdesk.Registry.Invariant.Hosts.{owned}

pub attached→some : (e : HostEntry) (sid : String) → attached e sid ≡ true → e.session_id ≡ some sid
unfolding attached
attached→some e sid t = elim (Option-cases e.session_id) [
  | inl a ↦ absurd (ground arith)
  | inr (own, a) ↦ ground (arith, ==_iff own sid)
]

module _ {r : Inner} (v : IsConsistent r) where
  pub drop_session-IsConsistent :
      (sid : String) (s : SessionEntry)
      → get sid r.sessions ≡ some s
      → IsConsistent (drop_session r sid s)
  unfolding drop_session
  drop_session-IsConsistent sid s q = record {
    pins_match = update-PinsMatch v.pins_match s.host_id _ (λ _. refl);
    sessions_match = drop-SessionsMatch v.sessions_match sid s q;
    hosts_unique = update-Unique s.host_id _ r.hosts v.hosts_unique;
    sessions_unique = remove-Unique sid r.sessions v.sessions_unique;
  }

  free_detached-IsConsistent :
      (h sid : String) (e : HostEntry)
      → get h r.hosts ≡ some e
      → e.session_id ≡ some sid
      → owns_session h sid r.sessions ≡ false
      → IsConsistent (record r { hosts = free_host h r.hosts })
  free_detached-IsConsistent h sid e found names other = record {
    pins_match = update-PinsMatch v.pins_match h _ (λ _. refl);
    sessions_match =
        outside-SessionsMatch v.sessions_match h _ r.sessions (λ _ _ p. p)
          (detached-NotHosting v.sessions_match h e sid found names other)
          (update-SameBut h _ r.hosts);
    hosts_unique = update-Unique h _ r.hosts v.hosts_unique;
    sessions_unique = v.sessions_unique;
  }

  drop_owned-IsConsistent :
      (h sid : String)
      → owns_session h sid r.sessions ≡ true
      → IsConsistent (record r { hosts = free_host h r.hosts; sessions = remove sid r.sessions })
  unfolding drop_session
  drop_owned-IsConsistent h sid t =
      let (s, known, mine) = owned h sid r.sessions t in
      rw (← mine) (drop_session-IsConsistent sid s known)

  pub close_session_by_host-IsConsistent :
      (h sid : String) → IsConsistent (close_session_by_host r h sid).1
  unfolding close_session_by_host
  close_session_by_host-IsConsistent h sid = elim (Option-cases (get h r.hosts)) [
    | inl a ↦ rw (a, close_session_by_host) v
    | inr (e, found) ↦ elim (Bool-cases (attached e sid)) [
      | inr f ↦ rw (found, close_session_by_host, f) v
      | inl t ↦ elim (Bool-cases (owns_session h sid r.sessions)) [
        | inl own ↦ rw (found, close_session_by_host, t, own) (drop_owned-IsConsistent h sid own)
        | inr other ↦
            rw (found, close_session_by_host, t, other)
              (free_detached-IsConsistent h sid e found (attached→some e sid t) other)
      ]
    ]
  ]

  pub close_session_by_client-IsConsistent :
      (sid : String) (client_tx : Tx) → IsConsistent (close_session_by_client r sid client_tx).1
  unfolding close_session_by_client
  close_session_by_client-IsConsistent sid client_tx = elim (Option-cases (get sid r.sessions)) [
    | inl a ↦ rw (a, close_session_by_client) v
    | inr (s, known) ↦ elim (Bool-cases (s.client_tx == client_tx)) [
      | inr f ↦ rw (known, close_session_by_client, f) v
      | inl t ↦ rw (known, close_session_by_client, t) (drop_session-IsConsistent sid s known)
    ]
  ]

pub drop_each-IsConsistent :
    (sids : List String) {r : Inner} → IsConsistent r → IsConsistent (drop_each r sids).1
unfolding drop_each
drop_each-IsConsistent [] v = v
drop_each-IsConsistent (sid ∷ sids) {r} v = elim (Option-cases (get sid r.sessions)) [
  | inl a ↦ rw (a, drop_each) (drop_each-IsConsistent sids v)
  | inr (s, known) ↦
      rw (known, drop_each) (drop_each-IsConsistent sids (drop_session-IsConsistent v sid s known))
]

pub disconnect_client-IsConsistent :
    {r : Inner} (client_tx : Tx) → IsConsistent r → IsConsistent (disconnect_client r client_tx).1
unfolding disconnect_client
disconnect_client-IsConsistent {r} client_tx v =
    drop_each-IsConsistent (keys (client_sessions client_tx r.sessions)) v
