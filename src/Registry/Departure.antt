-- ===== src/Registry/Departure.antt =====
-- server/src/registry.rs, `disconnect_client`: what is left of a client whose connection is gone.
use rcdesk.Common.{
  string_test, nat_test, ◌==◌, String, List, [], ◌∷◌, none, some, Bool, true, false, ◌≡◌, refl, ◌∙◌,
  arith, ==_iff, ==_self, any, Option-cases, Bool-cases, inl, inr,
}
use rcdesk.Assoc.{Unique, get, keys, get-remove, get-update}
use rcdesk.Registry.{Inner, HostEntry, SessionEntry, SessionMap, Tx}
use rcdesk.Registry.Sessions.{drop_session, drop_each, disconnect_client, client_sessions}
use rcdesk.Registry.Join.{in_session}
use rcdesk.Registry.Invariant.{IsConsistent}
use rcdesk.Registry.Invariant.Sessions.{disconnect_client-IsConsistent}

drop_each-none :
    (sids : List String) (r : Inner) (sid : String)
    → get sid r.sessions ≡ none
    → get sid (drop_each r sids).1.sessions ≡ none
unfolding drop_each
drop_each-none [] r sid q = q
drop_each-none (i ∷ sids) r sid q = elim (Option-cases (get i r.sessions)) [
  | inl a ↦ rw (a, drop_each) (drop_each-none sids r sid q)
  | inr (s, known) ↦
      rw (known, drop_each) (drop_each-none sids (drop_session r i s) sid (dropped s))
]
  where
    dropped : (s : SessionEntry) → get sid (drop_session r i s).sessions ≡ none
    dropped s = unfold drop_session in ground (arith, get-remove sid i r.sessions)

abbrev has : String → List String → Bool
has sid = any (λ i. i == sid)

drop_each_gone :
    (sids : List String) (r : Inner) (sid : String)
    → has sid sids ≡ true
    → get sid (drop_each r sids).1.sessions ≡ none
unfolding drop_each drop_session
drop_each_gone [] r sid t = cc
drop_each_gone (i ∷ sids) r sid t = elim (Option-cases (get i r.sessions)) [
  | inl a ↦
      rw (a, drop_each)
        (elim (Bool-cases (i == sid)) [
          | inl same ↦ drop_each-none sids r sid (ground (arith, ==_iff i sid))
          | inr other ↦ drop_each_gone sids r sid (ground arith)
        ])
  | inr (s, known) ↦
      rw (known, drop_each)
        (elim (Bool-cases (i == sid)) [
          | inl same ↦
              drop_each-none sids (drop_session r i s) sid
                (ground (arith, get-remove sid i r.sessions))
          | inr other ↦ drop_each_gone sids (drop_session r i s) sid (ground arith)
        ])
]

drop_each_other :
    (sids : List String) (r : Inner) (sid : String)
    → has sid sids ≡ false
    → get sid (drop_each r sids).1.sessions ≡ get sid r.sessions
unfolding drop_each drop_session
drop_each_other [] r sid f = refl
drop_each_other (i ∷ sids) r sid f = elim (Option-cases (get i r.sessions)) [
  | inl a ↦ rw (a, drop_each) (drop_each_other sids r sid (ground arith))
  | inr (s, known) ↦
      rw (known, drop_each)
        (drop_each_other sids (drop_session r i s) sid (ground arith)
          ∙ ground (arith, get-remove sid i r.sessions))
]

client_sessions_complete :
    (client : Tx) (ss : SessionMap) (sid : String) (s : SessionEntry)
    → get sid ss ≡ some s
    → s.client_tx ≡ client
    → has sid (keys (client_sessions client ss)) ≡ true
unfolding get client_sessions keys
client_sessions_complete client [] sid s q same = cc
client_sessions_complete client ((i, t) ∷ ss) sid s q same = elim (Bool-cases (i == sid)) [
  | inl e ↦ ground (arith, ==_iff t.client_tx client)
  | inr n ↦ ground (arith, client_sessions_complete client ss sid s (ground arith) same)
]

in_session_sound :
    (client : Tx) (ss : SessionMap)
    → Unique ss
    → in_session client ss ≡ true
    → (sid : String) × (s : SessionEntry) × (get sid ss ≡ some s) × (s.client_tx ≡ client)
unfolding in_session get
in_session_sound client [] u t = cc
in_session_sound client ((i, s) ∷ ss) u t = elim (Bool-cases (s.client_tx == client)) [
  | inl e ↦ (i, s, ground (arith, ==_self i), (==_iff s.client_tx client).0 e)
  | inr n ↦
      let (sid, s', q, same) = in_session_sound client ss u.1 (ground arith) in
      (sid, s', ground (arith, ==_iff i sid, u.0), same)
]

drop_each-Within :
    (sids : List String) (r : Inner) (sid : String) (s : SessionEntry)
    → get sid (drop_each r sids).1.sessions ≡ some s
    → get sid r.sessions ≡ some s
unfolding drop_session
drop_each-Within sids r sid s q = elim (Option-cases (get sid r.sessions)) [
  | inl a ↦ absurd (ground (arith, drop_each-none sids r sid a))
  | inr (t, a) ↦ elim (Bool-cases (has sid sids)) [
    | inl e ↦ absurd (ground (arith, drop_each_gone sids r sid e))
    | inr n ↦ rw (← drop_each_other sids r sid n) q
  ]
]

-- The host is registered and in no session.
abbrev pub IsFree : Inner → String → Type 0
IsFree r h = (e : HostEntry) × (get h r.hosts ≡ some e) × (e.session_id ≡ none)

drop_session-IsFree :
    (r : Inner) (sid : String) (s : SessionEntry) (e : HostEntry)
    → get s.host_id r.hosts ≡ some e
    → IsFree (drop_session r sid s) s.host_id
unfolding drop_session
drop_session-IsFree r sid s e found =
    (record e { session_id = none }, rw (get-update, ==_self s.host_id, found) refl, refl)

drop_session_other :
    (r : Inner) (sid : String) (s : SessionEntry) (h : String)
    → (s.host_id == h) ≡ false
    → get h (drop_session r sid s).hosts ≡ get h r.hosts
unfolding drop_session
drop_session_other r sid s h off = rw (get-update, off) refl

drop_session_same :
    (r : Inner) (sid : String) (s : SessionEntry) (h : String) (e : HostEntry)
    → (s.host_id == h) ≡ true
    → get h r.hosts ≡ some e
    → IsFree (drop_session r sid s) h
unfolding drop_session
drop_session_same r sid s h e same found =
    (record e { session_id = none }, rw (get-update, same, found) refl, refl)

drop_each_still :
    (sids : List String) (r : Inner) (h : String) → IsFree r h → IsFree (drop_each r sids).1 h
unfolding drop_each
drop_each_still [] r h free = free
drop_each_still (i ∷ sids) r h (e, found, out) = elim (Option-cases (get i r.sessions)) [
  | inl a ↦ rw (a, drop_each) (drop_each_still sids r h (e, found, out))
  | inr (s, known) ↦
      rw (known, drop_each)
        (drop_each_still sids (drop_session r i s) h (elim (Bool-cases (s.host_id == h)) [
          | inl same ↦ drop_session_same r i s h e same found
          | inr off ↦ (e, drop_session_other r i s h off ∙ found, out)
        ]))
]

drop_each_frees :
    (sids : List String) (r : Inner) (sid : String) (s : SessionEntry) (e : HostEntry)
    → has sid sids ≡ true
    → get sid r.sessions ≡ some s
    → get s.host_id r.hosts ≡ some e
    → IsFree (drop_each r sids).1 s.host_id
unfolding drop_each
drop_each_frees [] r sid s e t known found = absurd (ground arith)
drop_each_frees (i ∷ sids) r sid s e t known found = elim (Bool-cases (i == sid)) [
  | inl same ↦
      let here : get i r.sessions ≡ some s = ground (arith, ==_iff i sid) in
      rw (here, drop_each)
        (drop_each_still sids (drop_session r i s) s.host_id (drop_session-IsFree r i s e found))
  | inr other ↦ elim (Option-cases (get i r.sessions)) [
    | inl a ↦ rw (a, drop_each) (drop_each_frees sids r sid s e (ground arith) known found)
    | inr (u, there) ↦
        rw (there, drop_each)
          (elim (Bool-cases (u.host_id == s.host_id)) [
            | inl same ↦
                drop_each_still sids (drop_session r i u) s.host_id
                  (drop_session_same r i u s.host_id e same found)
            | inr off ↦
                drop_each_frees sids (drop_session r i u) sid s e (ground arith)
                  (unfold drop_session in ground (arith, get-remove sid i r.sessions))
                  (drop_session_other r i u s.host_id off ∙ found)
          ])
  ]
]

disconnect_client_out :
    {r : Inner} (client : Tx)
    → IsConsistent r
    → in_session client (disconnect_client r client).1.sessions ≡ false
unfolding disconnect_client
disconnect_client_out {r} client v =
    elim (Bool-cases (in_session client (disconnect_client r client).1.sessions)) [
      | inr f ↦ f
      | inl t ↦
          let w = disconnect_client-IsConsistent client v in
          let (sid, s, q, same) = in_session_sound client _ w.sessions_unique t in
          let ids = keys (client_sessions client r.sessions) in
          let before = drop_each-Within ids r sid s q in
          let gone =
            drop_each_gone ids r sid
              (client_sessions_complete client r.sessions sid s before same) in
          absurd (ground arith)
    ]

-- Once the connection of a client that is in a session is gone, the client has no session and the
-- session's host is registered and free.
pub disconnect_client_lem :
    {r : Inner} (client : Tx) (sid : String) (s : SessionEntry)
    → IsConsistent r
    → get sid r.sessions ≡ some s
    → s.client_tx ≡ client
    → (in_session client (disconnect_client r client).1.sessions ≡ false)
      × IsFree (disconnect_client r client).1 s.host_id
unfolding disconnect_client
disconnect_client_lem {r} client sid s v known mine =
    let (e, found, _, _) = v.sessions_match.held sid s known in
    (
      disconnect_client_out client v,
      drop_each_frees (keys (client_sessions client r.sessions)) r sid s e
          (client_sessions_complete client r.sessions sid s known mine) known found,
    )
