-- ===== src/Registry/Invariant/Hosts.antt =====
-- server/src/registry.rs, `register_host` and `unregister_host`: the invariant.
use rcdesk.Common.{
  string_test, nat_test, ◌==◌, String, Option, none, some, Bool, true, false, ◌≡◌, refl, arith,
  ==_iff, Option-cases, Bool-cases, inl, inr,
}
use rcdesk.Assoc.{
  Unique, get, insert, remove, update, get-remove_self, update-Unique, remove-Unique, insert-Unique,
}
use rcdesk.Registry.{Inner, HostEntry, HostMap, PinMap, SessionEntry, SessionMap, Instant, Tx}
use rcdesk.Registry.Draws.{Draws, Ensures, >>=-Ensures}
use rcdesk.Registry.Hosts.{
  register_host, unregister_host, displace, reattached, reattaches, forget_pin, owns_session,
}
use rcdesk.Registry.Pins.{unique_pin}
use rcdesk.Registry.Invariant.{PinsMatch, SessionsMatch, IsConsistent}
use rcdesk.Registry.Invariant.Index.{remove-PinsMatch, remove_absent-PinsMatch, insert-PinsMatch}
use rcdesk.Registry.Invariant.Table.{
  outside-SessionsMatch, repoint-SessionsMatch, close_owned-NotHosting, close_owned-Within,
  close_owned-Unique, absent-NotHosting, insert-SameBut, remove-SameBut,
}
use rcdesk.Registry.Invariant.Pins.{unique_pin_fresh}

forget_pin-PinsMatch :
    {hosts : HostMap} {pins : PinMap} (h : String) (o : Option HostEntry)
    → PinsMatch hosts pins
    → get h hosts ≡ o
    → PinsMatch (remove h hosts) (forget_pin o pins)
unfolding forget_pin
forget_pin-PinsMatch h none v q = remove_absent-PinsMatch v h q
forget_pin-PinsMatch h (some e) v q = remove-PinsMatch v h e q

-- The session that `reattaches` found.
pub owned :
    (h sid : String) (ss : SessionMap)
    → owns_session h sid ss ≡ true
    → (s : SessionEntry) × (get sid ss ≡ some s) × (s.host_id ≡ h)
unfolding owns_session
owned h sid ss t = elim (Option-cases (get sid ss)) [
  | inl a ↦ absurd (ground arith)
  | inr (s, a) ↦ (s, a, ground (arith, ==_iff s.host_id h))
]

-- The sessions after a registration without and with re-attachment.
module _ {hosts : HostMap} {ss : SessionMap} (v : SessionsMatch hosts ss) (h : String)
    (e' : HostEntry) where
  displaced_detached-SessionsMatch :
      (o : Option HostEntry)
      → get h hosts ≡ o
      → SessionsMatch (insert h e' (remove h hosts)) (displace h false o ss).1
  unfolding displace
  displaced_detached-SessionsMatch none q =
      outside-SessionsMatch v h _ ss (λ _ _ p. p) (absent-NotHosting v h q)
        (insert-SameBut h e' hosts)
  displaced_detached-SessionsMatch (some e) q =
      outside-SessionsMatch v h _ _ (close_owned-Within h e.session_id ss)
        (close_owned-NotHosting v h e e.session_id q refl) (insert-SameBut h e' hosts)

  displaced_attached-SessionsMatch :
      (o : Option HostEntry) (sid : String)
      → get h hosts ≡ o
      → e'.session_id ≡ some sid
      → owns_session h sid ss ≡ true
      → SessionsMatch
          (insert h e' (remove h hosts))
          (displace h true o (update sid (λ s. record s { host_tx = e'.tx }) ss)).1
  unfolding displace
  displaced_attached-SessionsMatch none sid q names own =
      let (s, known, mine) = owned h sid ss own in absurd (absent-NotHosting v h q sid s known mine)
  displaced_attached-SessionsMatch (some e) sid q names own =
      let (s, known, mine) = owned h sid ss own in
      repoint-SessionsMatch v h e e' sid s q known mine names

  registered-SessionsMatch :
      (sid? : Option String)
      → e'.session_id ≡ sid?
      → SessionsMatch
          (insert h e' (remove h hosts))
          (displace h (reattaches h sid? ss) (get h hosts) (reattached h sid? e'.tx ss)).1
  unfolding reattached
  registered-SessionsMatch none names = displaced_detached-SessionsMatch (get h hosts) refl
  registered-SessionsMatch (some sid) names = elim (Bool-cases (owns_session h sid ss)) [
    | inl t ↦ rw t (displaced_attached-SessionsMatch (get h hosts) sid refl names t)
    | inr f ↦ rw f (displaced_detached-SessionsMatch (get h hosts) refl)
  ]

displace-Unique :
    (h : String) (b : Bool) (o : Option HostEntry) (ss : SessionMap)
    → Unique ss
    → Unique (displace h b o ss).1
unfolding displace
displace-Unique h b none ss u = u
displace-Unique h true (some e) ss u = u
displace-Unique h false (some e) ss u = close_owned-Unique h e.session_id ss u

reattached-Unique :
    (h : String) (o : Option String) (tx : Tx) (ss : SessionMap)
    → Unique ss
    → Unique (reattached h o tx ss)
unfolding reattached
reattached-Unique h none tx ss u = u
reattached-Unique h (some sid) tx ss u =
    ground (arith, update-Unique sid (λ s. record s { host_tx = tx }) ss u)

pub register_host-IsConsistent :
    {r : Inner} (host_id name : String) (tx : Tx) (sid? : Option String) (rotation : Bool)
    (now : Instant) (ds : Draws)
    → IsConsistent r
    → Ensures (λ out. IsConsistent out.1) (register_host r host_id name tx sid? rotation now ds)
unfolding register_host
register_host-IsConsistent {r} host_id name tx sid? rotation now ds v =
    >>=-Ensures _ _ (unique_pin (forget_pin (get host_id r.hosts) r.pin_to_host) ds) _
      (unique_pin_fresh _ ds)
      (λ (pin, rest) free. record {
        pins_match =
            insert-PinsMatch (forget_pin-PinsMatch host_id (get host_id r.hosts) v.pins_match refl)
              host_id _ (get-remove_self host_id r.hosts) free;
        sessions_match = registered-SessionsMatch v.sessions_match host_id _ sid? refl;
        hosts_unique =
            insert-Unique host_id _ (remove host_id r.hosts)
              (remove-Unique host_id r.hosts v.hosts_unique);
        sessions_unique =
            displace-Unique host_id _ (get host_id r.hosts) _
              (reattached-Unique host_id sid? tx r.sessions v.sessions_unique);
      })

pub unregister_host-IsConsistent :
    {r : Inner} (h : String) (tx : Tx) → IsConsistent r → IsConsistent (unregister_host r h tx).1
unfolding unregister_host
unregister_host-IsConsistent {r} h tx v = elim (Option-cases (get h r.hosts)) [
  | inl a ↦ rw (a, unregister_host) v
  | inr (e, found) ↦ elim (Bool-cases (e.tx == tx)) [
    | inr f ↦ rw (found, unregister_host, f) v
    | inl t ↦
        rw (found, unregister_host, t)
          (record {
            pins_match = remove-PinsMatch v.pins_match h e found;
            sessions_match =
                outside-SessionsMatch v.sessions_match h _ _
                  (close_owned-Within h e.session_id r.sessions)
                  (close_owned-NotHosting v.sessions_match h e e.session_id found refl)
                  (remove-SameBut h r.hosts);
            hosts_unique = remove-Unique h r.hosts v.hosts_unique;
            sessions_unique = close_owned-Unique h e.session_id r.sessions v.sessions_unique;
          })
  ]
]
