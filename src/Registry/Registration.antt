-- ===== src/Registry/Registration.antt =====
-- server/src/registry.rs, what `register_host` and `unregister_host` do for a device that comes back.
use mathlib.Core.Option
use rcdesk.Common.{
  string_test, nat_test, ◌==◌, String, Option, none, some, Bool, true, false, ◌≡◌, ◌≢◌, ◌⊎◌, refl,
  ap, ◌∙◌, arith, ==_iff, ==_self, Option-cases, Bool-cases, inl, inr,
}
use rcdesk.Assoc.{get, remove, update, get-insert_self, get-remove, get-remove_self, get-update}
use rcdesk.Registry.{Inner, HostEntry, PinMap, SessionEntry, SessionMap, Instant, Tx}
use rcdesk.Registry.Draws.{Draws, Ensures, >>=-Ensures}
use rcdesk.Registry.Hosts.{
  Displaced, register_host, unregister_host, is_current_host, displace, reattached, reattaches,
  forget_pin, close_owned, owns_session,
}
use rcdesk.Registry.Pins.{unique_pin}
use rcdesk.Registry.Invariant.{IsConsistent}
use rcdesk.Registry.Invariant.Table.{
  NotHosting, insert-SameBut, close_owned-NotHosting, close_owned_rest,
}
use rcdesk.Registry.Invariant.Pins.{unique_pin_fresh}

displaced_tx :
    (h : String) (b : Bool) (o : Option HostEntry) (ss : SessionMap)
    → Option.map (λ d. d.host_tx) (displace h b o ss).0 ≡ Option.map (λ e. e.tx) o
unfolding displace
displaced_tx h b none ss = refl
displaced_tx h true (some e) ss = refl
displaced_tx h false (some e) ss = refl

forget_pin-none :
    (pin : String) (o : Option HostEntry) (pins : PinMap)
    → get pin pins ≡ none
    → get pin (forget_pin o pins) ≡ none
unfolding forget_pin
forget_pin-none pin none pins q = q
forget_pin-none pin (some e) pins q = ground (arith, get-remove pin e.pin pins)

-- The new host's entry under its PIN, the other hosts, and whom the registration displaces.
abbrev pub Registered :
    Inner
    → String
    → String
    → Tx
    → Option String
    → Bool
    → Instant
    → String
    → Option Displaced
    → Inner
    → Type 0
Registered r h name tx sid? rotation now pin displaced r' =
    (get h r'.hosts
      ≡ some (record {
        name = name;
        pin = pin;
        tx = tx;
        session_id = sid?;
        pin_issued_at = now;
        pin_rotation = rotation;
      }))
    × (get pin r'.pin_to_host ≡ some h)
    × ((j : String) → j ≢ h → get j r'.hosts ≡ get j r.hosts)
    × (Option.map (λ d. d.host_tx) displaced ≡ Option.map (λ e. e.tx) (get h r.hosts))

-- A registration that ends puts the host in place of whatever was registered under its id, with a
-- PIN that leads to it, leaves every other host's entry alone, and names the connection that it
-- displaced, exactly if there was one. It does not panic.
pub register_host-Registered :
    (r : Inner) (h name : String) (tx : Tx) (sid? : Option String) (rotation : Bool) (now : Instant)
    (ds : Draws)
    → Ensures
        (λ out. Registered r h name tx sid? rotation now out.0.0 out.0.1 out.1)
        (register_host r h name tx sid? rotation now ds)
unfolding register_host
register_host-Registered r h name tx sid? rotation now ds =
    >>=-Ensures _ _ (unique_pin (forget_pin (get h r.hosts) r.pin_to_host) ds) _
      (unique_pin_fresh _ ds)
      λ (pin, rest) free. (
        get-insert_self h _ (remove h r.hosts),
        get-insert_self pin h (forget_pin (get h r.hosts) r.pin_to_host),
        insert-SameBut h _ r.hosts,
        displaced_tx h (reattaches h sid? r.sessions) (get h r.hosts) _,
      )

owns_session-false :
    (h sid : String) (s : SessionEntry) (ss : SessionMap)
    → get sid ss ≡ some s
    → s.host_id ≢ h
    → owns_session h sid ss ≡ false
unfolding owns_session
owns_session-false h sid s ss q ne = ground (arith, ==_iff s.host_id h)

owns_session-true :
    (h sid : String) (s : SessionEntry) (ss : SessionMap)
    → get sid ss ≡ some s
    → s.host_id ≡ h
    → owns_session h sid ss ≡ true
unfolding owns_session
owns_session-true h sid s ss q same = ground (arith, ==_iff s.host_id h)

close_owned_foreign :
    (h sid : String) (s : SessionEntry) (o : Option String) (ss : SessionMap)
    → get sid ss ≡ some s
    → s.host_id ≢ h
    → get sid (close_owned h o ss).1 ≡ some s
unfolding close_owned
close_owned_foreign h sid s none ss q ne = q
close_owned_foreign h sid s (some i) ss q ne = ground (
  arith,
  close_owned_rest h i ss,
  get-remove sid i ss,
  owns_session-false h sid s ss q ne,
  ==_iff i sid,
)

displace_foreign :
    (h sid : String) (s : SessionEntry) (b : Bool) (o : Option HostEntry) (ss : SessionMap)
    → get sid ss ≡ some s
    → s.host_id ≢ h
    → get sid (displace h b o ss).1 ≡ some s
unfolding displace
displace_foreign h sid s b none ss q ne = q
displace_foreign h sid s true (some e) ss q ne = q
displace_foreign h sid s false (some e) ss q ne = close_owned_foreign h sid s e.session_id ss q ne

reattached_foreign :
    (h sid : String) (s : SessionEntry) (o : Option String) (tx : Tx) (ss : SessionMap)
    → get sid ss ≡ some s
    → s.host_id ≢ h
    → get sid (reattached h o tx ss) ≡ some s
unfolding reattached
reattached_foreign h sid s none tx ss q ne = q
reattached_foreign h sid s (some i) tx ss q ne = ground (
  arith,
  get-update sid i (λ s. record s { host_tx = tx }) ss,
  owns_session-false h sid s ss q ne,
  ==_iff i sid,
)

-- Whatever session id a host claims when it registers, another host's session stays as it is.
pub register_host_foreign :
    (r : Inner) (h name : String) (tx : Tx) (sid? : Option String) (rotation : Bool) (now : Instant)
    (ds : Draws) (sid : String) (s : SessionEntry)
    → get sid r.sessions ≡ some s
    → s.host_id ≢ h
    → Ensures
        (λ out. get sid out.1.sessions ≡ some s)
        (register_host r h name tx sid? rotation now ds)
unfolding register_host
register_host_foreign r h name tx sid? rotation now ds sid s q ne =
    >>=-Ensures _ _ (unique_pin (forget_pin (get h r.hosts) r.pin_to_host) ds) _
      (unique_pin_fresh _ ds)
      λ (pin, rest) free.
        displace_foreign h sid s _ (get h r.hosts) _
          (reattached_foreign h sid s sid? tx r.sessions q ne) ne

displace_reattached :
    (h : String) (o : Option HostEntry) (ss : SessionMap)
    → ((displace h true o ss).1 ≡ ss)
      × (Option.map (λ d. d.session) (displace h true o ss).0 ≡ Option.map (λ _. none) o)
unfolding displace
displace_reattached h none ss = (refl, refl)
displace_reattached h (some e) ss = (refl, refl)

-- A host that comes back reporting a session of its own keeps it, under the new connection, and no
-- session is given as lost.
pub register_host_reattached :
    (r : Inner) (h name : String) (tx : Tx) (rotation : Bool) (now : Instant) (ds : Draws)
    (sid : String) (s : SessionEntry)
    → get sid r.sessions ≡ some s
    → s.host_id ≡ h
    → Ensures
        (λ out.
          (get sid out.1.sessions ≡ some (record s { host_tx = tx }))
          × (Option.map (λ d. d.session) out.0.1 ≡ Option.map (λ _. none) (get h r.hosts)))
        (register_host r h name tx (some sid) rotation now ds)
unfolding register_host
register_host_reattached r h name tx rotation now ds sid s q same =
    >>=-Ensures _ _ (unique_pin (forget_pin (get h r.hosts) r.pin_to_host) ds) _
      (unique_pin_fresh _ ds)
      λ (pin, rest) free. rw (owns_session-true h sid s r.sessions q same) (
        ap (get sid) (displace_reattached h (get h r.hosts) _).0 ∙ moved,
        (displace_reattached h (get h r.hosts) _).1,
      )
  where
    moved :
        get sid (update sid (λ s. record s { host_tx = tx }) r.sessions)
        ≡ some (record s { host_tx = tx })
    moved = rw (get-update, ==_self sid, q) refl

-- The host's entry is gone, and with it its PIN and its session.
abbrev pub Gone : Inner → String → Tx → Inner → Type 0
Gone r h tx r' =
    (e : HostEntry) × (get h r.hosts ≡ some e)
    × (e.tx ≡ tx)
    × (get h r'.hosts ≡ none)
    × (get e.pin r'.pin_to_host ≡ none)
    × NotHosting h r'.sessions

-- The close of a connection that a later registration displaced changes nothing. The close of the
-- current one removes the host, its PIN and its session.
pub unregister_host_lem :
    {r : Inner} (h : String) (tx : Tx)
    → IsConsistent r
    → ((is_current_host r h tx ≡ false) × (unregister_host r h tx ≡ (none, r)))
      ⊎ ((is_current_host r h tx ≡ true) × Gone r h tx (unregister_host r h tx).1)
unfolding unregister_host is_current_host
unregister_host_lem {r} h tx v = elim (Option-cases (get h r.hosts)) [
  | inl a ↦ inl (rw (a, is_current_host), rw (a, unregister_host))
  | inr (e, found) ↦ elim (Bool-cases (e.tx == tx)) [
    | inr f ↦ inl (rw (found, is_current_host) f, rw (found, unregister_host, f))
    | inl t ↦ inr (
      rw (found, is_current_host) t,
      rw (found, unregister_host, t)
          (
            e,
            refl,
            (==_iff e.tx tx).0 t,
            get-remove_self h r.hosts,
            get-remove_self e.pin r.pin_to_host,
            close_owned-NotHosting v.sessions_match h e e.session_id found refl,
          ),
    )
  ]
]
