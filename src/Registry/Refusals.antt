-- ===== src/Registry/Refusals.antt =====
-- server/src/registry.rs, `join`: why a join by PIN is refused.
use rcdesk.Common.{
  string_test, nat_test, String, none, some, true, false, ◌≡◌, ◌≤◌, ◌<◌, ◌⊎◌, refl, arith,
  Option-cases, Bool-cases, inl, inr,
}
use rcdesk.Assoc.{get}
use rcdesk.Registry.{
  Inner, HostEntry, Tx, Instant, Duration, unknown_pin, host_busy, host_offline, already_in_session,
  since,
}
use rcdesk.Registry.Draws.{Draws, Ensures, >>=-Ensures, Ensures-both}
use rcdesk.Registry.Hosts.{host_presence}
use rcdesk.Registry.Pins.{pin_expired}
use rcdesk.Registry.Join.{
  Result, ok, err, Joined, PinJoined, in_session, join_by_host_id, resolve_pin, rotate_after_join,
  finish_join, join, hide_offline,
}
use rcdesk.Registry.Invariant.{IsConsistent}
use rcdesk.Registry.Invariant.Join.{join_by_host_id-IsConsistent, rotate_after_join-IsConsistent}
use rcdesk.Registry.Admission.{Answer, join_by_host_id-Answer}

-- The PIN leads to this registered host, and its age is no matter or small enough.
abbrev pub IsLive : Inner → String → Duration → Instant → String → HostEntry → Type 0
IsLive r pin ttl now h e =
    (get pin r.pin_to_host ≡ some h)
    × (get h r.hosts ≡ some e)
    × ((e.pin_rotation ≡ false) ⊎ (since now e.pin_issued_at < ttl))

-- The PIN leads nowhere, or its host rotates PINs and this one has outlived `pin_ttl`.
abbrev pub IsStale : Inner → String → Duration → Instant → Type 0
IsStale r pin ttl now =
    (get pin r.pin_to_host ≡ none)
    ⊎ ((h : String) × (e : HostEntry) × (get pin r.pin_to_host ≡ some h)
        × (get h r.hosts ≡ some e)
        × (e.pin_rotation ≡ true)
        × (ttl ≤ since now e.pin_issued_at))

-- What each answer to a join by PIN says of the registry before, and that a refusal changes nothing.
abbrev pub Caused : Inner → String → Tx → Duration → Instant → Result PinJoined → Inner → Type 0
Caused r pin client ttl now (err unknown_pin) r' = IsStale r pin ttl now × (r' ≡ r)
Caused r pin client ttl now (err host_offline) r' = ⊥
Caused r pin client ttl now (err already_in_session) r' =
    (h : String) × (e : HostEntry) × IsLive r pin ttl now h e
    × (in_session client r.sessions ≡ true)
    × (r' ≡ r)
Caused r pin client ttl now (err host_busy) r' =
    (h : String) × (e : HostEntry) × IsLive r pin ttl now h e
    × (host_presence r h ≡ some true)
    × (in_session client r.sessions ≡ false)
    × (r' ≡ r)
Caused r pin client ttl now (ok (sid, h, name, tx, new_pin)) r' =
    (e : HostEntry) × IsLive r pin ttl now h e
    × (e.session_id ≡ none)
    × (in_session client r.sessions ≡ false)

module _ {r : Inner} (v : IsConsistent r) (pin : String) (client : Tx) (ttl : Duration)
    (now : Instant) where
  finished_join-Caused :
      (h : String) (e : HostEntry) (answer : Result Joined) (r' : Inner) (ds : Draws)
      → IsLive r pin ttl now h e
      → Answer r h client answer r'
      → IsConsistent r'
      → Ensures
          (λ out. Caused r pin client ttl now out.0 out.1)
          (finish_join h now (answer, r', ds))
  unfolding finish_join hide_offline
  finished_join-Caused h e (err unknown_pin) r' ds l a v' = absurd a
  finished_join-Caused h e (err host_offline) r' ds (named, found, age) a v' = absurd (ground arith)
  finished_join-Caused h e (err already_in_session) r' ds l a v' = (h, e, l, a.0, a.1)
  finished_join-Caused h e (err host_busy) r' ds l a v' = (h, e, l, a.0, a.1, a.2)
  finished_join-Caused h e (ok (sid, name, tx)) r' ds (named, found, age) a v' =
      let (e', found', _, _, free, out, _, _) = a in
      let alike : e' ≡ e = ground arith in
      >>=-Ensures _ _ (rotate_after_join r' h tx now ds) _
        (rotate_after_join-IsConsistent h tx now ds v')
        λ (new_pin, r'', rest) w. (e, (named, found, age), ground arith, out)

  resolved :
      (h : String) (e : HostEntry)
      → get pin r.pin_to_host ≡ some h
      → get h r.hosts ≡ some e
      → (IsStale r pin ttl now × (resolve_pin r pin ttl now ≡ err unknown_pin))
        ⊎ (IsLive r pin ttl now h e × (resolve_pin r pin ttl now ≡ ok h))
  unfolding resolve_pin pin_expired
  resolved h e named found = elim (Bool-cases (pin_expired now ttl e)) [
    | inl old ↦ inl (
      inr (h, e, named, found, ground arith, ground arith),
      rw (named, resolve_pin, found) (rw old refl),
    )
    | inr young ↦ elim (Bool-cases e.pin_rotation) [
      | inl t ↦
          inr ((named, found, inr (ground arith)), rw (named, resolve_pin, found) (rw young refl))
      | inr f ↦ inr ((named, found, inl f), rw (named, resolve_pin, found) (rw young refl))
    ]
  ]

  -- In a consistent registry, a join by PIN is refused only for the reason that it names, and then it
  -- changes nothing: `unknown pin` where no host has the PIN or it has outlived `pin_ttl` at a host
  -- that rotates its PINs, and, for a live PIN, `already in session` where the client has a session and
  -- `host busy` where it has none and the host has. It is admitted only by a live PIN, without a
  -- session, to a free host. It never answers `host offline` and does not panic.
  pub join-Caused :
      (ds : Draws)
      → Ensures (λ out. Caused r pin client ttl now out.0 out.1) (join r pin client ttl now ds)
  unfolding join
  join-Caused ds = elim (Option-cases (get pin r.pin_to_host)) [
    | inl a ↦
        let gone : resolve_pin r pin ttl now ≡ err unknown_pin = rw (a, resolve_pin) refl in
        rw (gone, join) (inl a, refl)
    | inr (h, named) ↦
        let (e, found, _) = v.pins_match.named pin h named in
        elim (resolved h e named found) [
          | inl (stale, gone) ↦ rw (gone, join) (stale, refl)
          | inr (live, there) ↦
              rw (there, join)
                (>>=-Ensures _ _ (join_by_host_id r h client ds) _
                  (Ensures-both _ _ (join_by_host_id r h client ds)
                    (join_by_host_id-Answer r h client ds)
                    (join_by_host_id-IsConsistent h client ds v))
                  λ (answer, r', rest) (a, v'). finished_join-Caused h e answer r' rest live a v')
        ]
  ]
