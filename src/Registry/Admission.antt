-- ===== src/Registry/Admission.antt =====
-- server/src/registry.rs, who gets a session: `join_by_host_id` and `join`.
use rcdesk.Common.{
  string_test, nat_test, String, Option, ◌==◌, none, some, true, false, ◌≡◌, ◌≢◌, ◌<◌, ◌⊎◌, refl,
  sym, ap, ◌∙◌, arith, ==_iff, ==_self, is_some, is_some-false, Option-cases, Bool-cases, inl, inr,
}
use rcdesk.Assoc.{get, remove, get-insert, get-insert_self, get-update, get-remove}
use rcdesk.Registry.{
  Inner, HostEntry, Tx, Instant, Duration, JoinError, unknown_pin, host_busy, host_offline,
  already_in_session, since,
}
use rcdesk.Registry.Draws.{Draws, Ensures, Ensures-map, >>=-Ensures, Ensures-both}
use rcdesk.Registry.Pins.{rotate_pin, put_pin}
use rcdesk.Registry.Hosts.{host_presence}
use rcdesk.Registry.Join.{
  Result, ok, err, Joined, PinJoined, unique_id, in_session, attach, join_by_host_id, resolve_pin,
  rotate_after_join, finish_join, join, hide_offline,
}
use rcdesk.Registry.Invariant.{IsConsistent}
use rcdesk.Registry.Invariant.Pins.{rotate_pin_lem}
use rcdesk.Registry.Invariant.Join.{unique_id_fresh, join_by_host_id-IsConsistent}

-- A session that the client is in, and its host busy with it: what the registry then says of any
-- session and any host, and that the PINs are as before.
abbrev pub Entered : Inner → String → HostEntry → Tx → String → String → String → Inner → Type 0
Entered r h e client sid i k r' =
    (get sid r'.sessions ≡ some (record { host_id = h; host_tx = e.tx; client_tx = client }))
    × (get h r'.hosts ≡ some (record e { session_id = some sid }))
    × ((i ≡ sid) ⊎ (get i r'.sessions ≡ get i r.sessions))
    × ((k ≡ h) ⊎ (get k r'.hosts ≡ get k r.hosts))
    × (r'.pin_to_host ≡ r.pin_to_host)

attach-Entered :
    (r : Inner) (h : String) (e : HostEntry) (client : Tx) (sid i k : String)
    → get h r.hosts ≡ some e
    → Entered r h e client sid i k (attach r h e client sid)
unfolding attach
attach-Entered r h e client sid i k found = (
  get-insert_self sid _ r.sessions,
  rw (get-update, ==_self h, found) refl,
  elim (Bool-cases (sid == i)) [
    | inl same ↦ inl (sym ((==_iff sid i).0 same))
    | inr off ↦ inr (rw (get-insert, off) refl)
  ],
  elim (Bool-cases (h == k)) [
    | inl same ↦ inl (sym ((==_iff h k).0 same))
    | inr off ↦ inr (rw (get-update, off) refl)
  ],
  refl,
)

-- What each answer says of the registry before, and what it does to it.
abbrev pub Answer : Inner → String → Tx → Result Joined → Inner → Type 0
Answer r h client (err unknown_pin) r' = ⊥
Answer r h client (err host_offline) r' = (get h r.hosts ≡ none) × (r' ≡ r)
Answer r h client (err already_in_session) r' = (in_session client r.sessions ≡ true) × (r' ≡ r)
Answer r h client (err host_busy) r' =
    (host_presence r h ≡ some true) × (in_session client r.sessions ≡ false) × (r' ≡ r)
Answer r h client (ok (sid, name, tx)) r' =
    (e : HostEntry) × (get h r.hosts ≡ some e)
    × (e.name ≡ name)
    × (e.tx ≡ tx)
    × (e.session_id ≡ none)
    × (in_session client r.sessions ≡ false)
    × (get sid r.sessions ≡ none)
    × (r' ≡ attach r h e client sid)

pub join_by_host_id-Answer :
    (r : Inner) (h : String) (client : Tx) (ds : Draws)
    → Ensures (λ out. Answer r h client out.0 out.1) (join_by_host_id r h client ds)
unfolding join_by_host_id host_presence
join_by_host_id-Answer r h client ds = elim (Option-cases (get h r.hosts)) [
  | inl a ↦ rw (a, join_by_host_id) (a, refl)
  | inr (e, found) ↦ elim (Bool-cases (in_session client r.sessions)) [
    | inl t ↦ rw (found, join_by_host_id, t) (t, refl)
    | inr out ↦ elim (Bool-cases (is_some e.session_id)) [
      | inl t ↦ rw (found, join_by_host_id, out, t) (rw found (ap some t), out, refl)
      | inr free ↦
          rw (found, join_by_host_id, out, free)
            (>>=-Ensures _ _ (unique_id r.sessions ds) _ (unique_id_fresh r.sessions ds)
              (λ (sid, rest) fresh. (e, found, refl, refl, is_some-false _ free, out, fresh, refl)))
    ]
  ]
]

-- What an answer says, of any session i and any host k.
abbrev pub Observed : Inner → String → Tx → String → String → Result Joined → Inner → Type 0
Observed r h client i k (err e) r' = Answer r h client (err e) r'
Observed r h client i k (ok (sid, name, tx)) r' =
    (e : HostEntry) × (get h r.hosts ≡ some e)
    × (e.name ≡ name)
    × (e.tx ≡ tx)
    × (e.session_id ≡ none)
    × (in_session client r.sessions ≡ false)
    × (get sid r.sessions ≡ none)
    × Entered r h e client sid i k r'

Answer-Observed :
    (r : Inner) (h : String) (client : Tx) (i k : String) (answer : Result Joined) (r' : Inner)
    → Answer r h client answer r'
    → Observed r h client i k answer r'
Answer-Observed r h client i k (err e) r' a = a
Answer-Observed r h client i k (ok (sid, name, tx)) r'
      (e, found, named, by, free, out, fresh, same) =
    (e, found, named, by, free, out, fresh, rw same (attach-Entered r h e client sid i k found))

-- `join_by_host_id` refuses for the reason that it names, and then changes nothing. It admits a
-- client that has no session to a free host, under an id that no session has. Then the registry has
-- that session, of the host's connection and the client's, the host is busy with it, and any other
-- session, any other host and the PINs are as before. It does not panic.
pub join_by_host_id_lem :
    (r : Inner) (h : String) (client : Tx) (ds : Draws) (i k : String)
    → Ensures (λ out. Observed r h client i k out.0 out.1) (join_by_host_id r h client ds)
join_by_host_id_lem r h client ds i k =
    Ensures-map _ _ (join_by_host_id r h client ds)
      (λ out a. Answer-Observed r h client i k out.0 out.1 a) (join_by_host_id-Answer r h client ds)

attach_host :
    (r : Inner) (h : String) (e : HostEntry) (client : Tx) (sid : String)
    → get h r.hosts ≡ some e
    → get h (attach r h e client sid).hosts ≡ some (record e { session_id = some sid })
unfolding attach
attach_host r h e client sid found = rw (get-update, ==_self h, found) refl

attach_pins :
    (r : Inner) (h : String) (e : HostEntry) (client : Tx) (sid : String)
    → (attach r h e client sid).pin_to_host ≡ r.pin_to_host
unfolding attach
attach_pins r h e client sid = refl

-- After a join by PIN at a host that rotates PINs: a refusal changed nothing. Otherwise the PIN is
-- spent, the host has another one, and it is busy.
abbrev pub Spent : Inner → String → String → Result PinJoined → Inner → Type 0
Spent r pin h (err e) r' = (e ≢ host_offline) × (r' ≡ r)
Spent r pin h (ok (sid, h', name, tx, new_pin)) r' =
    (h' ≡ h)
    × (p : String) × (new_pin ≡ some p)
    × (get pin r'.pin_to_host ≡ none)
    × (get p r'.pin_to_host ≡ some h)
    × (host_presence r' h ≡ some true)

hide_offline_ne : (e : JoinError) → hide_offline e ≢ host_offline
unfolding hide_offline
hide_offline_ne unknown_pin q = cc
hide_offline_ne host_busy q = cc
hide_offline_ne host_offline q = cc
hide_offline_ne already_in_session q = cc

spent_pin :
    {r : Inner} (v : IsConsistent r) (pin p h : String) (e : HostEntry) (now : Instant)
    → get pin r.pin_to_host ≡ some h
    → get h r.hosts ≡ some e
    → e.session_id ≢ none
    → get p r.pin_to_host ≡ none
    → (get pin (put_pin r h e p now).pin_to_host ≡ none)
      × (get p (put_pin r h e p now).pin_to_host ≡ some h)
      × (host_presence (put_pin r h e p now) h ≡ some true)
unfolding put_pin host_presence
spent_pin {r} v pin p h e now live found busy fresh =
    let (e', a, b) = v.pins_match.named pin h live in
    (
      ground (
        arith,
        get-insert pin p h (remove e.pin r.pin_to_host),
        get-remove pin e.pin r.pin_to_host,
        ==_iff p pin,
        ==_iff e.pin pin,
      ),
      get-insert_self p h _,
      rw (get-update, ==_self h, found) (busy_host e.session_id busy),
    )
  where
    busy_host : (o : Option String) → o ≢ none → some (is_some o) ≡ some true
    busy_host none ne = absurd (ne refl)
    busy_host (some i) ne = refl

resolve_pin_live :
    (r : Inner) (pin h : String) (e : HostEntry) (ttl : Duration) (now : Instant)
    → get pin r.pin_to_host ≡ some h
    → get h r.hosts ≡ some e
    → since now e.pin_issued_at < ttl
    → resolve_pin r pin ttl now ≡ ok h
unfolding resolve_pin
resolve_pin_live r pin h e ttl now live found young = rw (live, resolve_pin, found) (ground arith)

module _ {r : Inner} (v : IsConsistent r) (pin h : String) (e : HostEntry)
    (live : get pin r.pin_to_host ≡ some h) (found : get h r.hosts ≡ some e)
    (rotates : e.pin_rotation ≡ true) where
  rotated_after_join :
      {r' : Inner} (v' : IsConsistent r') (client : Tx) (sid : String) (now : Instant) (ds : Draws)
      → r' ≡ attach r h e client sid
      → Ensures
          (λ out.
            (p : String) × (out.0 ≡ some p)
            × (get pin out.1.pin_to_host ≡ none)
            × (get p out.1.pin_to_host ≡ some h)
            × (host_presence out.1 h ≡ some true))
          (rotate_after_join r' h e.tx now ds)
  unfolding rotate_after_join
  rotated_after_join {r'} v' client sid now ds same =
      rw (found', rotate_after_join, rotates, ==_self e.tx)
        (>>=-Ensures _ _ (rotate_pin r' h now ds) _ (rotate_pin_lem v' h busy found' now ds)
          λ (p, r'', rest) (fresh, written).
            let (a, b, c) = spent_pin v' pin p h busy now live' found' (λ q. cc) fresh in
            (p, refl, rw written a, rw written b, rw written c))
    where
      busy : HostEntry
      busy = record e { session_id = some sid }

      found' : get h r'.hosts ≡ some busy
      found' = rw same (attach_host r h e client sid found)

      live' : get pin r'.pin_to_host ≡ some h
      live' = rw (same, attach_pins r h e client sid) live

  finished_join :
      (client : Tx) (now : Instant) (answer : Result Joined) (r' : Inner) (ds : Draws)
      → Answer r h client answer r'
      → IsConsistent r'
      → Ensures (λ out. Spent r pin h out.0 out.1) (finish_join h now (answer, r', ds))
  unfolding finish_join
  finished_join client now (err unknown_pin) r' ds a v' = absurd a
  finished_join client now (err host_offline) r' ds a v' = (hide_offline_ne host_offline, a.1)
  finished_join client now (err already_in_session) r' ds a v' =
      (hide_offline_ne already_in_session, a.1)
  finished_join client now (err host_busy) r' ds a v' = (hide_offline_ne host_busy, a.2)
  finished_join client now (ok (sid, name, tx)) r' ds a v' =
      let (e', found', named, by, free, out, fresh, same) = a in
      let alike : e' ≡ e = ground arith in
      let same' : r' ≡ attach r h e client sid =
        same ∙ ap (λ (e : HostEntry). attach r h e client sid) alike in
      let tx' : tx ≡ e.tx = sym by ∙ ap (λ (e : HostEntry). e.tx) alike in
      rw tx' (
        >>=-Ensures _ _ (rotate_after_join r' h e.tx now ds) _
          (rotated_after_join v' client sid now ds same')
          λ (new_pin, r'', rest) (p, q, b, c, d). (refl, p, q, b, c, d))

  -- A join by a live PIN at a host that rotates its PINs changes nothing where it refuses. Where it
  -- admits, the host is busy, that PIN leads nowhere any more, and the host has the new one that
  -- the answer holds. It does not panic.
  pub join_spends_pin :
      (client : Tx) (ttl : Duration) (now : Instant) (ds : Draws)
      → since now e.pin_issued_at < ttl
      → Ensures (λ out. Spent r pin h out.0 out.1) (join r pin client ttl now ds)
  unfolding join
  join_spends_pin client ttl now ds young =
      rw (resolve_pin_live r pin h e ttl now live found young, join)
        (>>=-Ensures _ _ (join_by_host_id r h client ds) _
          (Ensures-both _ _ (join_by_host_id r h client ds) (join_by_host_id-Answer r h client ds)
            (join_by_host_id-IsConsistent h client ds v))
          λ (answer, r', rest) (a, v'). finished_join client now answer r' rest a v')
