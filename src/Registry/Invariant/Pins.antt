-- ===== src/Registry/Invariant/Pins.antt =====
-- server/src/registry.rs, `unique_pin`, `rotate_pin` and `rotate_expired_pins`: fresh PINs, and the
-- invariant.
use rcdesk.Common.{
  string_test, String, [], ◌∷◌, none, some, ◌≡◌, refl, ◌∙◌, arith, ◌==◌, Option-cases, Bool-cases,
  inl, inr,
}
use rcdesk.Assoc.{get, update, get-update, update-Unique}
use rcdesk.Registry.{Inner, HostEntry, HostMap, PinMap, SessionMap, Instant}
use rcdesk.Registry.Draws.{Draws, Ensures, >>=-Ensures, Ensures-map, random_pin}
use rcdesk.Registry.Pins.{unique_pin, rotate_pin, put_pin}
use rcdesk.Registry.Invariant.{SessionsMatch, IsConsistent}
use rcdesk.Registry.Invariant.Index.{put_pin-PinsMatch}

pub unique_pin_fresh :
    (pins : PinMap) (ds : Draws) → Ensures (λ out. get out.0 pins ≡ none) (unique_pin pins ds)
unfolding unique_pin
unique_pin_fresh pins [] = tt
unique_pin_fresh pins (d ∷ ds) = elim (Option-cases (get (random_pin d) pins)) [
  | inl free ↦ rw free free
  | inr (h, used) ↦ rw used (unique_pin_fresh pins ds)
]

-- A write to one host that keeps its session and its connection.
pub update-SessionsMatch :
    {hosts : HostMap} {ss : SessionMap} (h : String) (f : HostEntry → HostEntry)
    → ((e : HostEntry) → ((f e).session_id ≡ e.session_id) × ((f e).tx ≡ e.tx))
    → SessionsMatch hosts ss
    → SessionsMatch (update h f hosts) ss
update-SessionsMatch {hosts} h f same v = record {
  held = λ sid s q.
      let (e, a, b, c) = v.held sid s q in
      elim (Bool-cases (h == s.host_id)) [
        | inl t ↦
            (f e, ground (arith, get-update s.host_id h f hosts), (same e).0 ∙ b, (same e).1 ∙ c)
        | inr n ↦ (e, ground (arith, get-update s.host_id h f hosts), b, c)
      ];
  single = v.single;
}

module _ {r : Inner} (v : IsConsistent r) (h : String) (e : HostEntry)
    (found : get h r.hosts ≡ some e) where
  pub put_pin-IsConsistent :
      (pin : String) (now : Instant)
      → get pin r.pin_to_host ≡ none
      → IsConsistent (put_pin r h e pin now)
  unfolding put_pin
  put_pin-IsConsistent pin now free = record {
    pins_match = put_pin-PinsMatch v.pins_match h e pin set_pin found free (λ _. refl);
    sessions_match = update-SessionsMatch h set_pin (λ _. (refl, refl)) v.sessions_match;
    hosts_unique = update-Unique h set_pin r.hosts v.hosts_unique;
    sessions_unique = v.sessions_unique;
  }
    where
      set_pin : HostEntry → HostEntry
      set_pin host = record host { pin = pin; pin_issued_at = now }

  -- What `rotate_pin` ends with: the state that `put_pin` writes, with a PIN that no host had.
  pub rotate_pin_lem :
      (now : Instant) (ds : Draws)
      → Ensures
          (λ out. (get out.0 r.pin_to_host ≡ none) × (out.1 ≡ put_pin r h e out.0 now))
          (rotate_pin r h now ds)
  unfolding rotate_pin
  rotate_pin_lem now ds =
      >>=-Ensures (λ out. get out.0 r.pin_to_host ≡ none) _ (unique_pin r.pin_to_host ds) _
        (unique_pin_fresh r.pin_to_host ds) (λ (p, rest) free. rw found (free, refl))

  pub rotate_pin-IsConsistent :
      (now : Instant) (ds : Draws) → Ensures (λ out. IsConsistent out.1) (rotate_pin r h now ds)
  rotate_pin-IsConsistent now ds =
      Ensures-map _ _ (rotate_pin r h now ds)
        (λ (pin, r', rest) (free, same). rw same (put_pin-IsConsistent pin now free))
        (rotate_pin_lem now ds)
