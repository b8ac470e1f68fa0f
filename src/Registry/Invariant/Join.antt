-- ===== src/Registry/Invariant/Join.antt =====
-- server/src/registry.rs, `join_by_host_id` and `join`: the invariant.
use rcdesk.Common.{
  string_test, nat_test, ◌==◌, String, [], ◌∷◌, none, some, false, ◌&&◌, ◌≡◌, ◌≢◌, refl, arith,
  ==_iff, is_some, is_some-false, Option-cases, Bool-cases, inl, inr,
}
use rcdesk.Assoc.{get, insert-Unique, update-Unique}
use rcdesk.Registry.{Inner, HostEntry, SessionEntry, SessionMap, Tx, Instant, Duration}
use rcdesk.Registry.Draws.{Draws, done, ◌>>=◌, Ensures, >>=-Ensures, random_id}
use rcdesk.Registry.Pins.{rotate_pin}
use rcdesk.Registry.Join.{
  Result, ok, err, Joined, unique_id, in_session, attach, join_by_host_id, resolve_pin,
  rotate_after_join, finish_join, join,
}
use rcdesk.Registry.Invariant.{IsConsistent}
use rcdesk.Registry.Invariant.Index.{update-PinsMatch}
use rcdesk.Registry.Invariant.Table.{attach-SessionsMatch}
use rcdesk.Registry.Invariant.Pins.{rotate_pin-IsConsistent}

pub unique_id_fresh :
    (ss : SessionMap) (ds : Draws) → Ensures (λ out. get out.0 ss ≡ none) (unique_id ss ds)
unfolding unique_id
unique_id_fresh ss [] = tt
unique_id_fresh ss (d ∷ ds) = elim (Option-cases (get (random_id d) ss)) [
  | inl free ↦ rw free free
  | inr (s, used) ↦ rw used (unique_id_fresh ss ds)
]

-- The test of `join_by_host_id` finds every session of the client's connection.
pub in_session_complete :
    (client : Tx) (ss : SessionMap)
    → in_session client ss ≡ false
    → (sid : String) (s : SessionEntry) → get sid ss ≡ some s
    → s.client_tx ≢ client
unfolding in_session get
in_session_complete client [] out sid s q same = cc
in_session_complete client ((i, t) ∷ ss) out sid s q same = elim (Bool-cases (i == sid)) [
  | inl e ↦ ground (arith, ==_iff t.client_tx client)
  | inr n ↦ in_session_complete client ss (ground arith) sid s (ground arith) same
]

module _ {r : Inner} (v : IsConsistent r) (h : String) (e : HostEntry)
    (found : get h r.hosts ≡ some e) where
  attach-IsConsistent :
      (client : Tx) (sid : String)
      → in_session client r.sessions ≡ false
      → e.session_id ≡ none
      → get sid r.sessions ≡ none
      → IsConsistent (attach r h e client sid)
  unfolding attach
  attach-IsConsistent client sid out free fresh = record {
    pins_match = update-PinsMatch v.pins_match h _ (λ _. refl);
    sessions_match =
        attach-SessionsMatch v.sessions_match h e client sid found free fresh
          (in_session_complete client r.sessions out);
    hosts_unique = update-Unique h _ r.hosts v.hosts_unique;
    sessions_unique = insert-Unique sid _ r.sessions v.sessions_unique;
  }

pub join_by_host_id-IsConsistent :
    {r : Inner} (h : String) (client : Tx) (ds : Draws)
    → IsConsistent r
    → Ensures (λ out. IsConsistent out.1) (join_by_host_id r h client ds)
unfolding join_by_host_id
join_by_host_id-IsConsistent {r} h client ds v = elim (Option-cases (get h r.hosts)) [
  | inl a ↦ rw (a, join_by_host_id) v
  | inr (e, found) ↦ elim (Bool-cases (in_session client r.sessions)) [
    | inl t ↦ rw (found, join_by_host_id, t) v
    | inr out ↦ elim (Bool-cases (is_some e.session_id)) [
      | inl t ↦ rw (found, join_by_host_id, out, t) v
      | inr free ↦
          rw (found, join_by_host_id, out, free)
            (>>=-Ensures _ _ (unique_id r.sessions ds) _ (unique_id_fresh r.sessions ds)
              (λ (sid, rest) fresh.
                attach-IsConsistent v h e found client sid out (is_some-false _ free) fresh))
    ]
  ]
]

pub rotate_after_join-IsConsistent :
    {r : Inner} (h : String) (tx : Tx) (now : Instant) (ds : Draws)
    → IsConsistent r
    → Ensures (λ out. IsConsistent out.1) (rotate_after_join r h tx now ds)
unfolding rotate_after_join
rotate_after_join-IsConsistent {r} h tx now ds v = elim (Option-cases (get h r.hosts)) [
  | inl a ↦ rw (a, rotate_after_join) v
  | inr (e, found) ↦ elim (Bool-cases (e.pin_rotation && (e.tx == tx))) [
    | inr f ↦ rw (found, rotate_after_join, f) v
    | inl t ↦
        rw (found, rotate_after_join, t)
          (>>=-Ensures _ _ (rotate_pin r h now ds) _ (rotate_pin-IsConsistent v h e found now ds)
            (λ _ w. w))
  ]
]

finish_join-IsConsistent :
    (h : String) (now : Instant) (answer : Result Joined × Inner × Draws)
    → IsConsistent answer.1
    → Ensures (λ out. IsConsistent out.1) (finish_join h now answer)
unfolding finish_join
finish_join-IsConsistent h now (err e, r, ds) v = v
finish_join-IsConsistent h now (ok (sid, name, tx), r, ds) v =
    >>=-Ensures _ _ (rotate_after_join r h tx now ds) _
      (rotate_after_join-IsConsistent h tx now ds v) (λ _ w. w)

pub join-IsConsistent :
    {r : Inner} (pin : String) (client : Tx) (ttl : Duration) (now : Instant) (ds : Draws)
    → IsConsistent r
    → Ensures (λ out. IsConsistent out.1) (join r pin client ttl now ds)
unfolding join
join-IsConsistent {r} pin client ttl now ds v = resolved (resolve_pin r pin ttl now)
  where
    resolved :
        (answer : Result String)
        → Ensures
            (λ out. IsConsistent out.1)
            (elim answer [
              | err e ↦ done (err e, r, ds)
              | ok h ↦ join_by_host_id r h client ds >>= finish_join h now
            ])
    resolved (err e) = v
    resolved (ok h) =
        >>=-Ensures _ _ (join_by_host_id r h client ds) _
          (join_by_host_id-IsConsistent h client ds v) (finish_join-IsConsistent h now)
