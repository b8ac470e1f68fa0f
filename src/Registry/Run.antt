-- ===== src/Registry/Run.antt =====
-- server/src/registry.rs, every history: the critical sections in any order. A `join` by PIN is
-- three of them, and other calls may come between.
use rcdesk.Common.{
  string_test, String, List, Option, none, some, Bool, ◌≡◌, ℕ, ltb, Bool-cases, inl, inr,
}
use rcdesk.Assoc.{Assoc, get, contains_key, retain}
use rcdesk.Registry.{Inner, Tx, Instant, Duration, empty, since}
use rcdesk.Registry.Draws.{Draws, Outcome, done, Ensures}
use rcdesk.Registry.Pins.{rotate_expired_pins}
use rcdesk.Registry.Hosts.{Displaced, register_host, unregister_host}
use rcdesk.Registry.Sessions.{
  close_session_by_host, close_session_by_client, disconnect_client, watch_owner,
}
use rcdesk.Registry.Join.{Result, Joined, join_by_host_id, rotate_after_join}
use rcdesk.Registry.Routers.{
  wake_attempt_allowed, router_polled, enqueue_router_wake, drain_router_wakes, forget_router,
}
use rcdesk.Registry.Invariant.{IsConsistent}
use rcdesk.Registry.Invariant.Hosts.{register_host-IsConsistent, unregister_host-IsConsistent}
use rcdesk.Registry.Invariant.Sessions.{
  close_session_by_host-IsConsistent, close_session_by_client-IsConsistent,
  disconnect_client-IsConsistent,
}
use rcdesk.Registry.Invariant.Join.{join_by_host_id-IsConsistent, rotate_after_join-IsConsistent}
use rcdesk.Registry.Invariant.Rotation.{rotate_expired_pins-IsConsistent}

pub data Step (r : Inner) : Inner → Type 0 where
  register :
      (h name : String) (tx : Tx) (sid? : Option String) (rotation : Bool) (now : Instant)
      (ds rest : Draws) {out : String × Option Displaced} {r' : Inner}
      → register_host r h name tx sid? rotation now ds ≡ done (out, r', rest)
      → Step r r'
  unregister : (h : String) (tx : Tx) → Step r (unregister_host r h tx).1
  join_host :
      (h : String) (client : Tx) (ds rest : Draws) {out : Result Joined} {r' : Inner}
      → join_by_host_id r h client ds ≡ done (out, r', rest)
      → Step r r'
  rotate_joined :
      (h : String) (tx : Tx) (now : Instant) (ds rest : Draws) {out : Option String} {r' : Inner}
      → rotate_after_join r h tx now ds ≡ done (out, r', rest)
      → Step r r'
  rotate_expired :
      (now : Instant) (ttl : Duration) (ds rest : Draws) {out : List (Tx × String)} {r' : Inner}
      → rotate_expired_pins r now ttl ds ≡ done (out, r', rest)
      → Step r r'
  close_by_host : (h sid : String) → Step r (close_session_by_host r h sid).1
  close_by_client : (sid : String) (client : Tx) → Step r (close_session_by_client r sid client).1
  disconnect : (client : Tx) → Step r (disconnect_client r client).1
  watch : (tx : Tx) (owner : Option String) → Step r (watch_owner r tx owner)
  wake :
      (device : String) (now : Instant) (pause : Duration)
      → Step r (wake_attempt_allowed r device now pause).1
  poll : (router : String) (now : Instant) (unix : ℕ) → Step r (router_polled r router now unix).1
  enqueue :
      (router : String) (macs : List String) (now : Instant)
      → Step r (enqueue_router_wake r router macs now)
  drain : (router : String) (now : Instant) → Step r (drain_router_wakes r router now).1
  forget : (router : String) → Step r (forget_router r router)

pub data Reach : Inner → Type 0 where
  start : Reach empty
  next : {r r' : Inner} → Reach r → Step r r' → Reach r'

-- What a finished outcome ensures.
pub of_done {ℓ} :
    {A : Type ℓ} (P : A → Type 0) (m : Outcome A) {a : A} → m ≡ done a → Ensures P m → P a
of_done P m q h = rw q at h

pub empty-IsConsistent : IsConsistent empty
unfolding get
empty-IsConsistent = record {
  pins_match = record { named = λ _ _ q. cc; listed = λ _ _ q. cc };
  sessions_match = record { held = λ _ _ q. cc; single = λ _ _ _ _ q. cc };
  hosts_unique = tt;
  sessions_unique = tt;
}

-- The other fields do not matter.
same_core :
    {r : Inner} (watchers : List (Tx × String)) (wakes : Assoc String Instant)
    (polls : Assoc String (Instant × ℕ)) (queue : Assoc String (List (String × Instant)))
    → IsConsistent r
    → IsConsistent (record r {
      watchers = watchers;
      wake_attempts = wakes;
      router_polls = polls;
      router_queue = queue;
    })
same_core watchers wakes polls queue v = record {
  pins_match = v.pins_match;
  sessions_match = v.sessions_match;
  hosts_unique = v.hosts_unique;
  sessions_unique = v.sessions_unique;
}

wake-IsConsistent :
    {r : Inner} (device : String) (now : Instant) (pause : Duration)
    → IsConsistent r
    → IsConsistent (wake_attempt_allowed r device now pause).1
unfolding wake_attempt_allowed
wake-IsConsistent {r} device now pause v =
    elim (Bool-cases
      (contains_key device (retain (λ _ at. ltb (since now at) pause) r.wake_attempts))) [
        | inl t ↦ rw t (same_core r.watchers _ r.router_polls r.router_queue v)
        | inr f ↦ rw f (same_core r.watchers _ r.router_polls r.router_queue v)
      ]

Step-IsConsistent : {r r' : Inner} → Step r r' → IsConsistent r → IsConsistent r'
unfolding watch_owner router_polled enqueue_router_wake drain_router_wakes forget_router
Step-IsConsistent (register h name tx sid? rotation now ds rest q) v =
    of_done _ _ q (register_host-IsConsistent h name tx sid? rotation now ds v)
Step-IsConsistent (unregister h tx) v = unregister_host-IsConsistent h tx v
Step-IsConsistent (join_host h client ds rest q) v =
    of_done _ _ q (join_by_host_id-IsConsistent h client ds v)
Step-IsConsistent (rotate_joined h tx now ds rest q) v =
    of_done _ _ q (rotate_after_join-IsConsistent h tx now ds v)
Step-IsConsistent (rotate_expired now ttl ds rest q) v =
    of_done _ _ q (rotate_expired_pins-IsConsistent now ttl ds v)
Step-IsConsistent (close_by_host h sid) v = close_session_by_host-IsConsistent v h sid
Step-IsConsistent (close_by_client sid client) v = close_session_by_client-IsConsistent v sid client
Step-IsConsistent (disconnect client) v = disconnect_client-IsConsistent client v
Step-IsConsistent {r} (watch tx none) v =
    same_core _ r.wake_attempts r.router_polls r.router_queue v
Step-IsConsistent {r} (watch tx (some owner)) v =
    same_core _ r.wake_attempts r.router_polls r.router_queue v
Step-IsConsistent (wake device now pause) v = wake-IsConsistent device now pause v
Step-IsConsistent {r} (poll router now unix) v =
    same_core r.watchers r.wake_attempts _ r.router_queue v
Step-IsConsistent {r} (enqueue router macs now) v =
    same_core r.watchers r.wake_attempts r.router_polls _ v
Step-IsConsistent {r} (drain router now) v = same_core r.watchers r.wake_attempts r.router_polls _ v
Step-IsConsistent {r} (forget router) v = same_core r.watchers r.wake_attempts _ _ v

-- After any history of calls the PIN index and the hosts name each other, each session's host is
-- registered, in that session and on that connection, and a client is in one session at most.
pub Reach-IsConsistent : {r : Inner} → Reach r → IsConsistent r
Reach-IsConsistent start = empty-IsConsistent
Reach-IsConsistent (next h s) = Step-IsConsistent s (Reach-IsConsistent h)
