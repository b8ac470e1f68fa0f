-- ===== src/Tests/States.antt =====
-- Registries of server/src/registry.rs that the tests use.
use rcdesk.Common.{string_test, nat_test, ℕ, String, List, [], ◌∷◌, none, some, true, refl}
use rcdesk.Assoc.{get, insert, remove, update, contains_key}
use rcdesk.Registry.{Inner, HostEntry, SessionEntry, empty}
use rcdesk.Registry.Draws.{random_pin, random_id}
use rcdesk.Registry.Hosts.{register_host}
use rcdesk.Registry.Join.{join_by_host_id, ok}
use rcdesk.Registry.Invariant.{IsConsistent}
use rcdesk.Registry.Run.{Reach, start, next, register, join_host, Reach-IsConsistent}

abbrev pub pin_draw : List ℕ
pin_draw = 1 ∷ 2 ∷ 3 ∷ 4 ∷ 5 ∷ 6 ∷ []

abbrev pub next_draw : List ℕ
next_draw = 0 ∷ 0 ∷ 0 ∷ 0 ∷ 0 ∷ 7 ∷ []

abbrev pub id_draw : List ℕ
id_draw = 0 ∷ 1 ∷ 2 ∷ 3 ∷ 0 ∷ 0 ∷ 0 ∷ 0 ∷ 0 ∷ 0 ∷ 0 ∷ 0 ∷ 0 ∷ 0 ∷ 0 ∷ 35 ∷ []

-- A host that rotates its PINs, on connection 1, since time 100.
abbrev pub desk : HostEntry
desk = record {
  name = "desk";
  pin = "123456";
  tx = 1;
  session_id = none;
  pin_issued_at = 100;
  pin_rotation = true;
}

abbrev pub one : Inner
one = record empty { hosts = ("d1", desk) ∷ []; pin_to_host = ("123456", "d1") ∷ [] }

-- Client 7 is in a session with it.
abbrev pub session : SessionEntry
session = record { host_id = "d1"; host_tx = 1; client_tx = 7 }

abbrev pub sid : String
sid = "abcdaaaaaaaaaaa9"

abbrev pub two : Inner
two = record one {
  hosts = ("d1", record desk { session_id = some sid }) ∷ [];
  sessions = (sid, session) ∷ [];
}

pub one-Reach : Reach one
unfolding register_host get remove insert contains_key random_pin
one-Reach =
    next start
      (register "d1" "desk" 1 none true 100 (pin_draw ∷ []) [] {out = ("123456", none)} refl)

pub two-Reach : Reach two
unfolding join_by_host_id get remove insert update contains_key random_id
two-Reach = next one-Reach (join_host "d1" 7 (id_draw ∷ []) [] {out = ok (sid, "desk", 1)} refl)

pub one-IsConsistent : IsConsistent one
one-IsConsistent = Reach-IsConsistent one-Reach

pub two-IsConsistent : IsConsistent two
two-IsConsistent = Reach-IsConsistent two-Reach
