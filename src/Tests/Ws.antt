-- ===== src/Tests/Ws.antt =====
-- server/src/ws.rs, over a registry with one session.
use rcdesk.Common.{
  ℕ, ◌+◌, ◌-◌, ◌*◌, ◌≤◌, String, none, some, false, List, [], ◌∷◌, ◌≡◌, refl, arith, string_test,
  nat_test,
}
use rcdesk.Assoc.{get, insert}
use rcdesk.Registry.{Inner, nanos_per_sec}
use rcdesk.Registry.Join.{join}
use rcdesk.Registry.Hosts.{is_current_host}
use rcdesk.Registry.Sessions.{peer_tx_for_host, attached}
use rcdesk.Registry.Invariant.{IsConsistent}
use rcdesk.IpLimit.{v4, new, new_global, check_at, check_global, spend_at, spend_global}
use rcdesk.Ws.{offer, session_stats, IceServer, display_unavailable}
use rcdesk.Ws.Budget.{MessageBudget}
use rcdesk.Ws.Host.{Arrival, host_session}
use rcdesk.Ws.Client.{
  Server, Ensured, on_join, pin_burst, pin_refill, pin_global_burst, pin_global_refill,
}
use rcdesk.Ws.Laws.Ends.{Exchange, HostEnds, ClientEnds, session_runs}
use rcdesk.Ws.Laws.Gone.{host_session-IsConsistent}
use rcdesk.Ws.Laws.Guesses.{Try, revealed, revealed_bound}
use rcdesk.Tests.States.{one, two, sid, two-IsConsistent, id_draw}

session_runs_example :
    Exchange two "d1" sid 1 7 "v=0" none
    × HostEnds two "d1" sid 1 7 (some display_unavailable)
    × ClientEnds two "d1" sid 1 7 (some display_unavailable)
unfolding peer_tx_for_host attached is_current_host get
session_runs_example =
    session_runs two-IsConsistent "d1" sid 1 7 refl refl "v=0" none (some display_unavailable)

abbrev unchanged : Inner → Inner
unchanged r = r

-- A report and an offer.
abbrev arrivals : List Arrival
arrivals =
    record {
      now = 10;
      msg = session_stats sid 5 6 false false;
      before = unchanged;
      between = unchanged;
    }
    ∷ record { now = 20; msg = offer sid "v=0" none; before = unchanged; between = unchanged }
    ∷ []

abbrev budget : MessageBudget
budget = record {
  burst = 100 * nanos_per_sec;
  refill_per_sec = 10;
  tokens = 100 * nanos_per_sec;
  updated = 0;
}

host_session-IsConsistent_example :
    IsConsistent (host_session "d1" 1 budget arrivals unchanged two).0
    × (is_current_host ((host_session "d1" 1 budget arrivals unchanged two).0) "d1" 1 ≡ false)
host_session-IsConsistent_example =
    host_session-IsConsistent "d1" 1 budget arrivals unchanged
      (λ r v. v, λ r v. v, (λ r v. v, λ r v. v, tt)) (λ r v. v) two-IsConsistent

abbrev nobody : Ensured
nobody = record { owner = none; created = false }

abbrev guess : ℕ → String → Try
guess now pin = record {
  tx = 9;
  ip = v4 5;
  now = now;
  pin = pin;
  draws = id_draw ∷ [];
  ensured = nobody;
  before = unchanged;
}

abbrev no_servers : String → List IceServer
no_servers s = []

abbrev fresh_server : Server
fresh_server = record {
  registry = one;
  pin_limiter = new pin_burst pin_refill;
  pin_global_limiter = new_global pin_global_burst pin_global_refill 0;
}

abbrev guesses : List Try
guesses = guess 1000 "000000" ∷ guess 2000 "999999" ∷ []

revealed_bound_example :
    revealed no_servers 600 fresh_server (v4 5) guesses * pin_refill
    ≤ pin_burst * pin_refill + (3000 - 0)
revealed_bound_example =
    revealed_bound no_servers 600 pin_burst pin_refill one
      (new_global pin_global_burst pin_global_refill 0) (v4 5) guesses 0 3000 (omega arith)
      (omega arith, (omega arith, omega arith))

-- Both guesses are told that they are wrong.
guessed : revealed no_servers 600 fresh_server (v4 5) guesses ≡ 2
unfolding revealed on_join new new_global get insert check_at check_global spend_at spend_global
    join
guessed = refl
