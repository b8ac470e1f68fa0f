-- ===== src/Tests/Limits.antt =====
-- host/src/log_throttle.rs and server/src/ip_limit.rs.
use rcdesk.Common.{string_test, nat_test, ◌+◌, ◌-◌, ◌*◌, ◌≤◌, [], ◌∷◌, ◌≡◌, refl, arith}
use rcdesk.Assoc.{get, insert, update}
use rcdesk.LogThrottle.{CallsiteThrottle, Throttle, allow, check}
use rcdesk.LogThrottle.Laws.{
  Events, never_cleared, Spaced, passes, passes-Spaced, none_cleared, tally, pending, tally_lem,
}
use rcdesk.IpLimit.{IpAddr, v4, addr_test, new}
use rcdesk.IpLimit.Rate.{admitted, new-admitted_bound}

abbrev site : CallsiteThrottle
site = record { last = []; interval = 5 }

-- Two places in turn.
abbrev spoken : Events
spoken =
    ("driver.rs:1", 1)
    ∷ ("driver.rs:2", 2)
    ∷ ("driver.rs:1", 2)
    ∷ ("driver.rs:1", 6)
    ∷ ("driver.rs:2", 7)
    ∷ ("driver.rs:1", 7)
    ∷ []

passes-Spaced_example : Spaced 5 (passes site "driver.rs:1" spoken)
unfolding never_cleared allow get insert update
passes-Spaced_example = passes-Spaced spoken site "driver.rs:1" refl

passes_run : passes site "driver.rs:1" spoken ≡ 1 ∷ 6 ∷ []
unfolding passes allow get insert update
passes_run = refl

-- Four lines from one address have been suppressed.
abbrev noisy : Throttle
noisy = ("10.0.0.1", (100, 4)) ∷ []

abbrev lines : Events
lines = ("10.0.0.1", 200) ∷ ("10.0.0.2", 300) ∷ ("10.0.0.1", 400_000_000_000) ∷ []

tally_example :
    let t = tally noisy "10.0.0.1" lines in
    t.reports + pending "10.0.0.1" t.left ≡ pending "10.0.0.1" noisy + t.drops
unfolding none_cleared check get insert update
tally_example = tally_lem lines noisy "10.0.0.1" refl

-- Two tokens, one back each 10, and two addresses.
abbrev a : IpAddr
a = v4 1

new-admitted_bound_example :
    admitted (new 2 10) a ((a, 1) ∷ (v4 2, 2) ∷ (a, 3) ∷ (a, 4) ∷ (a, 15) ∷ []) * 10
    ≤ 2 * 10 + (15 - 0)
new-admitted_bound_example =
    new-admitted_bound 2 10 a ((a, 1) ∷ (v4 2, 2) ∷ (a, 3) ∷ (a, 4) ∷ (a, 15) ∷ []) 0 15
      (omega arith) (omega arith)
