-- ===== src/Registry/Pins.antt =====
-- server/src/registry.rs, the PINs: `unique_pin`, `rotate_pin`, `rotate_expired_pins`.

use rcdesk.Common.{
  string_test, nat_test, String, List, [], ◌∷◌, Option, none, some, Bool, ◌&&◌, leb, if◌then◌else◌,
}
use rcdesk.Assoc.{get, insert, remove, update, contains_key}
use rcdesk.Registry.{Inner, HostEntry, HostMap, PinMap, Tx, Instant, Duration, since}
use rcdesk.Registry.Draws.{Draws, Outcome, done, starved, panicked, ◌>>=◌, random_pin}

-- The first drawn PIN that no host has. Only the index is read.
unfoldable pub unique_pin : PinMap → Draws → Outcome (String × Draws)
unfolding contains_key
unique_pin pins [] = starved
unique_pin pins (d ∷ ds) =
    let rest = unique_pin pins ds in
    if contains_key (random_pin d) pins then rest else done (random_pin d, ds)

-- `expect` on a lookup.
abbrev pub expect {ℓ} : {A : Type ℓ} → Option A → Outcome A
expect none = panicked
expect (some a) = done a

-- What `rotate_pin` writes, given the new PIN and the host's entry.
unfoldable pub put_pin : Inner → String → HostEntry → String → Instant → Inner
put_pin r host_id host new_pin now = record r {
  hosts = update host_id (λ h. record h { pin = new_pin; pin_issued_at = now }) r.hosts;
  pin_to_host = insert new_pin host_id (remove host.pin r.pin_to_host);
}

unfoldable pub rotate_pin : Inner → String → Instant → Draws → Outcome (String × Inner × Draws)
unfolding unique_pin put_pin
rotate_pin r host_id now ds = do
  (new_pin, rest) ← unique_pin r.pin_to_host ds
  host ← expect (get host_id r.hosts)
  done (new_pin, put_pin r host_id host new_pin now, rest)

-- A PIN of a host that rotates PINs, at least `pin_ttl` old.
unfoldable pub pin_expired : Instant → Duration → HostEntry → Bool
pin_expired now pin_ttl host = host.pin_rotation && leb pin_ttl (since now host.pin_issued_at)

unfoldable pub expired_hosts : Instant → Duration → HostMap → List String
unfolding pin_expired
expired_hosts now pin_ttl [] = []
expired_hosts now pin_ttl ((id, host) ∷ m) =
    let rest = expired_hosts now pin_ttl m in
    if pin_expired now pin_ttl host then id ∷ rest else rest

unfoldable pub rotate_each :
    Inner → List String → Instant → Draws → Outcome (List (Tx × String) × Inner × Draws)
unfolding rotate_pin
rotate_each r [] now ds = done ([], r, ds)
rotate_each r (host_id ∷ ids) now ds = do
  (pin, r', ds') ← rotate_pin r host_id now ds
  host ← expect (get host_id r'.hosts)
  (sent, r'', ds'') ← rotate_each r' ids now ds'
  done ((host.tx, pin) ∷ sent, r'', ds'')

unfoldable pub rotate_expired_pins :
    Inner → Instant → Duration → Draws → Outcome (List (Tx × String) × Inner × Draws)
unfolding rotate_each expired_hosts
rotate_expired_pins r now pin_ttl ds = rotate_each r (expired_hosts now pin_ttl r.hosts) now ds
