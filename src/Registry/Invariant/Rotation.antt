-- ===== src/Registry/Invariant/Rotation.antt =====
-- server/src/registry.rs, `rotate_expired_pins`: the invariant, and that no lookup fails.
use mathlib.Core.Path.{subst, sym}
use rcdesk.Common.{
  string_test, String, List, [], ◌∷◌, some, true, ◌≡◌, refl, arith, ==_self, is_some, Option-cases,
  Bool-cases, inl, inr, All,
}
use rcdesk.Assoc.{get, update, get-update}
use rcdesk.Registry.{Inner, HostEntry, HostMap, Instant, Duration}
use rcdesk.Registry.Draws.{Draws, Ensures, >>=-Ensures}
use rcdesk.Registry.Pins.{
  rotate_pin, put_pin, rotate_each, rotate_expired_pins, expired_hosts, pin_expired,
}
use rcdesk.Registry.Invariant.{IsConsistent}
use rcdesk.Registry.Invariant.Pins.{rotate_pin_lem, put_pin-IsConsistent}

abbrev pub Online : HostMap → String → Type 0
Online hosts h = is_some (get h hosts) ≡ true

Online-some :
    (h : String) (hosts : HostMap) → Online hosts h → (e : HostEntry) × (get h hosts ≡ some e)
Online-some h hosts t = elim (Option-cases (get h hosts)) [
  | inl a ↦ absurd (ground arith)
  | inr (e, a) ↦ (e, a)
]

update-Online :
    (h : String) (f : HostEntry → HostEntry) (hosts : HostMap) (ids : List String)
    → All (Online hosts) ids
    → All (Online (update h f hosts)) ids
update-Online h f hosts [] on = tt
update-Online h f hosts (i ∷ ids) on =
    (ground (arith, get-update i h f hosts), update-Online h f hosts ids on.1)

cons-Online :
    (h : String) (e : HostEntry) (hosts : HostMap) (ids : List String)
    → All (Online hosts) ids
    → All (Online ((h, e) ∷ hosts)) ids
unfolding get
cons-Online h e hosts [] on = tt
cons-Online h e hosts (i ∷ ids) on = (ground arith, cons-Online h e hosts ids on.1)

pub expired_hosts-Online :
    (now : Instant) (ttl : Duration) (hosts : HostMap)
    → All (Online hosts) (expired_hosts now ttl hosts)
unfolding expired_hosts get
expired_hosts-Online now ttl [] = tt
expired_hosts-Online now ttl ((h, e) ∷ hosts) = elim (Bool-cases (pin_expired now ttl e)) [
  | inl t ↦ rw t (rw (==_self h) refl, cons-Online h e hosts _ (expired_hosts-Online now ttl hosts))
  | inr f ↦ rw f (cons-Online h e hosts _ (expired_hosts-Online now ttl hosts))
]

put_pin-Online :
    (r : Inner) (h : String) (e : HostEntry) (pin : String) (now : Instant) (ids : List String)
    → All (Online r.hosts) ids
    → All (Online (put_pin r h e pin now).hosts) ids
unfolding put_pin
put_pin-Online r h e pin now ids on = update-Online h _ r.hosts ids on

pub rotate_each-IsConsistent :
    (ids : List String) {r : Inner} (now : Instant) (ds : Draws)
    → IsConsistent r
    → All (Online r.hosts) ids
    → Ensures (λ out. IsConsistent out.1) (rotate_each r ids now ds)
unfolding rotate_each
rotate_each-IsConsistent [] now ds v on = v
rotate_each-IsConsistent (h ∷ ids) {r} now ds v on =
    let (e, found) = Online-some h r.hosts on.0 in
    >>=-Ensures _ _ (rotate_pin r h now ds) _ (rotate_pin_lem v h e found now ds)
      λ (pin, r', ds') (free, same).
        let v' : IsConsistent r' = rw same (put_pin-IsConsistent v h e found pin now free) in
        let on' : All (Online r'.hosts) (h ∷ ids) =
          subst (λ (s : Inner). All (Online s.hosts) (h ∷ ids)) (sym same)
            (put_pin-Online r h e pin now (h ∷ ids) on) in
        let (e', found') = Online-some h r'.hosts on'.0 in
        rw found' (
          >>=-Ensures _ _ (rotate_each r' ids now ds') _
            (rotate_each-IsConsistent ids now ds' v' on'.1) (λ _ w. w))

pub rotate_expired_pins-IsConsistent :
    {r : Inner} (now : Instant) (ttl : Duration) (ds : Draws)
    → IsConsistent r
    → Ensures (λ out. IsConsistent out.1) (rotate_expired_pins r now ttl ds)
unfolding rotate_expired_pins
rotate_expired_pins-IsConsistent {r} now ttl ds v =
    rotate_each-IsConsistent _ now ds v (expired_hosts-Online now ttl r.hosts)
