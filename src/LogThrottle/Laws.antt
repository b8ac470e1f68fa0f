-- ===== src/LogThrottle/Laws.antt =====
-- host/src/log_throttle.rs: what the throttles let pass, what they count, and their size.
use mathlib.Core.Path.{subst}
use rcdesk.Common.{
  string_test, ℕ, ◌+◌, ◌≤◌, ◌<◌, String, none, some, Bool, true, false, ◌&&◌, ◌||◌, ◌==◌, ◌≡◌, ◌⊎◌,
  refl, ap, ◌∙◌, sym, arith, is_some, if◌then◌else◌, ltb, length, List, [], ◌∷◌, Option-cases,
  Bool-cases, inl, inr, ==_self, ==_iff,
}
use rcdesk.Assoc.{
  Assoc, get, get-insert, get-insert_self, get-update, length-insert-le, length-update,
}
use rcdesk.Registry.{Instant, Duration, since}
use rcdesk.LogThrottle.{
  CallsiteThrottle, allow, max_callsites, make_room, Decision, pass, suppress, Throttle, check,
  window, max_keys,
}

-- A new key finds room in the table.
unfoldable pub fits_in {ℓ} : {V : Type ℓ} → ℕ → String → Assoc String V → Bool
fits_in limit key m = is_some (get key m) || ltb (length m) limit

and_false : (b : Bool) → (b && false) ≡ false
and_false true = refl
and_false false = refl

-- One event of a place in the code.
pub allow_lem :
    (t : CallsiteThrottle) (key : String) (now : Instant)
    → ((allow t key now).0 ≡ true)
        × (get key (allow t key now).1.last ≡ some now)
        × ((get key t.last ≡ none)
            ⊎ ((prev : Instant) × (get key t.last ≡ some prev) × (t.interval ≤ since now prev)))
      ⊎ ((prev : Instant) × (get key t.last ≡ some prev)
          × (since now prev < t.interval)
          × (allow t key now ≡ (false, t)))
unfolding allow
allow_lem t key now = elim (Option-cases (get key t.last)) [
  | inl a ↦ inl (
    ground arith,
    ground (arith, get-insert_self key now (make_room max_callsites t.last)),
    inl a,
  )
  | inr (prev, a) ↦ elim (Bool-cases (ltb (since now prev) t.interval)) [
    | inl e ↦ inr (prev, a, ground arith, ground arith)
    | inr f ↦ inl (
      ground arith,
      ground (arith, get-update key key (λ _. now) t.last, ==_self key),
      inr (prev, a, ground arith),
    )
  ]
]

-- The throttle remembers `MAX_CALLSITES` places at most.
allow-length :
    (t : CallsiteThrottle) (key : String) (now : Instant)
    → length t.last ≤ max_callsites
    → length (allow t key now).1.last ≤ max_callsites
unfolding allow
allow-length t key now h = ground (
  arith,
  length-insert-le key now (make_room max_callsites t.last),
  length-update key (λ _. now) t.last,
)

-- The event of another place leaves this one alone, if the table is not cleared for it.
allow_other :
    (t : CallsiteThrottle) (at key : String) (now : Instant)
    → (at == key) ≡ false
    → fits_in max_callsites at t.last ≡ true
    → get key (allow t at now).1.last ≡ get key t.last
unfolding allow fits_in
allow_other t at key now off room = elim (Option-cases (get at t.last)) [
  | inl a ↦ ground (arith, get-insert key at now t.last)
  | inr (prev, a) ↦ ground (arith, get-update key at (λ _. now) t.last)
]

-- The places and times of the events.
abbrev pub Events : Type 0
Events = List (String × Instant)

-- No event finds the table full where its place is new, so the table is never cleared.
unfoldable pub never_cleared : CallsiteThrottle → Events → Bool
unfolding fits_in
never_cleared t [] = true
never_cleared t ((at, now) ∷ events) =
    let rest = never_cleared (allow t at now).1 events in fits_in max_callsites at t.last && rest

-- The times at which events of one place pass, among those of all places.
unfoldable pub passes : CallsiteThrottle → String → Events → List Instant
passes t key [] = []
passes t key ((at, now) ∷ events) =
    let (ok, t') = allow t at now in
    let rest = passes t' key events in if ok && (at == key) then now ∷ rest else rest

-- Each time lies at least `d` after the one before it, the first after `prev`.
abbrev pub SpacedFrom : Duration → Instant → List Instant → Type 0
SpacedFrom d prev [] = Unit
SpacedFrom d prev (t ∷ ts) = (d ≤ since t prev) × SpacedFrom d t ts

abbrev pub Spaced : Duration → List Instant → Type 0
Spaced d [] = Unit
Spaced d (t ∷ ts) = SpacedFrom d t ts

interval-allow :
    (t : CallsiteThrottle) (key : String) (now : Instant)
    → (allow t key now).1.interval ≡ t.interval
unfolding allow
interval-allow t key now = ground arith

passes-SpacedFrom :
    (events : Events) (t : CallsiteThrottle) (key : String) (prev : Instant)
    → never_cleared t events ≡ true
    → get key t.last ≡ some prev
    → SpacedFrom t.interval prev (passes t key events)
unfolding passes never_cleared
passes-SpacedFrom [] t key prev n q = tt
passes-SpacedFrom ((at, now) ∷ events) t key prev n q =
    let room : fits_in max_callsites at t.last ≡ true = ground arith in
    let on : never_cleared (allow t at now).1 events ≡ true = ground arith in
    elim (Bool-cases (at == key)) [
      | inr off ↦
          let rest =
            passes-SpacedFrom events (allow t at now).1 key prev on
              (allow_other t at key now off room ∙ q) in
          rw (off, and_false) (rw (interval-allow t at now) at rest)
      | inl same ↦
          let here : get at t.last ≡ some prev =
            ap (λ k. get k t.last) ((==_iff at key).0 same) ∙ q in
          elim (allow_lem t at now) [
            | inr (p, a, young, stays) ↦
                rw stays (passes-SpacedFrom events t key prev (rw stays at on) q)
            | inl (ok, a, inl b) ↦ absurd (ground arith)
            | inl (ok, a, inr (p, b, old)) ↦
                let a' : get key (allow t at now).1.last ≡ some now =
                  ap (λ k. get k (allow t at now).1.last) (sym ((==_iff at key).0 same)) ∙ a in
                let rest = passes-SpacedFrom events (allow t at now).1 key now on a' in
                rw (ok, same) (ground arith, rw (interval-allow t at now) at rest)
          ]
    ]

-- Whatever places speak and whenever: as long as the table is not cleared, which happens where a new
-- place finds it full, the events of one place that pass are at least the interval apart.
pub passes-Spaced :
    (events : Events) (t : CallsiteThrottle) (key : String)
    → never_cleared t events ≡ true
    → Spaced t.interval (passes t key events)
unfolding passes never_cleared
passes-Spaced [] t key n = tt
passes-Spaced ((at, now) ∷ events) t key n =
    let on : never_cleared (allow t at now).1 events ≡ true = ground arith in
    let later = passes-Spaced events (allow t at now).1 key on in
    elim (Bool-cases (at == key)) [
      | inr off ↦ rw (off, and_false) (rw (interval-allow t at now) at later)
      | inl same ↦ elim (allow_lem t at now) [
        | inr (p, a, young, stays) ↦ rw stays (passes-Spaced events t key (rw stays at on))
        | inl (ok, a, _) ↦
            let a' : get key (allow t at now).1.last ≡ some now =
              ap (λ k. get k (allow t at now).1.last) (sym ((==_iff at key).0 same)) ∙ a in
            let rest = passes-SpacedFrom events (allow t at now).1 key now on a' in
            rw (ok, same) (rw (interval-allow t at now) at rest)
      ]
    ]

-- The suppressed events of a key that no line has reported yet.
abbrev pub pending : String → Throttle → ℕ
pending key keys = elim (get key keys) [ none ↦ 0 | some (last, count) ↦ count ]

abbrev pub reported : Decision → ℕ
reported (pass n) = n
reported suppress = 0

abbrev pub suppressed : Decision → ℕ
suppressed (pass n) = 0
suppressed suppress = 1

pub record Tally : Type 0 where
  pub reports : ℕ
  pub drops : ℕ
  pub left : Throttle

-- No event finds the table full where its key is new, so no count is thrown away.
unfoldable pub none_cleared : Throttle → Events → Bool
unfolding fits_in
none_cleared keys [] = true
none_cleared keys ((at, now) ∷ events) =
    let rest = none_cleared (check keys at now).1 events in fits_in max_keys at keys && rest

abbrev counts : Bool → ℕ → ℕ
counts mine n = if mine then n else 0

-- The events of all keys in turn: of one key, how many drops its passes reported, and how many there
-- were.
unfoldable pub tally : Throttle → String → Events → Tally
tally keys key [] = record { reports = 0; drops = 0; left = keys }
tally keys key ((at, now) ∷ events) =
    let (d, keys') = check keys at now in
    let rest = tally keys' key events in
    record {
      reports = counts (at == key) (reported d) + rest.reports;
      drops = counts (at == key) (suppressed d) + rest.drops;
      left = rest.left;
    }

check-pending :
    (keys : Throttle) (key : String) (now : Instant)
    → let (d, keys') = check keys key now in
      reported d + pending key keys' ≡ pending key keys + suppressed d
unfolding check
check-pending keys key now = elim (Option-cases (get key keys)) [
  | inl a ↦ ground (arith, get-insert_self key (now, 0) (make_room max_keys keys))
  | inr ((last, count), a) ↦ ground (
    arith,
    get-update key key (λ _. (last, count + 1)) keys,
    get-update key key (λ _. (now, 0)) keys,
    ==_self key,
  )
]

check_other :
    (keys : Throttle) (at key : String) (now : Instant)
    → (at == key) ≡ false
    → fits_in max_keys at keys ≡ true
    → get key (check keys at now).1 ≡ get key keys
unfolding check fits_in
check_other keys at key now off room = elim (Option-cases (get at keys)) [
  | inl a ↦ ground (arith, get-insert key at (now, 0) keys)
  | inr ((last, count), a) ↦ ground (
    arith,
    get-update key at (λ _. (last, count + 1)) keys,
    get-update key at (λ _. (now, 0)) keys,
  )
]

-- As long as the table is not cleared, which happens where a new key finds it full, no suppressed line
-- goes uncounted: what the passes of a key report and what is still to be reported add up to what was
-- to be reported before and the lines suppressed since, whatever other keys do between.
pub tally_lem :
    (events : Events) (keys : Throttle) (key : String)
    → none_cleared keys events ≡ true
    → let t = tally keys key events in t.reports + pending key t.left ≡ pending key keys + t.drops
unfolding tally none_cleared
tally_lem [] keys key n = omega arith
tally_lem ((at, now) ∷ events) keys key n =
    let room : fits_in max_keys at keys ≡ true = ground arith in
    let ih = tally_lem events (check keys at now).1 key (ground arith) in
    elim (Bool-cases (at == key)) [
      | inr off ↦
          let kept : pending key (check keys at now).1 ≡ pending key keys =
            rw (pending, check_other keys at key now off room) refl in
          rw off (omega arith)
      | inl same ↦
          let step : reported (check keys at now).0 + pending key (check keys at now).1
              ≡ pending key keys + suppressed (check keys at now).0 =
            subst
              (λ k.
                reported (check keys at now).0 + pending k (check keys at now).1
                ≡ pending k keys + suppressed (check keys at now).0)
              ((==_iff at key).0 same) (check-pending keys at now) in
          rw same (omega arith)
    ]

-- The key has not passed before, as far as is remembered, or not within `WINDOW`.
abbrev pub Fresh : Throttle → String → Instant → Type 0
Fresh keys key now =
    (get key keys ≡ none)
    ⊎ ((last : Instant) × (count : ℕ) × (get key keys ≡ some (last, count))
        × (window ≤ since now last))

-- Within `WINDOW` of the key's last remembered pass a line is suppressed and counted, and that pass
-- stays remembered. Otherwise it passes with the count of what was suppressed, and the count starts
-- again from there.
check_suppress :
    (keys : Throttle) (key : String) (now : Instant)
    → ((last : Instant) × (count : ℕ) × ((check keys key now).0 ≡ suppress)
        × (get key keys ≡ some (last, count))
        × (since now last < window)
        × (get key (check keys key now).1 ≡ some (last, count + 1)))
      ⊎ (Fresh keys key now
          × ((check keys key now).0 ≡ pass (pending key keys))
          × (get key (check keys key now).1 ≡ some (now, 0)))
unfolding check
check_suppress keys key now = elim (Option-cases (get key keys)) [
  | inl a ↦
      inr (
        inl a,
        ground arith,
        ground (arith, get-insert_self key (now, 0) (make_room max_keys keys)),
      )
  | inr ((last, count), a) ↦ elim (Bool-cases (ltb (since now last) window)) [
    | inl t ↦ inl (
      last,
      count,
      ground arith,
      a,
      ground arith,
      ground (arith, get-update key key (λ _. (last, count + 1)) keys, ==_self key),
    )
    | inr f ↦ inr (
      inr (last, count, a, ground arith),
      ground arith,
      ground (arith, get-update key key (λ _. (now, 0)) keys, ==_self key),
    )
  ]
]

-- The throttle remembers `MAX_KEYS` keys at most.
check-length :
    (keys : Throttle) (key : String) (now : Instant)
    → length keys ≤ max_keys
    → length (check keys key now).1 ≤ max_keys
unfolding check
check-length keys key now h = elim (Option-cases (get key keys)) [
  | inl a ↦ ground (arith, length-insert-le key (now, 0) (make_room max_keys keys))
  | inr ((last, count), a) ↦ ground (
    arith,
    length-update key (λ _. (last, count + 1)) keys,
    length-update key (λ _. (now, 0)) keys,
  )
]
