-- ===== src/Slot/Laws/Pace/Bound.antt =====
-- host/src/signaling/mod.rs: the bound on the logins that are started in a run.
use rcdesk.Common.{
  ℕ, zero, suc, ◌+◌, ◌-◌, ◌*◌, ◌^◌, ◌≤◌, ◌<◌, String, Option, none, some, List, [], ◌∷◌, ◌≡◌, ◌∙◌,
  inl, inr, arith, if◌then◌else◌, ltb, length,
}
use rcdesk.Registry.{Instant, nanos_per_sec}
use rcdesk.Ws.{IceServer}
use rcdesk.Slot.{u32, max_auth_attempts, auth_lockout_duration, World, new_slot}
use rcdesk.Slot.Login.{Libraries, State, pause_left, count_start}
use rcdesk.Slot.Events.{Happening, happen, drive}
use rcdesk.Slot.Laws.Pace.{pauses, pauses_bound}
use rcdesk.Slot.Laws.Pace.Quiet.{responses, responses-append, SamePace}
use rcdesk.Slot.Laws.Pace.Runs.{Unproved}
use rcdesk.Slot.Laws.Pace.Steps.{happen-Paced}

module _ (lib : Libraries) where
  abbrev pub AllUnproved : List (World × Happening) → Type 0
  AllUnproved [] = Unit
  AllUnproved ((w, h) ∷ more) = Unproved lib h × AllUnproved more

  -- The readings of the clock do not fall, from `now` to `end`.
  abbrev pub InOrder : Instant → List (World × Happening) → Instant → Type 0
  InOrder now [] end = now ≤ end
  InOrder now ((w, h) ∷ more) end = (now ≤ w.now) × (w.now ≤ w.later) × InOrder w.later more end

  -- When the next start may come, after a start of the clock.
  abbrev next_start : Instant → Option Instant → Instant
  next_start t none = t
  next_start t (some locked_until) = locked_until

  abbrev earlier_pauses : ℕ → ℕ
  earlier_pauses zero = 0
  earlier_pauses (suc f) = pauses f

  -- The pauses after the starts so far lie behind, the last one perhaps ahead.
  record Paused (t now : Instant) (a : State lib) : Type 0 where
    begun : t ≤ now
    behind : t + earlier_pauses a.auth_failures ≤ now
    ahead : t + pauses a.auth_failures ≤ next_start t a.auth_locked_until

  pause_over :
      (t now : Instant) (locked_until : Option Instant)
      → t ≤ now
      → pause_left lib locked_until now ≡ none
      → next_start t locked_until ≤ now
  unfolding pause_left
  pause_over t now none le e = le
  pause_over t now (some until) le e = ground arith

  armed :
      (t later : Instant) (f : ℕ) (lock lock' : Option Instant)
      → t + pauses f ≤ later
      → t + pauses f ≤ next_start t lock
      → lock' ≡ (
          if ltb max_auth_attempts (suc f)
          then some (later + auth_lockout_duration (suc f))
          else lock)
      → t + pauses (suc f) ≤ next_start t lock'
  unfolding pauses
  armed t later f lock lock' le ahead e = ground arith

  count_start-Paused :
      (t now : Instant) (w : World) (a a' : State lib)
      → Paused t now a
      → now ≤ w.now
      → w.now ≤ w.later
      → suc a.auth_failures < 4_294_967_296
      → pause_left lib a.auth_locked_until w.now ≡ none
      → a'.auth_failures ≡ (count_start lib a w.later).auth_failures
      → a'.auth_locked_until ≡ (count_start lib a w.later).auth_locked_until
      → Paused t w.later a' × (a'.auth_failures ≡ suc a.auth_failures)
  unfolding count_start
  count_start-Paused t now w a a' v le le' fits e f l =
      let counted : u32 (a.auth_failures + 1) ≡ suc a.auth_failures = omega arith in
      let one_more = f ∙ counted in
      let free = pause_over t w.now a.auth_locked_until (omega (arith, v.begun)) e in
      let last : t + pauses a.auth_failures ≤ w.later = omega (arith, free, v.ahead) in
      let next =
        armed t w.later a.auth_failures a.auth_locked_until a'.auth_locked_until last v.ahead
          (l ∙ rw counted) in
      (
        record {
          begun = omega (arith, v.begun);
          behind = rw one_more last;
          ahead = rw one_more next;
        },
        one_more,
      )

  SamePace-Paused :
      (t now : Instant) (w : World) (a a' : State lib)
      → Paused t now a
      → now ≤ w.now
      → w.now ≤ w.later
      → SamePace lib a a'
      → Paused t w.later a'
  SamePace-Paused t now w a a' v le le' same = record {
    begun = omega (arith, v.begun);
    behind = rw same.failures_kept (omega (arith, v.behind));
    ahead = rw (same.failures_kept, same.pause_kept) v.ahead;
  }

  failures_bound :
      (t now : Instant) (f : ℕ)
      → t ≤ now
      → t + earlier_pauses f ≤ now
      → 60 * nanos_per_sec * f ≤ (now - t) + 525 * nanos_per_sec
  failures_bound t now zero le past = omega arith
  failures_bound t now (suc f) le past = omega (arith, pauses_bound f)

  -- The answers of a run to come, and the starts before it.
  answers_bound :
      (t now end : Instant) (own : List IceServer) (run_of : List (World × Happening))
      (a : State lib)
      → Paused t now a
      → InOrder now run_of end
      → AllUnproved run_of
      → a.auth_failures + length run_of < 4_294_967_296
      → 60 * nanos_per_sec * (a.auth_failures + responses (drive lib a own run_of).1)
        ≤ (end - t) + 525 * nanos_per_sec
  unfolding drive
  answers_bound t now end own [] a v up wrong fits = omega (
    arith,
    failures_bound t end a.auth_failures (omega (arith, v.begun)) (omega (arith, v.behind)),
  )
  answers_bound t now end own ((w, h) ∷ more) a v (le, le', up) (here, wrong) fits =
      let d = happen lib w a own h in
      let total = responses-append d.1 ((drive lib d.0 own more).1) in
      elim (happen-Paced lib w a own h here) [
        | inl (same, none_answered) ↦
            let v' = SamePace-Paused t now w a d.0 v le le' same in
            omega (
              arith,
              total,
              none_answered,
              same.failures_kept,
              answers_bound t w.later end own more d.0 v' up wrong
                  (omega (arith, same.failures_kept, fits)),
            )
        | inr (free, f, l, most) ↦
            let (v', one_more) =
              count_start-Paused t now w a d.0 v le le' (omega (arith, fits)) free f l in
            omega (
              arith,
              total,
              most,
              one_more,
              answers_bound t w.later end own more d.0 v' up wrong (omega (arith, one_more, fits)),
            )
      ]

  -- Where no login is finished, however many sessions, connections and messages there are: the starts
  -- of a login that the host answers, each of which lets one password be tried, are at most one for each
  -- minute of the time that passes and 525 seconds.
  pub guesses_bound :
      (generation : ℕ) (pin : String) (own : List IceServer) (run_of : List (World × Happening))
      (now end : Instant)
      → InOrder now run_of end
      → AllUnproved run_of
      → length run_of < 2 ^ 32
      → 60 * nanos_per_sec * responses (drive lib (new_slot lib.opaque generation pin) own run_of).1
        ≤ (end - now) + 525 * nanos_per_sec
  unfolding pauses
  guesses_bound generation pin own run_of now end up wrong fits = omega (
    arith,
    answers_bound now now end own run_of (new_slot lib.opaque generation pin)
        (record { begun = omega arith; behind = omega arith; ahead = omega arith }) up wrong
        (omega arith),
  )
