-- ===== src/Slot/Laws/Pace.antt =====
-- host/src/signaling/mod.rs: how fast passwords can be tried.
pub mod Quiet
pub mod Runs
pub mod Steps
pub mod Bound
use rcdesk.Common.{
  ℕ, zero, suc, ◌+◌, ◌-◌, ◌*◌, ◌^◌, ◌≤◌, min, ◌≡◌, refl, Bool, true, false, if◌then◌else◌, ltb,
  arith, Bool-cases, inl, inr, ◌<◌,
}
use rcdesk.Registry.{Duration, nanos_per_sec}
use rcdesk.Slot.{auth_lockout_duration, max_auth_attempts}

-- The pauses after this many starts, together.
unfoldable pub pauses : ℕ → Duration
pauses zero = 0
pauses (suc f) =
    pauses f + (if ltb max_auth_attempts (suc f) then auth_lockout_duration (suc f) else 0)

pow_pos : (e : ℕ) → 1 ≤ 2 ^ e
pow_pos zero = omega arith
pow_pos (suc e) = omega (arith, pow_pos e)

big : (e : ℕ) → 4 ≤ e → 16 ≤ 2 ^ e
big zero h = absurd (omega arith)
big (suc zero) h = absurd (omega arith)
big (suc (suc zero)) h = absurd (omega arith)
big (suc (suc (suc zero))) h = absurd (omega arith)
big (suc (suc (suc (suc e)))) h = omega (arith, pow_pos e)

auth_lockout_duration_max : (f : ℕ) → 10 ≤ f → auth_lockout_duration f ≡ 60 * nanos_per_sec
unfolding auth_lockout_duration
auth_lockout_duration_max f h = omega (arith, big (min (f - 6) 63) (omega arith))

pauses_later : (f : ℕ) → 9 ≤ f → pauses (suc f) ≡ pauses f + 60 * nanos_per_sec
unfolding pauses
pauses_later f h = ground (arith, auth_lockout_duration_max (suc f) (omega arith))

pauses_first : (f : ℕ) → f < 10 → 60 * nanos_per_sec * suc f ≤ pauses f + 525 * nanos_per_sec
unfolding pauses auth_lockout_duration
pauses_first zero h = omega arith
pauses_first (suc zero) h = omega arith
pauses_first (suc (suc zero)) h = omega arith
pauses_first (suc (suc (suc zero))) h = omega arith
pauses_first (suc (suc (suc (suc zero)))) h = omega arith
pauses_first (suc (suc (suc (suc (suc zero))))) h = omega arith
pauses_first (suc (suc (suc (suc (suc (suc zero)))))) h = omega arith
pauses_first (suc (suc (suc (suc (suc (suc (suc zero))))))) h = omega arith
pauses_first (suc (suc (suc (suc (suc (suc (suc (suc zero)))))))) h = omega arith
pauses_first (suc (suc (suc (suc (suc (suc (suc (suc (suc zero))))))))) h = omega arith
pauses_first (suc (suc (suc (suc (suc (suc (suc (suc (suc (suc f)))))))))) h = absurd (omega arith)

-- One start a minute, and nine more.
pub pauses_bound : (f : ℕ) → 60 * nanos_per_sec * suc f ≤ pauses f + 525 * nanos_per_sec
pauses_bound zero = pauses_first zero (omega arith)
pauses_bound (suc f) = elim (Bool-cases (ltb f 9)) [
  | inl early ↦ pauses_first (suc f) (ground arith)
  | inr late ↦ omega (arith, pauses_bound f, pauses_later f (ground arith))
]
