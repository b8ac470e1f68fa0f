-- ===== src/Accounts/Laws/Tries.antt =====
-- server/src/accounts.rs, `EmailCodes`: how often the codes of one address can be tried.
use rcdesk.Common.{
  weight-later, weight_max, weight, ℕ, ◌+◌, ◌-◌, ◌*◌, ◌≤◌, true, ◌&&◌, List, [], ◌∷◌, ◌≡◌, refl,
  sym, ap, if◌then◌else◌, ◌==◌, ==_cases, ==_self, nat_test, length, arith, inl, inr,
}
use mathlib.Core.Path.{subst}
use native.Mathlib.Nat.{mul-le-mul_right}
use rcdesk.Files.Names.{Text}
use rcdesk.Assoc.{get, Unique}
use rcdesk.Registry.{Instant}
use rcdesk.Accounts.{text_test}
use rcdesk.Accounts.Codes.{
  EmailCodes, code_window, code_max_per_window, times_of, issue_at, verify_at,
}
use rcdesk.Accounts.Laws.Entries.{attempts_of}
use rcdesk.Accounts.Laws.Costs.{
  compares, verify_entry_lem, verify_entry-other, verify_entry-Unique, Pays, idle-Pays,
  issue_at_own-Pays, issue_at_other-Pays, issue_at-Unique, accepted-compares,
}

-- A call, for an address, with the digits drawn or the code entered.
pub data Call : Type 0 where
  issue verify : Text → List ℕ → Call

module _ (trim : Text → Text) where
  unfoldable pub after : EmailCodes → Instant → Call → EmailCodes
  after m now (issue email draws) = (issue_at m email now draws).1
  after m now (verify email code) = (verify_at trim m email code now).1

  -- Whether the call compares the code entered with that of this address.
  unfoldable pub cost : EmailCodes → Text → Instant → Call → ℕ
  cost m key now (issue email draws) = 0
  cost m key now (verify email code) = if (email == key) && compares now (get key m) then 1 else 0

  unfoldable pub tries : EmailCodes → Text → List (Instant × Call) → ℕ
  unfolding after cost
  tries m key [] = 0
  tries m key ((now, c) ∷ more) = cost m key now c + tries (after m now c) key more

  -- A code that is accepted was compared.
  pub verified-compares :
      (m : EmailCodes) (email code : Text) (now : Instant)
      → (verify_at trim m email code now).0 ≡ true
      → cost m email now (verify email code) ≡ 1
  unfolding cost verify_at
  verified-compares m email code now ok =
      let compared = accepted-compares m email (trim code) now (get email m) ok in
      rw (==_self email, compared) refl

  after-Unique : (m : EmailCodes) (now : Instant) (c : Call) → Unique m → Unique (after m now c)
  unfolding after verify_at
  after-Unique m now (issue email draws) u = issue_at-Unique m email now draws u
  after-Unique m now (verify email code) u =
      verify_entry-Unique m email (trim code) now (get email m) u

  verify_own-Pays :
      (m : EmailCodes) (key code : Text) (now : Instant)
      → length (times_of (get key m)) ≤ code_max_per_window
      → Pays now
          (cost m key now (verify key code))
          (get key m)
          (get key (after m now (verify key code)))
  unfolding after cost verify_at Pays
  verify_own-Pays m key code now few =
      let (same, less) = verify_entry_lem m key (trim code) now (get key m) refl in
      rw (==_self key) (rw same few, omega (arith, ap (weight code_window now) same, less))

  call-Pays :
      (m : EmailCodes) (key : Text) (now : Instant) (c : Call)
      → Unique m
      → length (times_of (get key m)) ≤ code_max_per_window
      → Pays now (cost m key now c) (get key m) (get key (after m now c))
  unfolding after cost verify_at
  call-Pays m key now (issue email draws) u few = elim (==_cases email key) [
    | inl (here, same) ↦
        subst (λ (e : Text). Pays now 0 (get key m) (get key (issue_at m e now draws).1)) (sym same)
          (issue_at_own-Pays m key now draws u few)
    | inr (off, differs) ↦ issue_at_other-Pays m email key now draws off u few
  ]
  call-Pays m key now (verify email code) u few = elim (==_cases email key) [
    | inl (here, same) ↦
        subst
          (λ (e : Text).
            Pays now (cost m key now (verify e code)) (get key m)
              (get key (after m now (verify e code))))
          (sym same) (verify_own-Pays m key code now few)
    | inr (off, differs) ↦
        rw (off, verify_entry-other m email key (trim code) now (get email m) off)
          (idle-Pays now (get key m) few)
  ]

  -- The times do not fall, from `now` to `end`.
  abbrev pub InTime : Instant → List (Instant × Call) → Instant → Type 0
  InTime now [] end = now ≤ end
  InTime now ((t, c) ∷ calls) end = (now ≤ t) × InTime t calls end

  InTime-le :
      (now : Instant) (calls : List (Instant × Call)) (end : Instant)
      → InTime now calls end
      → now ≤ end
  InTime-le now [] end up = up
  InTime-le now ((t, c) ∷ calls) end (le, up) = omega (arith, InTime-le t calls end up)

  tries_left :
      (calls : List (Instant × Call)) (m : EmailCodes) (key : Text) (now end : Instant)
      → Unique m
      → length (times_of (get key m)) ≤ code_max_per_window
      → InTime now calls end
      → code_window * tries m key calls + 5 * weight code_window now (times_of (get key m))
        ≤ code_window * attempts_of (get key m) + 25 * (end - now) + 25 * code_window
  unfolding tries Pays
  tries_left [] m key now end u few up =
      omega (arith, weight_max code_window now (times_of (get key m)))
  tries_left ((t, c) ∷ calls) m key now end u few (le, up) =
      let o = get key m in
      let (few', paid) = call-Pays m key t c u few in
      let rest = tries_left calls (after m t c) key t end (after-Unique m t c u) few' up in
      let later = weight-later code_window now t (times_of o) le in
      omega (arith, paid, rest, later, mul-le-mul_right (t - now) few, InTime-le t calls end up)

  -- From the start of the server on, whatever codes are asked for and entered, for whatever addresses:
  -- the codes entered for an address that are compared with the one that was mailed, and only these
  -- can be accepted, are at most 25 for each CODE_WINDOW of the time that passes, and 25.
  pub tries_bound :
      (key : Text) (calls : List (Instant × Call)) (now end : Instant)
      → InTime now calls end
      → code_window * tries [] key calls ≤ 25 * (end - now) + 25 * code_window
  unfolding get
  tries_bound key calls now end up =
      omega (arith, tries_left calls [] key now end tt (omega arith) up)
