-- ===== src/Accounts/Laws/Costs.antt =====
-- server/src/accounts.rs, `EmailCodes`: what a call costs an address, and what it leaves.
use rcdesk.Common.{
  weight-append, weight, ℕ, suc, ◌+◌, ◌*◌, ◌≤◌, Option, none, some, Bool, true, false, not, ◌||◌,
  List, [], ◌∷◌, ◌≡◌, refl, ap, ◌∙◌, if◌then◌else◌, leb, ◌==◌, nat_test, length, arith, Bool-cases,
  inl, inr, length-append,
}
use rcdesk.Files.Names.{Text}
use rcdesk.Assoc.{get, get-insert, get-insert_self, insert-Unique, Unique}
use rcdesk.Registry.{Instant}
use rcdesk.Accounts.{text_test}
use rcdesk.Accounts.Codes.{
  ActiveCode, CodeEntry, EmailCodes, code_window, code_max_per_window, tidy, refuses, times_of,
  issue_at, spent_attempt, check_code, verify_active, verify_entry,
}
use rcdesk.Accounts.Laws.Entries.{
  tidy_entry, tidy-Unique, get-tidy, attempts, attempts_of, tidy_entry_lem,
}

-- A code is compared with this entry's.
abbrev pub open_code : Instant → Option ActiveCode → Bool
open_code now none = false
open_code now (some a) = not (leb a.expires_at now || (a.attempts_left == 0))

abbrev pub compares : Instant → Option CodeEntry → Bool
compares now none = false
compares now (some e) = open_code now e.active

-- An entry has no more times than the window allows.
abbrev FewTimes : Option CodeEntry → Type 0
FewTimes o = length (times_of o) ≤ code_max_per_window

one_try :
    (now : Instant) (code : Text) (o : Option ActiveCode)
    → (if open_code now o then 1 else 0) + attempts (verify_active now code o).1 ≤ attempts o
unfolding verify_active check_code spent_attempt
one_try now code none = omega arith
one_try now code (some a) = ground arith

pub verify_entry_lem :
    (codes : EmailCodes) (email code : Text) (now : Instant) (o : Option CodeEntry)
    → get email codes ≡ o
    → (times_of (get email (verify_entry codes email code now o).1) ≡ times_of o)
      × ((if compares now o then 1 else 0)
            + attempts_of (get email (verify_entry codes email code now o).1)
          ≤ attempts_of o)
unfolding verify_entry
verify_entry_lem codes email code now none e = rw e (refl, omega arith)
verify_entry_lem codes email code now (some entry) e =
    rw
      (get-insert_self email (record entry { active = (verify_active now code entry.active).1 })
        codes)
      (refl, one_try now code entry.active)

-- Another address's entry stays.
pub verify_entry-other :
    (codes : EmailCodes) (email key code : Text) (now : Instant) (o : Option CodeEntry)
    → (email == key) ≡ false
    → get key (verify_entry codes email code now o).1 ≡ get key codes
unfolding verify_entry
verify_entry-other codes email key code now none f = refl
verify_entry-other codes email key code now (some entry) f =
    get-insert key email _ codes ∙ rw f refl

pub verify_entry-Unique :
    (codes : EmailCodes) (email code : Text) (now : Instant) (o : Option CodeEntry)
    → Unique codes
    → Unique (verify_entry codes email code now o).1
unfolding verify_entry
verify_entry-Unique codes email code now none u = u
verify_entry-Unique codes email code now (some entry) u = insert-Unique email _ codes u

-- What a call costs, what it leaves and what it puts on the window, together.
unfoldable pub Pays : Instant → ℕ → Option CodeEntry → Option CodeEntry → Type 0
Pays now cost o o' =
    (length (times_of o') ≤ code_max_per_window)
    × (code_window * cost + code_window * attempts_of o' + 5 * weight code_window now (times_of o)
        ≤ code_window * attempts_of o + 5 * weight code_window now (times_of o'))

refuses_not :
    (now : Instant) (o : Option CodeEntry)
    → refuses now o ≡ false
    → suc (length (times_of o)) ≤ code_max_per_window
unfolding refuses
refuses_not now none e = omega arith
refuses_not now (some entry) e = ground arith

pub idle-Pays :
    (now : Instant) (o : Option CodeEntry)
    → length (times_of o) ≤ code_max_per_window
    → Pays now 0 o o
unfolding Pays
idle-Pays now o few = (few, omega arith)

tidy_entry-Pays :
    (now : Instant) (o : Option CodeEntry)
    → length (times_of o) ≤ code_max_per_window
    → Pays now 0 o (tidy_entry now o)
unfolding Pays
tidy_entry-Pays now o few =
    let (same, fewer, less) = tidy_entry_lem now o in
    (omega (arith, fewer), omega (arith, same, less))

-- Codes for the address itself.
pub issue_at_own-Pays :
    (m : EmailCodes) (key : Text) (now : Instant) (draws : List ℕ)
    → Unique m
    → length (times_of (get key m)) ≤ code_max_per_window
    → Pays now 0 (get key m) (get key (issue_at m key now draws).1)
unfolding issue_at Pays
issue_at_own-Pays m key now draws u few =
    let found = get-tidy key now m u in
    let (same, fewer, less) = tidy_entry_lem now (get key m) in
    elim (Bool-cases (refuses now (get key (tidy now m)))) [
      | inl denied ↦ rw denied (rw found (tidy_entry-Pays now (get key m) few))
      | inr granted ↦
          let times = times_of (get key (tidy now m)) in
          let room = refuses_not now (get key (tidy now m)) granted in
          let same' : weight code_window now times ≡ weight code_window now (times_of (get key m)) =
            ap (λ o. weight code_window now (times_of o)) found ∙ same in
          rw (granted, get-insert_self)
            (
              omega (arith, length-append times (now ∷ []), room),
              omega (arith, weight-append code_window now times (now ∷ []), same'),
            )
    ]

pub issue_at_other-Pays :
    (m : EmailCodes) (email key : Text) (now : Instant) (draws : List ℕ)
    → (email == key) ≡ false
    → Unique m
    → length (times_of (get key m)) ≤ code_max_per_window
    → Pays now 0 (get key m) (get key (issue_at m email now draws).1)
unfolding issue_at
issue_at_other-Pays m email key now draws off u few =
    let stays : Pays now 0 (get key m) (get key (tidy now m)) =
      rw (get-tidy key now m u) (tidy_entry-Pays now (get key m) few) in
    elim (Bool-cases (refuses now (get email (tidy now m)))) [
      | inl denied ↦ rw denied stays
      | inr granted ↦ rw (granted, get-insert, off) stays
    ]

pub issue_at-Unique :
    (m : EmailCodes) (email : Text) (now : Instant) (draws : List ℕ)
    → Unique m
    → Unique (issue_at m email now draws).1
unfolding issue_at
issue_at-Unique m email now draws u = elim (Bool-cases (refuses now (get email (tidy now m)))) [
  | inl denied ↦ rw denied (tidy-Unique now m u)
  | inr granted ↦ rw granted (insert-Unique email _ (tidy now m) (tidy-Unique now m u))
]

accepts-open_code :
    (now : Instant) (code : Text) (o : Option ActiveCode)
    → (verify_active now code o).0 ≡ true
    → open_code now o ≡ true
unfolding verify_active check_code
accepts-open_code now code none ok = absurd (ground arith)
accepts-open_code now code (some a) ok = ground arith

pub accepted-compares :
    (codes : EmailCodes) (email code : Text) (now : Instant) (o : Option CodeEntry)
    → (verify_entry codes email code now o).0 ≡ true
    → compares now o ≡ true
unfolding verify_entry
accepted-compares codes email code now none ok = absurd (ground arith)
accepted-compares codes email code now (some e) ok = accepts-open_code now code e.active ok
