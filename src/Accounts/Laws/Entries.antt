-- ===== src/Accounts/Laws/Entries.antt =====
-- server/src/accounts.rs, `EmailCodes`: what the calls do to the entry of one address.
use rcdesk.Common.{
  weight, ℕ, ◌≤◌, Option, none, some, Bool, true, false, ◌||◌, List, [], ◌∷◌, ◌≡◌, refl, sym, ap,
  ◌∙◌, if◌then◌else◌, nat_test, length, is_some, arith, Bool-cases, inl, inr,
}
use rcdesk.Files.Names.{Text}
use rcdesk.Assoc.{get, get-retain, retain-Unique, Unique, kept}
use rcdesk.Registry.{Instant}
use rcdesk.Accounts.{text_test}
use rcdesk.Accounts.Codes.{
  ActiveCode, CodeEntry, EmailCodes, code_window, drop_old, still_active, tidied, has_times,
  is_live, each_tidied, tidy, times_of,
}

-- What tidying leaves of an entry.
abbrev pub tidy_entry : Instant → Option CodeEntry → Option CodeEntry
tidy_entry now none = none
tidy_entry now (some e) = if is_live (tidied now e) then some (tidied now e) else none

abbrev map_entry : Instant → Option CodeEntry → Option CodeEntry
map_entry now none = none
map_entry now (some e) = some (tidied now e)

get-each_tidied :
    (k : Text) (now : Instant) (m : EmailCodes)
    → get k (each_tidied now m) ≡ map_entry now (get k m)
unfolding each_tidied get
get-each_tidied k now [] = refl
get-each_tidied k now ((j, e) ∷ m) = ground (arith, get-each_tidied k now m)

each_tidied-Unique : (now : Instant) (m : EmailCodes) → Unique m → Unique (each_tidied now m)
unfolding each_tidied
each_tidied-Unique now [] u = tt
each_tidied-Unique now ((j, e) ∷ m) (absent, u) =
    (ground (arith, get-each_tidied j now m), each_tidied-Unique now m u)

pub tidy-Unique : (now : Instant) (m : EmailCodes) → Unique m → Unique (tidy now m)
unfolding tidy
tidy-Unique now m u = retain-Unique _ _ (each_tidied-Unique now m u)

kept_entry :
    (k : Text) (now : Instant) (o : Option CodeEntry)
    → kept (λ k e. is_live e) k (map_entry now o) ≡ tidy_entry now o
kept_entry k now none = refl
kept_entry k now (some e) = refl

pub get-tidy :
    (k : Text) (now : Instant) (m : EmailCodes)
    → Unique m
    → get k (tidy now m) ≡ tidy_entry now (get k m)
unfolding tidy
get-tidy k now m u =
    get-retain (λ k e. is_live e) k (each_tidied now m) (each_tidied-Unique now m u)
    ∙ rw (get-each_tidied k now m) (kept_entry k now (get k m))

weight-drop_old :
    (now : Instant) (ts : List Instant)
    → weight code_window now (drop_old now ts) ≡ weight code_window now ts
unfolding drop_old
weight-drop_old now [] = refl
weight-drop_old now (t ∷ ts) = ground (arith, weight-drop_old now ts)

length-drop_old : (now : Instant) (ts : List Instant) → length (drop_old now ts) ≤ length ts
unfolding drop_old
length-drop_old now [] = omega arith
length-drop_old now (t ∷ ts) = ground (arith, length-drop_old now ts)

-- The tries that an entry's code still allows.
abbrev pub attempts : Option ActiveCode → ℕ
attempts none = 0
attempts (some a) = a.attempts_left

abbrev pub attempts_of : Option CodeEntry → ℕ
attempts_of none = 0
attempts_of (some e) = attempts e.active

attempts-still_active :
    (now : Instant) (o : Option ActiveCode) → attempts (still_active now o) ≤ attempts o
unfolding still_active
attempts-still_active now none = omega arith
attempts-still_active now (some a) = ground arith

no_times : (b : Bool) (ts : List Instant) → (b || has_times ts) ≡ false → ts ≡ []
no_times b [] e = refl
no_times true (t ∷ ts) e = absurd (ground arith)
no_times false (t ∷ ts) e = absurd (ground arith)

-- What tidying does to an entry's weight, its times and its tries.
pub tidy_entry_lem :
    (now : Instant) (o : Option CodeEntry)
    → (weight code_window now (times_of (tidy_entry now o)) ≡ weight code_window now (times_of o))
      × (length (times_of (tidy_entry now o)) ≤ length (times_of o))
      × (attempts_of (tidy_entry now o) ≤ attempts_of o)
unfolding tidied is_live still_active
tidy_entry_lem now none = (refl, omega arith, omega arith)
tidy_entry_lem now (some e) = elim (Bool-cases (is_live (tidied now e))) [
  | inl live ↦ rw live (
    weight-drop_old now e.issued,
    length-drop_old now e.issued,
    attempts-still_active now e.active,
  )
  | inr over ↦
      let gone = no_times (is_some (still_active now e.active)) (drop_old now e.issued) over in
      rw over (
        sym (ap (weight code_window now) gone) ∙ weight-drop_old now e.issued,
        omega arith,
        omega arith,
      )
]
