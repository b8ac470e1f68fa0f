-- ===== src/Accounts/Codes.antt =====
-- server/src/accounts.rs, `EmailCodes`: the codes that are mailed to an address.
use rcdesk.Common.{
  ℕ, ◌+◌, ◌-◌, ◌*◌, ◌%◌, Option, none, some, Bool, true, false, ◌||◌, List, [], ◌∷◌, ◌++◌, map,
  if◌then◌else◌, ltb, leb, ◌==◌, nat_test, length, is_some,
}
use rcdesk.Files.Names.{Text}
use rcdesk.Assoc.{Assoc, get, insert, retain}
use rcdesk.Registry.{Instant, Duration, nanos_per_sec, since}
use rcdesk.Accounts.{text_test}

abbrev pub code_ttl : Duration
code_ttl = 600 * nanos_per_sec

abbrev pub code_max_attempts : ℕ
code_max_attempts = 5

abbrev pub code_min_interval : Duration
code_min_interval = 60 * nanos_per_sec

abbrev pub code_window : Duration
code_window = 3600 * nanos_per_sec

abbrev pub code_max_per_window : ℕ
code_max_per_window = 5

pub record ActiveCode : Type 0 where
  pub code : Text
  pub expires_at : Instant
  pub attempts_left : ℕ

pub record CodeEntry : Type 0 where
  pub active : Option ActiveCode
  pub issued : List Instant

abbrev pub EmailCodes : Type 0
EmailCodes = Assoc Text CodeEntry

-- The digits that were drawn.
unfoldable pub random_code : List ℕ → Text
random_code draws = map (λ d. 0x30 + d % 10) draws

-- What `retain` does to an entry: old times go from the front, a code that is over goes.
unfoldable pub drop_old : Instant → List Instant → List Instant
drop_old now [] = []
drop_old now (t ∷ issued) =
    let rest = drop_old now issued in if leb code_window (since now t) then rest else t ∷ issued

unfoldable pub still_active : Instant → Option ActiveCode → Option ActiveCode
still_active now none = none
still_active now (some a) = if leb a.expires_at now then none else some a

unfoldable pub tidied : Instant → CodeEntry → CodeEntry
unfolding drop_old still_active
tidied now e = record { active = still_active now e.active; issued = drop_old now e.issued }

abbrev pub has_times : List Instant → Bool
has_times [] = false
has_times (t ∷ ts) = true

unfoldable pub is_live : CodeEntry → Bool
is_live e = is_some e.active || has_times e.issued

unfoldable pub each_tidied : Instant → EmailCodes → EmailCodes
unfolding tidied
each_tidied now [] = []
each_tidied now ((k, e) ∷ m) = (k, tidied now e) ∷ each_tidied now m

unfoldable pub tidy : Instant → EmailCodes → EmailCodes
unfolding each_tidied is_live
tidy now m = retain (λ k e. is_live e) (each_tidied now m)

-- The last code was issued less than CODE_MIN_INTERVAL ago.
unfoldable pub too_soon : Instant → List Instant → Bool
too_soon now [] = false
too_soon now (t ∷ []) = ltb (since now t) code_min_interval
too_soon now (t ∷ u ∷ issued) = too_soon now (u ∷ issued)

unfoldable pub refuses : Instant → Option CodeEntry → Bool
unfolding too_soon
refuses now none = false
refuses now (some e) = too_soon now e.issued || leb code_max_per_window (length e.issued)

abbrev pub times_of : Option CodeEntry → List Instant
times_of none = []
times_of (some e) = e.issued

unfoldable pub issue_at : EmailCodes → Text → Instant → List ℕ → Option Text × EmailCodes
unfolding tidy refuses random_code
issue_at codes email now draws =
    let m = tidy now codes in
    let found = get email m in
    if refuses now found then (none, m) else (
      some (random_code draws),
      insert email
          (record {
            active = some (record {
              code = random_code draws;
              expires_at = now + code_ttl;
              attempts_left = code_max_attempts;
            });
            issued = times_of found ++ now ∷ [];
          })
          m,
    )

-- The entry without its code, or with an attempt less.
unfoldable pub spent_attempt : ActiveCode → Option ActiveCode
spent_attempt a =
    if a.attempts_left - 1 == 0
    then none
    else some (record a { attempts_left = a.attempts_left - 1 })

unfoldable pub check_code : Instant → Text → ActiveCode → Bool × Option ActiveCode
unfolding spent_attempt
check_code now code a =
    if leb a.expires_at now || (a.attempts_left == 0)
    then (false, none)
    else if a.code == code
    then (true, none)
    else (false, spent_attempt a)

-- The answer, and the entry afterwards.
unfoldable pub verify_active : Instant → Text → Option ActiveCode → Bool × Option ActiveCode
unfolding check_code
verify_active now code none = (false, none)
verify_active now code (some a) = check_code now code a

unfoldable pub verify_entry :
    EmailCodes → Text → Text → Instant → Option CodeEntry → Bool × EmailCodes
unfolding verify_active
verify_entry codes email code now none = (false, codes)
verify_entry codes email code now (some e) =
    let (ok, active) = verify_active now code e.active in
    (ok, insert email (record e { active = active }) codes)

unfoldable pub verify_at : (Text → Text) → EmailCodes → Text → Text → Instant → Bool × EmailCodes
unfolding verify_entry
verify_at trim codes email code now = verify_entry codes email (trim code) now (get email codes)
