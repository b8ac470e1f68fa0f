-- ===== src/Tests/Accounts.antt =====
-- server/src/accounts.rs.
use rcdesk.Common.{◌+◌, ◌-◌, ◌*◌, ◌≤◌, none, some, List, [], ◌∷◌, ◌≡◌, refl, arith, ◌==◌, nat_test}
use rcdesk.Files.Names.{Text, Chars, codes}
use rcdesk.Assoc.{get, insert, remove, retain}
use rcdesk.Registry.{Instant, nanos_per_sec}
use rcdesk.Accounts.{normalize_email, text_test}
use rcdesk.Accounts.Codes.{code_window, issue_at, verify_at}
use rcdesk.Accounts.Laws.Tries.{Call, issue, verify, tries, tries_bound}

abbrev plain : Chars
plain = record { is_control = λ c. c == 10; is_whitespace = λ c. c == 32 }

abbrev same : Text → Text
same t = t

an_email : normalize_email plain same same (codes "a@b.c") ≡ some (codes "a@b.c")
unfolding normalize_email
an_email = refl

no_domain : normalize_email plain same same (codes "a@b") ≡ none
unfolding normalize_email
no_domain = refl

abbrev address : Text
address = codes "a@b.c"

-- A code, a wrong try, the right one, and the right one again.
abbrev calls : List (Instant × Call)
calls =
    (0, issue address (1 ∷ 2 ∷ 3 ∷ 4 ∷ 5 ∷ 6 ∷ []))
    ∷ (1, verify address (codes "000000"))
    ∷ (2, verify address (codes "123456"))
    ∷ (3, verify address (codes "123456"))
    ∷ []

tries_bound_example :
    code_window * tries same [] address calls ≤ 25 * (nanos_per_sec - 0) + 25 * code_window
tries_bound_example = tries_bound same address calls 0 nanos_per_sec (omega arith)

two_tries : tries same [] address calls ≡ 2
unfolding tries issue_at verify_at get insert remove retain
two_tries = refl
