-- ===== src/Accounts.antt =====
-- server/src/accounts.rs: addresses, passwords and the codes that are mailed.
pub mod Codes
pub mod Laws
use rcdesk.Common.{
  ℕ, ◌+◌, not, Option, none, some, Bool, true, false, ◌&&◌, ◌||◌, List, [], ◌∷◌, if◌then◌else◌, ltb,
  leb, any, ◌==◌, HasTest, nat_test, length, ◌≡◌, ◌↔◌, refl, arith,
}
use rcdesk.Files.Names.{Text, Chars, bytes, is_empty, same_text, same_text_iff}

instance abbrev pub text_test : HasTest Text
text_test = record { test = same_text; test_iff = same_text_iff }

abbrev pub max_email_len : ℕ
max_email_len = 254

abbrev pub min_password_chars : ℕ
min_password_chars = 8

abbrev pub max_password_chars : ℕ
max_password_chars = 128

-- The pieces between the characters `c`: `split`.
abbrev grow : ℕ → List Text → List Text
grow c [] = (c ∷ []) ∷ []
grow c (piece ∷ pieces) = (c ∷ piece) ∷ pieces

unfoldable pub split : ℕ → Text → List Text
split c [] = [] ∷ []
split c (d ∷ s) = let rest = split c s in if d == c then [] ∷ rest else grow d rest

abbrev is_dot : ℕ → Bool
is_dot c = c == b'.'

-- One `@`, with something before it and a dot after it.
unfoldable pub has_form : List Text → Bool
has_form (local ∷ domain ∷ []) = not (is_empty local || is_empty domain || not (any is_dot domain))
has_form pieces = false

-- `trim` and `to_lowercase` are parameters.
module _ (ch : Chars) (trim to_lowercase : Text → Text) where
  unfoldable pub normalize_email : Text → Option Text
  unfolding split has_form
  normalize_email raw =
      let email = to_lowercase (trim raw) in
      if ltb max_email_len (bytes email)
      then none
      else if any (λ c. ch.is_whitespace c || ch.is_control c) email
      then none
      else if has_form (split b'@' email)
      then some email
      else none

unfoldable pub password_is_valid : Text → Bool
password_is_valid password =
    leb min_password_chars (length password) && leb (length password) max_password_chars
