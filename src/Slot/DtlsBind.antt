-- ===== src/Slot/DtlsBind.antt =====
-- host/src/dtls_bind.rs: the fingerprint of a session description, and its tag under a login's key.
use rcdesk.Common.{
  ℕ, ◌+◌, ◌/◌, ◌%◌, String, Option, none, some, Bool, true, false, ◌&&◌, ◌||◌, List, [], ◌∷◌, ◌++◌,
  if◌then◌else◌, ltb, ◌==◌, nat_test,
}
use rcdesk.Files.Names.{Text, codes, same_text, is_empty, trim_end_by}
use rcdesk.Slot.Access.{Bytes, Base64}

-- What `std` knows of letters and spaces.
pub record Letters : Type 0 where
  pub is_whitespace : ℕ → Bool
  pub to_lowercase : Text → Text
  pub to_uppercase : Text → Text

-- HMAC-SHA256, as `hmac` has it: key, message.
abbrev pub Hmac : Type 0
Hmac = Bytes → Bytes → Bytes

-- `str::lines`: a line ends with a line feed, or a carriage return and a line feed.
abbrev pub grow : ℕ → List Text → List Text
grow c [] = (c ∷ []) ∷ []
grow c (line ∷ lines) = (c ∷ line) ∷ lines

abbrev pub at_newline : Text → Bool
at_newline [] = false
at_newline (c ∷ s) = c == 0x0a

unfoldable pub lines : Text → List Text
lines [] = []
lines (c ∷ s) =
    let rest = lines s in
    if c == 0x0a then [] ∷ rest else if (c == 0x0d) && at_newline s then rest else grow c rest

unfoldable pub strip_prefix : Text → Text → Option Text
strip_prefix [] s = some s
strip_prefix (p ∷ ps) [] = none
strip_prefix (p ∷ ps) (c ∷ s) = if p == c then strip_prefix ps s else none

-- The text before the first space, and the text after it.
abbrev pub longer : ℕ → Option (Text × Text) → Option (Text × Text)
longer c none = none
longer c (some (before, after)) = some (c ∷ before, after)

unfoldable pub split_space : Text → Option (Text × Text)
split_space [] = none
split_space (c ∷ s) = let rest = split_space s in if c == 0x20 then some ([], s) else longer c rest

abbrev pub fingerprint_prefix : String
fingerprint_prefix = "a=fingerprint:"

abbrev pub auth_tag_prefix : String
auth_tag_prefix = "rcdesk-dtls-v1"

module _ (l : Letters) where
  unfoldable pub trim_start : Text → Text
  trim_start [] = []
  trim_start (c ∷ s) = let rest = trim_start s in if l.is_whitespace c then rest else c ∷ s

  unfoldable pub trim : Text → Text
  unfolding trim_start trim_end_by
  trim s = trim_end_by l.is_whitespace (trim_start s)

  unfoldable pub normalized : Text → Text → Option Text
  normalized alg hex =
      if is_empty alg || is_empty hex
      then none
      else some (l.to_lowercase alg ++ 0x20 ∷ l.to_uppercase hex)

  unfoldable pub fingerprint_of_parts : Option (Text × Text) → Option Text
  unfolding normalized trim
  fingerprint_of_parts none = none
  fingerprint_of_parts (some (alg, hex)) = normalized (trim alg) (trim hex)

  unfoldable pub fingerprint_after : Option Text → Option Text
  unfolding fingerprint_of_parts split_space
  fingerprint_after none = none
  fingerprint_after (some rest) = fingerprint_of_parts (split_space rest)

  -- The value of a line, or `none` for a line that is passed over.
  unfoldable pub line_value : Text → Option Text
  unfolding fingerprint_after strip_prefix trim
  line_value line = fingerprint_after (strip_prefix (codes fingerprint_prefix) (trim line))

  -- The loop, with what was found so far.
  unfoldable pub scan : Option Text → List Text → Option Text
  scan found [] = found
  scan found (line ∷ more) = elim (line_value line) [
    | none ↦ scan found more
    | some value ↦ elim found [
      | none ↦ scan (some value) more
      | some prev ↦ elim (same_text prev value) [ true ↦ scan (some prev) more | false ↦ none ]
    ]
  ]

  unfoldable pub fingerprint_from_sdp : Text → Option Text
  unfolding scan lines
  fingerprint_from_sdp sdp = scan none (lines sdp)

-- `as_bytes`: UTF-8.
abbrev pub utf8 : ℕ → Bytes
utf8 c =
    if ltb c 0x80
    then c ∷ []
    else if ltb c 0x800
    then (0xc0 + c / 64) ∷ (0x80 + c % 64) ∷ []
    else if ltb c 0x10000
    then (0xe0 + c / 4096) ∷ (0x80 + c / 64 % 64) ∷ (0x80 + c % 64) ∷ []
    else (0xf0 + c / 262144) ∷ (0x80 + c / 4096 % 64) ∷ (0x80 + c / 64 % 64) ∷ (0x80 + c % 64) ∷ []

unfoldable pub as_bytes : Text → Bytes
as_bytes [] = []
as_bytes (c ∷ s) = utf8 c ++ as_bytes s

-- What is tagged, for a role and a fingerprint.
unfoldable pub tagged : String → Text → Bytes
unfolding as_bytes
tagged role fingerprint =
    as_bytes (codes auth_tag_prefix)
    ++ (as_bytes (codes "|")
        ++ (as_bytes (codes role) ++ (as_bytes (codes "|") ++ as_bytes fingerprint)))

module _ (b64 : Base64) (hmac : Hmac) where
  unfoldable pub auth_tag : Bytes → String → Text → String
  unfolding tagged
  auth_tag key role fingerprint = b64.encode (hmac key (tagged role fingerprint))

  unfoldable pub verify_auth_tag : Bytes → String → Text → String → Bool
  unfolding tagged
  verify_auth_tag key role fingerprint tag = elim (b64.decode tag) [
    | none ↦ false
    | some bytes ↦ same_text (hmac key (tagged role fingerprint)) bytes
  ]
