-- ===== src/Files/Laws/Safe.antt =====
-- host/src/files/mod.rs, `sanitize_file_name`: what comes out is a file's name on every system.
use rcdesk.Common.{ℕ, ◌≤◌, ◌<◌, false, nat_test, ◌≡◌, ◌≢◌, All}
use rcdesk.Files.Names.{
  Text, codes, Chars, bytes, is_empty, is_tail, trim_end_by, is_windows_reserved, is_unsafe,
}

-- What Unicode says of the printable characters of ASCII.
pub record CharsLaws (ch : Chars) : Type 0 where
  pub printable : (c : ℕ) → 32 ≤ c → c < 127 → ch.is_control c ≡ false
  pub visible : (c : ℕ) → 32 < c → c < 127 → ch.is_whitespace c ≡ false

module _ (ch : Chars) where
  abbrev pub Clean : Text → Type 0
  Clean s = All (λ c. is_unsafe ch c ≡ false) s

  -- A single component of a path, of a length that file systems allow, which no system treats as
  -- another name or as a device.
  pub record IsSafe (name : Text) : Type 0 where
    pub clean : Clean name
    pub named : is_empty name ≡ false
    pub not_here : name ≢ codes "."
    pub not_parent : name ≢ codes ".."
    pub ends_well : trim_end_by is_tail name ≡ name
    pub unreserved : is_windows_reserved ch name ≡ false
    pub short : bytes name ≤ 201

  -- What the steps up to the last keep.
  abbrev Tidy : Text → Type 0
  Tidy s = Clean s × (trim_end_by is_tail s ≡ s) × (bytes s ≤ 200)
