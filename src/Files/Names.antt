-- ===== src/Files/Names.antt =====
-- host/src/files/mod.rs: `sanitize_file_name`, `with_suffix` and `split_dir`, on code points.
use Prim.Native.Char.{code}
use Prim.Native.String.{String}
use rcdesk.Common.{
  ℕ, zero, suc, ◌+◌, ◌-◌, ◌/◌, ◌%◌, Option, none, some, Bool, true, false, not, ◌&&◌, ◌||◌, List,
  [], ◌∷◌, ◌++◌, map, keep, any, if◌then◌else◌, ltb, leb, ◌==◌, nat_test, length, ◌≡◌, ◌↔◌, refl,
  arith,
}

abbrev pub Text : Type 0
Text = List ℕ

-- The code points of a literal.
abbrev pub codes : String → Text
codes String.[] = []
codes (String.◌∷◌ c s) = code c ∷ codes s

-- `char::is_control` and `char::is_whitespace`, a parameter.
pub record Chars : Type 0 where
  pub is_control : ℕ → Bool
  pub is_whitespace : ℕ → Bool

abbrev pub max_name_bytes : ℕ
max_name_bytes = 200

abbrev pub max_kept_ext_bytes : ℕ
max_kept_ext_bytes = 20

abbrev pub max_dir_components : ℕ
max_dir_components = 32

-- `char::len_utf8`
abbrev pub len_utf8 : ℕ → ℕ
len_utf8 c = if ltb c 0x80 then 1 else if ltb c 0x800 then 2 else if ltb c 0x10000 then 3 else 4

-- `str::len`
abbrev pub bytes : Text → ℕ
bytes [] = 0
bytes (c ∷ s) = len_utf8 c + bytes s

abbrev pub is_empty : Text → Bool
is_empty [] = true
is_empty (c ∷ s) = false

abbrev pub same_text : Text → Text → Bool
same_text [] [] = true
same_text (c ∷ s) (d ∷ t) = (c == d) && same_text s t
same_text s t = false

pub same_text_iff : (s t : Text) → (same_text s t ≡ true) ↔ (s ≡ t)
same_text_iff [] [] = (λ e. refl, λ e. refl)
same_text_iff [] (d ∷ t) = (λ e. ground arith, λ e. ground arith)
same_text_iff (c ∷ s) [] = (λ e. ground arith, λ e. ground arith)
same_text_iff (c ∷ s) (d ∷ t) =
    (λ e. ground (arith, same_text_iff s t), λ e. ground (arith, same_text_iff s t))

abbrev pub is_separator : ℕ → Bool
is_separator c = (c == b'/') || (c == 0x5c)

-- `trim_end_matches`
unfoldable pub trim_end_by : (ℕ → Bool) → Text → Text
trim_end_by p [] = []
trim_end_by p (c ∷ s) = let rest = trim_end_by p s in if p c && is_empty rest then [] else c ∷ rest

abbrev pub is_tail : ℕ → Bool
is_tail c = (c == b'.') || (c == 0x20)

unfoldable pub trim_tail : Text → Text
unfolding trim_end_by
trim_tail s = trim_end_by is_tail s

unfoldable pub is_bidi_format : ℕ → Bool
is_bidi_format c =
    (c == 0x200e)
    || (c == 0x200f)
    || (leb 0x202a c && leb c 0x202e)
    || (leb 0x2066 c && leb c 0x2069)
    || (c == 0x61c)

-- `< > : " / \ | ? *`
unfoldable pub is_forbidden : ℕ → Bool
is_forbidden c =
    (c == 0x3c)
    || (c == 0x3e)
    || (c == 0x3a)
    || (c == 0x22)
    || (c == 0x2f)
    || (c == 0x5c)
    || (c == 0x7c)
    || (c == 0x3f)
    || (c == 0x2a)

-- `rsplit(['/', '\\']).next()`
unfoldable pub after_separator : Text → Text
after_separator [] = []
after_separator (c ∷ s) =
    let rest = after_separator s in
    if any is_separator s then rest else if is_separator c then s else c ∷ s

-- From the last dot on, if there is one.
unfoldable pub from_dot : Text → Text
from_dot [] = []
from_dot (c ∷ s) =
    let rest = from_dot s in if is_empty rest then (if c == b'.' then c ∷ s else []) else rest

-- The extension: from the last dot on, where that is not the first character.
unfoldable pub extension : Text → Text
unfolding from_dot
extension [] = []
extension (c ∷ s) = from_dot s

-- The longest start that has so many bytes at most: `s[..cut]` at a character's boundary.
unfoldable pub take_bytes : ℕ → Text → Text
take_bytes n [] = []
take_bytes n (c ∷ s) =
    let rest = take_bytes (n - len_utf8 c) s in if leb (len_utf8 c) n then c ∷ rest else []

unfoldable pub kept_extension : Text → Text
unfolding extension
kept_extension name = if leb (bytes (extension name)) max_kept_ext_bytes then extension name else []

unfoldable pub truncated : Text → Text
unfolding kept_extension take_bytes trim_tail
truncated name =
    let ext = kept_extension name in
    let stem = take_bytes (max_name_bytes - bytes ext) (take_bytes (bytes name - bytes ext) name) in
    if ltb max_name_bytes (bytes name) then trim_tail stem ++ ext else name

-- `split('.').next()`
unfoldable pub before_dot : Text → Text
before_dot [] = []
before_dot (c ∷ s) = if c == b'.' then [] else c ∷ before_dot s

abbrev pub upper : ℕ → ℕ
upper c = if leb b'a' c && leb c b'z' then c - 32 else c

-- Three letters and a digit from 1 on.
unfoldable pub is_port : Text → Text → Bool
is_port prefix (a ∷ b ∷ c ∷ d ∷ []) = same_text (a ∷ b ∷ c ∷ []) prefix && leb b'1' d && leb d b'9'
is_port prefix other = false

module _ (ch : Chars) where
  unfoldable pub is_windows_reserved : Text → Bool
  unfolding before_dot trim_end_by is_port
  is_windows_reserved name =
      let u = map upper (trim_end_by ch.is_whitespace (before_dot name)) in
      same_text u (codes "CON")
      || same_text u (codes "PRN")
      || same_text u (codes "AUX")
      || same_text u (codes "NUL")
      || is_port (codes "COM") u
      || is_port (codes "LPT") u

  unfoldable pub is_unsafe : ℕ → Bool
  unfolding is_bidi_format is_forbidden
  is_unsafe c = ch.is_control c || is_bidi_format c || is_forbidden c

  unfoldable pub replaced : Text → Text
  unfolding is_unsafe
  replaced s = map (λ c. if is_unsafe c then b'_' else c) s

  -- A name that is none is replaced.
  unfoldable pub or_file : Text → Text
  or_file name =
      if is_empty name || same_text name (codes ".") || same_text name (codes "..")
      then codes "file"
      else name

  unfoldable pub not_reserved : Text → Text
  unfolding is_windows_reserved
  not_reserved name = if is_windows_reserved name then b'_' ∷ name else name

  unfoldable pub sanitize_file_name : Text → Text
  unfolding after_separator replaced trim_tail truncated or_file not_reserved
  sanitize_file_name raw =
      not_reserved (or_file (truncated (trim_tail (replaced (after_separator raw)))))

  -- `split(['/', '\\'])`
  unfoldable pub components : Text → List Text
  components [] = [] ∷ []
  components (c ∷ s) = elim (components s) [
    | [] ↦ (c ∷ []) ∷ []
    | part ∷ rest ↦ if is_separator c then [] ∷ part ∷ rest else (c ∷ part) ∷ rest
  ]

  unfoldable pub split_dir : Text → Option (List Text)
  unfolding components sanitize_file_name
  split_dir dir =
      let comps =
        map sanitize_file_name
          (keep (λ c. not (is_empty c) && not (same_text c (codes "."))) (components dir)) in
      if not (leb (length comps) 0) && leb (length comps) max_dir_components
      then some comps
      else none

-- A number as decimal digits.
unfoldable pub decimal : ℕ → ℕ → Text
decimal zero n = []
decimal (suc fuel) n =
    let rest = decimal fuel (n / 10) in
    if ltb n 10 then (b'0' + n) ∷ [] else rest ++ ((b'0' + n % 10) ∷ [])

-- `name.ext` to `name (n).ext`; the extension takes the whole of `rfind`.
unfoldable pub with_suffix : Text → ℕ → Text
unfolding decimal extension take_bytes
with_suffix name n =
    let ext = extension name in
    let stem = take_bytes (bytes name - bytes ext) name in
    if n == 0 then name else stem ++ (codes " (" ++ (decimal (n + 1) n ++ (codes ")" ++ ext)))
