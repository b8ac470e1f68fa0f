-- ===== src/Wake/Cards.antt =====
-- server/src/wake.rs: which network cards of a host are taken, and in which form.
use Prim.Native.String.{char_at}
use rcdesk.Common.{
  ℕ, zero, suc, ◌+◌, ◌-◌, ◌*◌, ◌/◌, ◌%◌, String, Option, none, some, Bool, not, ◌&&◌, ◌||◌,
  if◌then◌else◌, leb, List, [], ◌∷◌, ◌==◌, nat_test,
}
use rcdesk.Files.Names.{Text, codes}
use rcdesk.Wake.{NetIface, Ipv4}

abbrev pub max_ifaces : ℕ
max_ifaces = 8

abbrev pub is_between : ℕ → ℕ → ℕ → Bool
is_between lo hi n = leb lo n && leb n hi

-- A hexadecimal digit's value.
unfoldable pub hex_value : ℕ → Option ℕ
hex_value c =
    if is_between 0x30 0x39 c
    then some (c - 0x30)
    else if is_between 0x61 0x66 c
    then some (c - 0x57)
    else if is_between 0x41 0x46 c
    then some (c - 0x37)
    else none

abbrev pub is_mac_separator : ℕ → Bool
is_mac_separator c = (c == b':') || (c == b'-')

abbrev pub grow_part : ℕ → List Text → List Text
grow_part c [] = (c ∷ []) ∷ []
grow_part c (part ∷ parts) = (c ∷ part) ∷ parts

-- `split([':', '-'])`
unfoldable pub mac_parts : Text → List Text
mac_parts [] = [] ∷ []
mac_parts (c ∷ s) =
    let rest = mac_parts s in if is_mac_separator c then [] ∷ rest else grow_part c rest

abbrev pub from_digits : Option ℕ → Option ℕ → Option ℕ
from_digits (some a) (some b) = some (16 * a + b)
from_digits a b = none

-- A part of two hexadecimal digits.
unfoldable pub octet : Text → Option ℕ
unfolding hex_value
octet (a ∷ b ∷ []) = from_digits (hex_value a) (hex_value b)
octet part = none

pub record Mac : Type 0 where
  pub o₁ : ℕ
  pub o₂ : ℕ
  pub o₃ : ℕ
  pub o₄ : ℕ
  pub o₅ : ℕ
  pub o₆ : ℕ

abbrev pub six : Option ℕ → Option ℕ → Option ℕ → Option ℕ → Option ℕ → Option ℕ → Option Mac
six (some a) (some b) (some c) (some d) (some e) (some f) =
    some (record { o₁ = a; o₂ = b; o₃ = c; o₄ = d; o₅ = e; o₆ = f })
six a b c d e f = none

unfoldable pub octets : List Text → Option Mac
unfolding octet
octets (a ∷ b ∷ c ∷ d ∷ e ∷ f ∷ []) =
    six (octet a) (octet b) (octet c) (octet d) (octet e) (octet f)
octets parts = none

abbrev pub all_are : ℕ → Mac → Bool
all_are n m =
    (m.o₁ == n) && ((m.o₂ == n) && ((m.o₃ == n) && ((m.o₄ == n) && ((m.o₅ == n) && (m.o₆ == n)))))

-- Not the zero address, the broadcast address or a multicast address.
unfoldable pub names_card : Mac → Bool
names_card m = not (all_are 0 m || (all_are 255 m || (m.o₁ % 2 == 1)))

-- `{:02x}`, before the rest.
unfoldable pub show_octet : ℕ → String → String
show_octet n rest =
    String.◌∷◌ (char_at "0123456789abcdef" (n / 16))
      (String.◌∷◌ (char_at "0123456789abcdef" (n % 16)) rest)

abbrev pub colon : String → String
colon rest = String.◌∷◌ (char_at ":" 0) rest

unfoldable pub show_mac : Mac → String
unfolding show_octet
show_mac m = show_octet m.o₁ (
    colon (
      show_octet m.o₂ (
        colon (
          show_octet m.o₃
            (colon (show_octet m.o₄ (colon (show_octet m.o₅ (colon (show_octet m.o₆ ""))))))))))

unfoldable pub mac_of : Option Mac → Option String
unfolding names_card show_mac
mac_of none = none
mac_of (some m) = if names_card m then some (show_mac m) else none

-- `trim` is a parameter.
module _ (trim : String → String) where
  unfoldable pub normalize_mac : String → Option String
  unfolding mac_parts octets mac_of
  normalize_mac raw = mac_of (octets (mac_parts (codes (trim raw))))

-- `is_loopback`, `is_unspecified`, `is_link_local`, `is_multicast`, `is_broadcast`
abbrev pub is_unusable : ℕ → Bool
is_unusable a =
    (a / 16_777_216 == 127)
    || ((a == 0)
        || ((a / 65536 == 43518) || (is_between 224 239 (a / 16_777_216) || (a == 4_294_967_295))))

module _ (trim : String → String) (ip : Ipv4) where
  unfoldable pub checked_card : NetIface → Option String → Option ℕ → Option NetIface
  checked_card iface (some mac) (some addr) =
      if is_unusable addr || not (is_between 8 30 iface.prefix)
      then none
      else some (record { mac = mac; ipv4 = ip.show addr; prefix = iface.prefix })
  checked_card iface mac addr = none

  abbrev pub push_card : Option NetIface → List NetIface → List NetIface
  push_card none out = out
  push_card (some card) out = card ∷ out

  -- The cards of the first `n`.
  unfoldable pub valid_cards : ℕ → List NetIface → List NetIface
  unfolding normalize_mac checked_card
  valid_cards zero raw = []
  valid_cards (suc n) [] = []
  valid_cards (suc n) (iface ∷ raw) =
      push_card (checked_card iface (normalize_mac trim iface.mac) (ip.parse (trim iface.ipv4)))
        (valid_cards n raw)

  unfoldable pub validate_ifaces : List NetIface → List NetIface
  unfolding valid_cards
  validate_ifaces raw = valid_cards max_ifaces raw
