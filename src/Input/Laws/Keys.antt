-- ===== src/Input/Laws/Keys.antt =====
-- host/src/input/keymap.rs: two keys of the browser are two keys of the host.
use rcdesk.Common.{
  ℕ, String, some, Bool, true, [], ◌∷◌, ◌&&◌, not, any, ◌==◌, ==_iff, string_test, nat_test, ◌≡◌,
  refl, arith,
}
use rcdesk.Assoc.{Assoc, get}
use rcdesk.Input.Keymap.{System, macos, windows, other, to_keycode, macos_keys, windows_keys}

-- Some entry has the code.
abbrev has_code : ℕ → Assoc String ℕ → Bool
has_code k m = any (λ e. e.1 == k) m

abbrev distinct : Assoc String ℕ → Bool
distinct [] = true
distinct ((c, k) ∷ m) = not (has_code k m) && distinct m

get-has_code : (c : String) (k : ℕ) (m : Assoc String ℕ) → get c m ≡ some k → has_code k m ≡ true
unfolding get
get-has_code c k [] e = ground arith
get-has_code c k ((d, j) ∷ m) e = ground (arith, get-has_code c k m)

get_injective :
    (a b : String) (k : ℕ) (m : Assoc String ℕ)
    → distinct m ≡ true
    → get a m ≡ some k
    → get b m ≡ some k
    → a ≡ b
unfolding get
get_injective a b k [] d p q = ground arith
get_injective a b k ((c, j) ∷ m) d p q =
    ground
      (arith, ==_iff c a, ==_iff c b, get-has_code a k m, get-has_code b k m, get_injective a b k m)

macos_distinct : distinct macos_keys ≡ true
macos_distinct = refl

windows_distinct : distinct windows_keys ≡ true
windows_distinct = refl

-- Two keys of the browser to which a system gives the same code are one key.
pub to_keycode_injective :
    (system : System) (a b : String) (k : ℕ)
    → to_keycode system a ≡ some k
    → to_keycode system b ≡ some k
    → a ≡ b
unfolding to_keycode
to_keycode_injective macos a b k p q = get_injective a b k macos_keys macos_distinct p q
to_keycode_injective windows a b k p q = get_injective a b k windows_keys windows_distinct p q
to_keycode_injective other a b k p q = ground arith
