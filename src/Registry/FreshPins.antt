-- ===== src/Registry/FreshPins.antt =====
-- server/src/registry.rs, `unique_pin` and `random_pin`: the loop ends, and what it hands out.
use Prim.Native.Char.{code}
use Prim.Native.String.{char_at}
use mathlib.Core.Path.{subst}
use rcdesk.Common.{
  string_test, ℕ, suc, ◌≤◌, ◌<◌, String, List, [], ◌∷◌, none, Bool, true, ◌&&◌, ◌≡◌, ◌≢◌, refl,
  arith, ==_iff, leb, is_some, Option-cases, Bool-cases, inl, inr, length, All, ◌⊎◌, zero, ◌==◌,
}
use rcdesk.Assoc.{get, remove, get-remove, length-remove-le}
use rcdesk.Registry.{PinMap}
use rcdesk.Registry.Draws.{Draws, done, Ensures, random_pin, digit_chars, pin_len}
use rcdesk.Registry.Pins.{unique_pin}

-- No two draws make the same PIN.
abbrev pub Distinct : Draws → Type 0
Distinct [] = Unit
Distinct (d ∷ ds) = All (λ d'. random_pin d ≢ random_pin d') ds × Distinct ds

abbrev Used : PinMap → Draws → Type 0
Used pins = All (λ d. is_some (get (random_pin d) pins) ≡ true)

length-remove-lt :
    (k : String) (pins : PinMap)
    → is_some (get k pins) ≡ true
    → length (remove k pins) < length pins
unfolding get remove
length-remove-lt k [] t = cc
length-remove-lt k ((j, h) ∷ pins) t = elim (Bool-cases (j == k)) [
  | inl e ↦ rw e (omega (arith, length-remove-le k pins))
  | inr n ↦ rw n (omega (arith, length-remove-lt k pins (ground arith)))
]

remove-Used :
    (k : String) (pins : PinMap) (ds : Draws)
    → All (λ d'. k ≢ random_pin d') ds
    → Used pins ds
    → Used (remove k pins) ds
remove-Used k pins [] apart used = tt
remove-Used k pins (d ∷ ds) apart used = (
  ground (arith, get-remove (random_pin d) k pins, ==_iff k (random_pin d), apart.0, used.0),
  remove-Used k pins ds apart.1 used.1,
)

-- Distinct PINs that are all taken are no more than the index holds.
pigeonhole : (ds : Draws) (pins : PinMap) → Distinct ds → Used pins ds → length ds ≤ length pins
pigeonhole [] pins distinct used = omega arith
pigeonhole (d ∷ ds) pins distinct used = omega (
  arith,
  length-remove-lt (random_pin d) pins used.0,
  pigeonhole ds (remove (random_pin d) pins) distinct.1
      (remove-Used (random_pin d) pins ds distinct.0 used.1),
)

unique_pin_cases :
    (ds : Draws) (pins : PinMap)
    → Used pins ds ⊎ ((out : String × Draws) × (unique_pin pins ds ≡ done out))
unfolding unique_pin
unique_pin_cases [] pins = inl tt
unique_pin_cases (d ∷ ds) pins = elim (Option-cases (get (random_pin d) pins)) [
  | inl a ↦ inr ((random_pin d, ds), rw a)
  | inr (h, a) ↦ elim (unique_pin_cases ds pins) [
    | inl used ↦ inl (rw a refl, used)
    | inr (out, e) ↦ inr (out, rw a e)
  ]
]

-- `unique_pin` ends: among more distinct draws than there are PINs in use one is free.
pub unique_pin_total :
    (ds : Draws) (pins : PinMap)
    → Distinct ds
    → length pins < length ds
    → (out : String × Draws) × (unique_pin pins ds ≡ done out)
unique_pin_total ds pins distinct more = elim (unique_pin_cases ds pins) [
  | inl used ↦ absurd (omega (arith, pigeonhole ds pins distinct used))
  | inr found ↦ found
]

pub is_digit : ℕ → Bool
is_digit c = leb b'0' c && leb c b'9'

-- A text of so many digits.
abbrev pub IsDigits : ℕ → String → Type 0
IsDigits zero String.[] = Unit
IsDigits zero (String.◌∷◌ c s) = ⊥
IsDigits (suc n) String.[] = ⊥
IsDigits (suc n) (String.◌∷◌ c s) = (is_digit (code c) ≡ true) × IsDigits n s

digit_table : (i : ℕ) → i < 10 → is_digit (code (char_at digit_chars i)) ≡ true
unfolding is_digit
digit_table zero h = refl
digit_table (suc zero) h = refl
digit_table (suc (suc zero)) h = refl
digit_table (suc (suc (suc zero))) h = refl
digit_table (suc (suc (suc (suc zero)))) h = refl
digit_table (suc (suc (suc (suc (suc zero))))) h = refl
digit_table (suc (suc (suc (suc (suc (suc zero)))))) h = refl
digit_table (suc (suc (suc (suc (suc (suc (suc zero))))))) h = refl
digit_table (suc (suc (suc (suc (suc (suc (suc (suc zero)))))))) h = refl
digit_table (suc (suc (suc (suc (suc (suc (suc (suc (suc zero))))))))) h = refl
digit_table (suc (suc (suc (suc (suc (suc (suc (suc (suc (suc i)))))))))) h = absurd (omega arith)

-- Draws as `random_range(0..10)` gives them, `PIN_LEN` for a PIN.
abbrev pub PinDraw : List ℕ → Type 0
PinDraw d = All (λ i. i < 10) d × (length d ≡ pin_len)

random_pin-IsDigits : (d : List ℕ) → All (λ i. i < 10) d → IsDigits (length d) (random_pin d)
unfolding random_pin
random_pin-IsDigits [] small = tt
random_pin-IsDigits (i ∷ d) small = (digit_table i small.0, random_pin-IsDigits d small.1)

-- The PIN that `unique_pin` hands out is no host's, and is `PIN_LEN` digits.
unique_pin_lem :
    (pins : PinMap) (ds : Draws)
    → All PinDraw ds
    → Ensures (λ out. (get out.0 pins ≡ none) × IsDigits pin_len out.0) (unique_pin pins ds)
unfolding unique_pin
unique_pin_lem pins [] good = tt
unique_pin_lem pins (d ∷ ds) good = elim (Option-cases (get (random_pin d) pins)) [
  | inl a ↦
      rw a
        (a, subst (λ (n : ℕ). IsDigits n (random_pin d)) good.0.1 (random_pin-IsDigits d good.0.0))
  | inr (h, a) ↦ rw a (unique_pin_lem pins ds good.1)
]
