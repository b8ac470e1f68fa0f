-- ===== src/Input.antt =====
-- host/src/input/mod.rs and keymap.rs: the host's mouse and keyboard. This file has the data; the
-- operations are in Keymap, Pixels, Router and Limits, the proofs below Input/Laws.
pub mod Keymap
pub mod Pixels
pub mod Router
pub mod Limits
pub mod Laws
use rcdesk.Common.{
  ℕ, zero, suc, String, Bool, true, false, ◌≡◌, ◌↔◌, refl, sym, ap, ◌∙◌, nat_beq, nat_beq_iff,
  HasTest,
}

-- `proto::input::PointerButton`
pub data PointerButton : Type 0 where
  left middle right back forward : PointerButton

abbrev pub button_number : PointerButton → ℕ
button_number left = 0
button_number middle = 1
button_number right = 2
button_number back = 3
button_number forward = 4

abbrev button_of : ℕ → PointerButton
button_of zero = left
button_of (suc zero) = middle
button_of (suc (suc zero)) = right
button_of (suc (suc (suc zero))) = back
button_of n = forward

button_of-button_number : (b : PointerButton) → button_of (button_number b) ≡ b
button_of-button_number left = refl
button_of-button_number middle = refl
button_of-button_number right = refl
button_of-button_number back = refl
button_of-button_number forward = refl

abbrev pub same_button : PointerButton → PointerButton → Bool
same_button a b = nat_beq (button_number a) (button_number b)

pub same_button_iff : (a b : PointerButton) → (same_button a b ≡ true) ↔ (a ≡ b)
same_button_iff a b = (
  λ h.
      sym (button_of-button_number a)
      ∙ ap button_of ((nat_beq_iff (button_number a) (button_number b)).0 h)
      ∙ button_of-button_number b,
  λ e. (nat_beq_iff (button_number a) (button_number b)).1 (ap button_number e),
)

instance abbrev pub button_test : HasTest PointerButton
button_test = record { test = same_button; test_iff = same_button_iff }
