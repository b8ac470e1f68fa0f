-- ===== src/Tests/Input.antt =====
-- host/src/input, with fractions in place of the floats.
use rcdesk.Common.{
  ℕ, ◌+◌, ◌-◌, ◌*◌, ◌/◌, ◌≤◌, String, none, some, true, false, List, [], ◌∷◌, ltb, ◌≡◌, refl, arith,
}
use rcdesk.Assoc.{get}
use rcdesk.Registry.{nanos_per_sec}
use rcdesk.Input.{PointerButton, left}
use rcdesk.Input.Pixels.{ℤ, pos, negsuc, Reals, CaptureRect, to_pixel}
use rcdesk.Input.Keymap.{macos, windows, to_keycode, scan_parts}
use rcdesk.Input.Router.{
  Call, pointer_move, button, key, Pressed, nothing_pressed, pointer_moved, pointer_button,
  key_event, Arrival, router_loop,
}
use rcdesk.Input.Limits.{new_bucket}
use rcdesk.Input.Laws.Held.{key_down, button_down, router_loop_lem}
use rcdesk.Input.Laws.Keys.{to_keycode_injective}
use rcdesk.Input.Laws.Rate.{taken, taken_bound}

abbrev whole : ℤ → ℕ
whole (pos n) = n
whole (negsuc n) = 0

-- Fractions in thousandths that are not negative.
abbrev fractions : Reals
fractions = record {
  F = ℕ;
  from_int = λ n. 1000 * whole n;
  mul = λ a b. a * b / 1000;
  round = λ a. (a + 500) / 1000 * 1000;
  lt = ltb;
  to_i32 = λ a. pos (a / 1000);
}

abbrev full_hd : ℕ → CaptureRect
full_hd n = record { x = pos 0; y = pos 0; width = pos 1920; height = pos 1080 }

-- Two moves at once, a click that is never let go, and a key that is not either.
abbrev session : List (Arrival fractions (to_keycode macos))
session =
    (pointer_moved 100 100, true)
    ∷ (pointer_moved 500 500, true)
    ∷ (pointer_button left true 500 1000, true)
    ∷ (key_event "KeyS" true, false)
    ∷ []

router_loop_example :
    (out : List Call × Pressed) × (router_loop fractions
        (to_keycode macos)
        5
        full_hd
        none
        session
        nothing_pressed
      ≡ some out)
    × ((k : ℕ) → key_down k false (out.0) ≡ false)
    × ((b : PointerButton) → button_down b false (out.0) ≡ false)
router_loop_example = router_loop_lem fractions (to_keycode macos) 5 full_hd session (omega arith)

router_run :
    router_loop fractions (to_keycode macos) 5 full_hd none session nothing_pressed
    ≡ some (
      pointer_move (pos 960) (pos 540)
          ∷ pointer_move (pos 960) (pos 1079)
          ∷ button left true
          ∷ key 1 true
          ∷ key 1 false
          ∷ button left false
          ∷ [],
      nothing_pressed,
    )
unfolding router_loop to_keycode to_pixel get
router_run = refl

to_keycode_injective_example : ◌≡◌ {A = String} "NumpadEnter" "NumpadEnter"
unfolding to_keycode get
to_keycode_injective_example =
    to_keycode_injective windows "NumpadEnter" "NumpadEnter" 0xe01c refl refl

extended : scan_parts 0xe01c ≡ (0x1c, true)
unfolding scan_parts
extended = refl

taken_bound_example :
    let (total, end) = taken (new_bucket 2 1 0) ((2, 0) ∷ (1, 5) ∷ (1, 1_000_000_000) ∷ []) in
    total * nanos_per_sec ≤ 2 * nanos_per_sec + (end.last - 0) * 1
taken_bound_example = taken_bound 2 1 0 ((2, 0) ∷ (1, 5) ∷ (1, 1_000_000_000) ∷ [])
