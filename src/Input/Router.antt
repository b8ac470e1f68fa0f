-- ===== src/Input/Router.antt =====
-- host/src/input/mod.rs: `apply`, `release_all`, `coalesce_pointer_move` and `router_loop`. What the
-- code does to the injector is the list of the calls that it makes.
use rcdesk.Common.{
  ℕ, zero, suc, String, Option, none, some, Bool, true, false, List, [], ◌∷◌, ◌++◌, map, keep, not,
  if◌then◌else◌, ltb, ◌==◌, any, nat_test, HasTest,
}
use Prim.Native.String.{len}
use rcdesk.Input.{PointerButton, button_test}
use rcdesk.Input.Pixels.{ℤ, pos, negsuc, Reals, CaptureRect, to_pixel}

-- A call of a method of `Injector`.
pub data Call : Type 0 where
  pointer_move : ℤ → ℤ → Call
  button : PointerButton → Bool → Call
  wheel : ℤ → ℤ → Call
  key : ℕ → Bool → Call
  text : String → Call

-- `pressed_keys` and `pressed_buttons`; a `HashSet` is a list, in the order in which it is drained.
pub record Pressed : Type 0 where
  pub keys : List ℕ
  pub buttons : List PointerButton

abbrev pub nothing_pressed : Pressed
nothing_pressed = record { keys = []; buttons = [] }

abbrev pub max_text_bytes : ℕ
max_text_bytes = 4096

-- `MAX_WHEEL_STEP` and its negative
abbrev pub max_wheel_step : ℤ
max_wheel_step = pos 100

abbrev pub min_wheel_step : ℤ
min_wheel_step = negsuc 99

module _ {ℓ} {A : Type ℓ} ⦃e : HasTest A⦄ where
  abbrev pub has : A → List A → Bool
  has x xs = any (λ y. y == x) xs

  -- `HashSet::insert`, `HashSet::remove`
  unfoldable pub set_insert : A → List A → List A
  set_insert x xs = if has x xs then xs else x ∷ xs

  unfoldable pub set_remove : A → List A → List A
  set_remove x xs = keep (λ y. not (y == x)) xs

unfoldable pub press_key : ℕ → Bool → Pressed → Pressed
unfolding set_insert set_remove
press_key k pressed p = record p {
  keys = if pressed then set_insert k p.keys else set_remove k p.keys;
}

unfoldable pub press_button : PointerButton → Bool → Pressed → Pressed
unfolding set_insert set_remove
press_button b pressed p = record p {
  buttons = if pressed then set_insert b p.buttons else set_remove b p.buttons;
}

-- A key that the system does not have is passed over.
unfoldable pub apply_key : Option ℕ → Bool → Pressed → List Call × Pressed
unfolding press_key
apply_key none pressed p = ([], p)
apply_key (some keycode) pressed p = (key keycode pressed ∷ [], press_key keycode pressed p)

unfoldable pub release_all : Pressed → List Call × Pressed
release_all p =
    (map (λ k. key k false) p.keys ++ map (λ b. button b false) p.buttons, nothing_pressed)

-- The calls of one round, and those of the rounds after it.
abbrev pub after_calls : List Call → Option (List Call × Pressed) → Option (List Call × Pressed)
after_calls calls none = none
after_calls calls (some (rest, end)) = some (calls ++ rest, end)

module _ (r : Reals) where
  -- `proto::input::InputMessage`
  pub data InputMessage : Type 0 where
    pointer_moved : r.F → r.F → InputMessage
    pointer_button : PointerButton → Bool → r.F → r.F → InputMessage
    wheeled : r.F → r.F → r.F → r.F → InputMessage
    key_event : String → Bool → InputMessage
    release : InputMessage
    clipboard_text : String → InputMessage
    text_typed : String → InputMessage

  -- `dx.round().clamp(-step, step) as i32`
  unfoldable pub wheel_step : r.F → ℤ
  wheel_step d =
      let lo = r.from_int min_wheel_step in
      let hi = r.from_int max_wheel_step in
      let x = r.round d in r.to_i32 (if r.lt x lo then lo else if r.lt hi x then hi else x)

  abbrev pub move_to : r.F → r.F → CaptureRect → Call
  move_to x y rect = let (px, py) = to_pixel r x y rect in pointer_move px py

  -- The table of keys is the system's.
  module _ (to_keycode : String → Option ℕ) where
    unfoldable pub apply : InputMessage → Pressed → CaptureRect → List Call × Pressed
    unfolding wheel_step apply_key press_button release_all
    apply (pointer_moved x y) p rect = (move_to x y rect ∷ [], p)
    apply (pointer_button b pressed x y) p rect =
        (move_to x y rect ∷ button b pressed ∷ [], press_button b pressed p)
    apply (wheeled dx dy x y) p rect =
        (move_to x y rect ∷ wheel (wheel_step dx) (wheel_step dy) ∷ [], p)
    apply (key_event code pressed) p rect = apply_key (to_keycode code) pressed p
    apply release p rect = release_all p
    apply (text_typed s) p rect = if ltb max_text_bytes (len s) then ([], p) else (text s ∷ [], p)
    apply (clipboard_text s) p rect = ([], p)

    -- What reaches the router's queue: a message, and whether it is there when `try_recv` asks.
    abbrev pub Arrival : Type 0
    Arrival = InputMessage × Bool

    -- The message to apply, the one that was taken off beyond it, and the queue.
    unfoldable pub drain_moves :
        InputMessage → List Arrival → InputMessage × Option InputMessage × List Arrival
    drain_moves latest [] = (latest, none, [])
    drain_moves latest ((msg, false) ∷ rx) = (latest, none, (msg, false) ∷ rx)
    drain_moves latest ((pointer_moved x y, true) ∷ rx) = drain_moves (pointer_moved x y) rx
    drain_moves latest ((other, true) ∷ rx) = (latest, some other, rx)

    unfoldable pub coalesce_pointer_move :
        InputMessage → List Arrival → InputMessage × Option InputMessage × List Arrival
    unfolding drain_moves
    coalesce_pointer_move (pointer_moved x y) rx = drain_moves (pointer_moved x y) rx
    coalesce_pointer_move first rx = (first, none, rx)

    -- The next message of the loop: `pending.take()`, or `rx.recv()`.
    abbrev pub next_message :
        Option InputMessage → List Arrival → Option (InputMessage × List Arrival)
    next_message (some msg) rx = some (msg, rx)
    next_message none [] = none
    next_message none ((msg, queued) ∷ rx) = some (msg, rx)

    -- The loop, until the queue is closed and empty; each round reads the rectangle afresh. `none` is
    -- that the fuel ran out.
    unfoldable pub router_loop :
        ℕ
        → (ℕ → CaptureRect)
        → Option InputMessage
        → List Arrival
        → Pressed
        → Option (List Call × Pressed)
    unfolding apply release_all coalesce_pointer_move
    router_loop zero rects pending rx p = none
    router_loop (suc fuel) rects pending rx p = elim (next_message pending rx) [
      | none ↦ some (release_all p)
      | some (first, queue) ↦
          let (msg, pending', rx') = coalesce_pointer_move first queue in
          let (calls, p') = apply msg p (rects fuel) in
          after_calls calls (router_loop fuel rects pending' rx' p')
    ]
