-- ===== src/Input/Laws/Held.antt =====
-- host/src/input/mod.rs: the sets of held keys and buttons are what the injector holds down, and the
-- router lets all of it go when it ends.
use rcdesk.Common.{
  ℕ, zero, suc, ◌+◌, ◌≤◌, ◌<◌, ltb, String, Option, none, some, Bool, true, false, List, [], ◌∷◌,
  ◌++◌, map, not, ◌&&◌, ◌||◌, if◌then◌else◌, ◌==◌, ==_iff, nat_test, HasTest, length, ◌≡◌, refl, ap,
  ◌∙◌, inl, inr, arith, Bool-cases,
}
use Prim.Native.String.{len}
use rcdesk.Input.{PointerButton, button_test}
use rcdesk.Input.Pixels.{Reals, CaptureRect}
use rcdesk.Input.Router.{
  Call, pointer_move, button, wheel, key, text, Pressed, nothing_pressed, has, set_insert,
  set_remove, press_key, press_button, apply_key, after_calls, move_to, release_all, InputMessage,
  pointer_moved, pointer_button, wheeled, key_event, release, clipboard_text, text_typed, apply,
  max_text_bytes, Arrival, drain_moves, coalesce_pointer_move, router_loop,
}

module _ {ℓ} {A : Type ℓ} ⦃e : HasTest A⦄ where
  has-set_insert : (k x : A) (xs : List A) → has k (set_insert x xs) ≡ (x == k || has k xs)
  unfolding set_insert
  has-set_insert k x xs = elim (Bool-cases (has x xs)) [
    | inl there ↦ rw there (elim (Bool-cases (x == k)) [
      | inl same ↦ rw same (rw (← (==_iff x k).0 same) there)
      | inr other ↦ rw other refl
    ])
    | inr new ↦ rw new refl
  ]

  has-set_remove : (k x : A) (xs : List A) → has k (set_remove x xs) ≡ (not (x == k) && has k xs)
  unfolding set_remove
  has-set_remove k x [] = ground arith
  has-set_remove k x (y ∷ xs) =
      ground (arith, has-set_remove k x xs, ==_iff x k, ==_iff y x, ==_iff y k)

-- Whether a key is down after the calls, from whether it was before them.
abbrev pub key_down : ℕ → Bool → List Call → Bool
key_down k b [] = b
key_down k b (key j pressed ∷ calls) = key_down k (if j == k then pressed else b) calls
key_down k b (call ∷ calls) = key_down k b calls

abbrev pub button_down : PointerButton → Bool → List Call → Bool
button_down k b [] = b
button_down k b (button j pressed ∷ calls) = button_down k (if j == k then pressed else b) calls
button_down k b (call ∷ calls) = button_down k b calls

key_down-append :
    (k : ℕ) (b : Bool) (xs ys : List Call)
    → key_down k b (xs ++ ys) ≡ key_down k (key_down k b xs) ys
key_down-append k b [] ys = refl
key_down-append k b (key j pressed ∷ xs) ys =
    key_down-append k (if j == k then pressed else b) xs ys
key_down-append k b (pointer_move x y ∷ xs) ys = key_down-append k b xs ys
key_down-append k b (button j p ∷ xs) ys = key_down-append k b xs ys
key_down-append k b (wheel x y ∷ xs) ys = key_down-append k b xs ys
key_down-append k b (text s ∷ xs) ys = key_down-append k b xs ys

button_down-append :
    (k : PointerButton) (b : Bool) (xs ys : List Call)
    → button_down k b (xs ++ ys) ≡ button_down k (button_down k b xs) ys
button_down-append k b [] ys = refl
button_down-append k b (button j pressed ∷ xs) ys =
    button_down-append k (if j == k then pressed else b) xs ys
button_down-append k b (pointer_move x y ∷ xs) ys = button_down-append k b xs ys
button_down-append k b (key j p ∷ xs) ys = button_down-append k b xs ys
button_down-append k b (wheel x y ∷ xs) ys = button_down-append k b xs ys
button_down-append k b (text s ∷ xs) ys = button_down-append k b xs ys

key_down-released :
    (k : ℕ) (b : Bool) (keys : List ℕ)
    → key_down k b (map (λ j. key j false) keys) ≡ (if has k keys then false else b)
key_down-released k b [] = refl
key_down-released k b (j ∷ keys) =
    ground (arith, key_down-released k (if j == k then false else b) keys)

key_down-buttons :
    (k : ℕ) (b : Bool) (buttons : List PointerButton)
    → key_down k b (map (λ j. button j false) buttons) ≡ b
key_down-buttons k b [] = refl
key_down-buttons k b (j ∷ buttons) = key_down-buttons k b buttons

button_down-released :
    (k : PointerButton) (b : Bool) (buttons : List PointerButton)
    → button_down k b (map (λ j. button j false) buttons) ≡ (if has k buttons then false else b)
button_down-released k b [] = refl
button_down-released k b (j ∷ buttons) =
    ground (arith, button_down-released k (if j == k then false else b) buttons)

button_down-keys :
    (k : PointerButton) (b : Bool) (keys : List ℕ)
    → button_down k b (map (λ j. key j false) keys) ≡ b
button_down-keys k b [] = refl
button_down-keys k b (j ∷ keys) = button_down-keys k b keys

if_self : (b : Bool) → (if b then false else b) ≡ false
if_self true = refl
if_self false = refl

-- What the injector holds down is what the sets hold, before the calls and after them.
abbrev pub Tracks : Pressed → List Call × Pressed → Type 0
Tracks p (calls, p') =
    ((k : ℕ) → key_down k (has k p.keys) calls ≡ has k p'.keys)
    × ((b : PointerButton) → button_down b (has b p.buttons) calls ≡ has b p'.buttons)

release_all-Tracks : (p : Pressed) → Tracks p (release_all p)
unfolding release_all
release_all-Tracks p = (
  λ k.
      key_down-append k _ (map (λ j. key j false) p.keys) _
      ∙ key_down-buttons k _ p.buttons
      ∙ key_down-released k _ p.keys
      ∙ if_self (has k p.keys),
  λ b.
      button_down-append b _ (map (λ j. key j false) p.keys) _
      ∙ ap (λ d. button_down b d (map (λ j. button j false) p.buttons))
          (button_down-keys b (has b p.buttons) p.keys)
      ∙ button_down-released b _ p.buttons
      ∙ if_self (has b p.buttons),
)

press_key-Tracks :
    (k : ℕ) (pressed : Bool) (p : Pressed) → Tracks p (key k pressed ∷ [], press_key k pressed p)
unfolding press_key
press_key-Tracks k true p = (λ j. ground (arith, has-set_insert j k p.keys), λ b. refl)
press_key-Tracks k false p = (λ j. ground (arith, has-set_remove j k p.keys), λ b. refl)

press_button-Tracks :
    (c : Call) (b : PointerButton) (pressed : Bool) (p : Pressed)
    → ((k : ℕ) (d : Bool) (calls : List Call) → key_down k d (c ∷ calls) ≡ key_down k d calls)
    → ((k : PointerButton) (d : Bool) (calls : List Call)
        → button_down k d (c ∷ calls) ≡ button_down k d calls)
    → Tracks p (c ∷ button b pressed ∷ [], press_button b pressed p)
unfolding press_button
press_button-Tracks c b true p keys buttons =
    (λ k. keys k _ _, λ j. buttons j _ _ ∙ ground (arith, has-set_insert j b p.buttons))
press_button-Tracks c b false p keys buttons =
    (λ k. keys k _ _, λ j. buttons j _ _ ∙ ground (arith, has-set_remove j b p.buttons))

apply_key-Tracks : (k : Option ℕ) (pressed : Bool) (p : Pressed) → Tracks p (apply_key k pressed p)
unfolding apply_key
apply_key-Tracks none pressed p = (λ k. refl, λ b. refl)
apply_key-Tracks (some k) pressed p = press_key-Tracks k pressed p

-- After the calls nothing is down that was pressed before them.
abbrev pub LetsGo : Pressed → List Call → Type 0
LetsGo p calls =
    ((k : ℕ) → key_down k (has k p.keys) calls ≡ false)
    × ((b : PointerButton) → button_down b (has b p.buttons) calls ≡ false)

LetsGo-append :
    (p p' : Pressed) (calls rest : List Call)
    → Tracks p (calls, p')
    → LetsGo p' rest
    → LetsGo p (calls ++ rest)
LetsGo-append p p' calls rest (keys, buttons) (no_key, no_button) = (
  λ k. key_down-append k _ calls rest ∙ ap (λ d. key_down k d rest) (keys k) ∙ no_key k,
  λ b. button_down-append b _ calls rest ∙ ap (λ d. button_down b d rest) (buttons b) ∙ no_button b,
)

module _ (r : Reals) (to_keycode : String → Option ℕ) where
  apply-Tracks :
      (msg : InputMessage r) (p : Pressed) (rect : CaptureRect)
      → Tracks p (apply r to_keycode msg p rect)
  unfolding apply
  apply-Tracks (pointer_moved x y) p rect = (λ k. refl, λ b. refl)
  apply-Tracks (pointer_button b pressed x y) p rect =
      press_button-Tracks (move_to r x y rect) b pressed p (λ k d calls. refl) (λ k d calls. refl)
  apply-Tracks (wheeled dx dy x y) p rect = (λ k. refl, λ b. refl)
  apply-Tracks (key_event code pressed) p rect = apply_key-Tracks (to_keycode code) pressed p
  apply-Tracks release p rect = release_all-Tracks p
  apply-Tracks (text_typed s) p rect = elim (Bool-cases (ltb max_text_bytes (len s))) [
    | inl long ↦ rw long (λ k. refl, λ b. refl)
    | inr short ↦ rw short (λ k. refl, λ b. refl)
  ]
  apply-Tracks (clipboard_text s) p rect = (λ k. refl, λ b. refl)

  abbrev waiting : Option (InputMessage r) → ℕ
  waiting none = 0
  waiting (some msg) = 1

  abbrev left : InputMessage r × Option (InputMessage r) × List (Arrival r to_keycode) → ℕ
  left (msg, pending, rx) = waiting pending + length rx

  drain_moves_left :
      (latest : InputMessage r) (rx : List (Arrival r to_keycode))
      → left (drain_moves r to_keycode latest rx) ≤ length rx
  unfolding drain_moves
  drain_moves_left latest [] = omega arith
  drain_moves_left latest ((msg, false) ∷ rx) = omega arith
  drain_moves_left latest ((pointer_moved x y, true) ∷ rx) =
      omega (arith, drain_moves_left (pointer_moved x y) rx)
  drain_moves_left latest ((pointer_button b p x y, true) ∷ rx) = omega arith
  drain_moves_left latest ((wheeled dx dy x y, true) ∷ rx) = omega arith
  drain_moves_left latest ((key_event c p, true) ∷ rx) = omega arith
  drain_moves_left latest ((release, true) ∷ rx) = omega arith
  drain_moves_left latest ((clipboard_text s, true) ∷ rx) = omega arith
  drain_moves_left latest ((text_typed s, true) ∷ rx) = omega arith

  coalesce_left :
      (first : InputMessage r) (rx : List (Arrival r to_keycode))
      → left (coalesce_pointer_move r to_keycode first rx) ≤ length rx
  unfolding coalesce_pointer_move
  coalesce_left (pointer_moved x y) rx = drain_moves_left (pointer_moved x y) rx
  coalesce_left (pointer_button b p x y) rx = omega arith
  coalesce_left (wheeled dx dy x y) rx = omega arith
  coalesce_left (key_event c p) rx = omega arith
  coalesce_left release rx = omega arith
  coalesce_left (clipboard_text s) rx = omega arith
  coalesce_left (text_typed s) rx = omega arith

  abbrev Ends : Pressed → Option (List Call × Pressed) → Type 0
  Ends p answer = (out : List Call × Pressed) × (answer ≡ some out) × LetsGo p (out.0)

  loop_end : (p : Pressed) → Ends p (some (release_all p))
  unfolding release_all
  loop_end p =
      let (keys, buttons) = release_all-Tracks p in
      (release_all p, refl, (λ k. keys k, λ b. buttons b))

  round_then_rest :
      (p p' : Pressed) (calls : List Call) (answer : Option (List Call × Pressed))
      → Tracks p (calls, p')
      → Ends p' answer
      → Ends p (after_calls calls answer)
  round_then_rest p p' calls answer t (out, e, go) =
      ((calls ++ out.0, out.1), ap (after_calls calls) e, LetsGo-append p p' calls (out.0) t go)

  router_loop_from :
      (fuel : ℕ) (rects : ℕ → CaptureRect) (pending : Option (InputMessage r))
      (rx : List (Arrival r to_keycode)) (p : Pressed)
      → waiting pending + length rx < fuel
      → Ends p (router_loop r to_keycode fuel rects pending rx p)
  unfolding router_loop
  router_loop_from zero rects pending rx p lt = absurd (omega arith)
  router_loop_from (suc fuel) rects none [] p lt = loop_end p
  router_loop_from (suc fuel) rects none ((first, queued) ∷ rx) p lt =
      let next = coalesce_pointer_move r to_keycode first rx in
      let done = apply r to_keycode (next.0) p (rects fuel) in
      let fewer = coalesce_left first rx in
      round_then_rest p (done.1) (done.0) _ (apply-Tracks (next.0) p (rects fuel))
        (router_loop_from fuel rects (next.1) (next.2) (done.1) (omega arith))
  router_loop_from (suc fuel) rects (some first) rx p lt =
      let next = coalesce_pointer_move r to_keycode first rx in
      let done = apply r to_keycode (next.0) p (rects fuel) in
      let fewer = coalesce_left first rx in
      round_then_rest p (done.1) (done.0) _ (apply-Tracks (next.0) p (rects fuel))
        (router_loop_from fuel rects (next.1) (next.2) (done.1) (omega arith))

  -- With more fuel than there are messages the router's loop ends, whatever arrives and however the
  -- displays change, and after its calls no key and no button is down that it pressed.
  pub router_loop_lem :
      (fuel : ℕ) (rects : ℕ → CaptureRect) (rx : List (Arrival r to_keycode))
      → length rx < fuel
      → (out : List Call × Pressed) × (router_loop r to_keycode fuel rects none rx nothing_pressed
          ≡ some out)
        × ((k : ℕ) → key_down k false (out.0) ≡ false)
        × ((b : PointerButton) → button_down b false (out.0) ≡ false)
  router_loop_lem fuel rects rx lt =
      let (out, e, go) = router_loop_from fuel rects none rx nothing_pressed (omega arith) in
      (out, e, go.0, go.1)
