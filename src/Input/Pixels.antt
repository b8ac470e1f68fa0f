-- ===== src/Input/Pixels.antt =====
-- host/src/input/mod.rs, `scale_and_clamp` and `to_pixel`: from the client's coordinates to pixels of
-- the captured display.
use rcdesk.Common.{ℕ, zero, suc, ◌+◌, ◌-◌, ◌^◌, min, Bool, if◌then◌else◌, ltb}

-- `negsuc n` is -(n + 1).
pub data ℤ : Type 0 where
  pos negsuc : ℕ → ℤ

-- The finite f64 values, with what the input code does with them; a parameter.
pub record Reals : Type 1 where
  pub F : Type 0
  -- `f64::from`, of an i32
  pub from_int : ℤ → F
  pub mul : F → F → F
  pub round : F → F
  pub lt : F → F → Bool
  -- `x as i32`
  pub to_i32 : F → ℤ

pub record CaptureRect : Type 0 where
  pub x : ℤ
  pub y : ℤ
  pub width : ℤ
  pub height : ℤ

-- `i32::clamp(0, size - 1)` for a positive size
abbrev pub clamp_index : ℤ → ℕ → ℕ
clamp_index (negsuc n) size = 0
clamp_index (pos n) size = min n (size - 1)

-- A sum of an i32 and a natural number that is one, as release builds compute it.
unfoldable pub add_i32 : ℤ → ℕ → ℤ
add_i32 (pos a) n = if ltb (a + n) (2 ^ 31) then pos (a + n) else negsuc (2 ^ 32 - 1 - (a + n))
add_i32 (negsuc a) n = if ltb a n then pos (n - (a + 1)) else negsuc (a - n)

module _ (r : Reals) where
  unfoldable pub scale_and_clamp : r.F → ℤ → ℕ
  scale_and_clamp value (negsuc n) = 0
  scale_and_clamp value (pos zero) = 0
  scale_and_clamp value (pos (suc n)) =
      clamp_index (r.to_i32 (r.round (r.mul value (r.from_int (pos (suc n)))))) (suc n)

  unfoldable pub to_pixel : r.F → r.F → CaptureRect → ℤ × ℤ
  unfolding scale_and_clamp add_i32
  to_pixel x y rect = (
    add_i32 rect.x (scale_and_clamp x rect.width),
    add_i32 rect.y (scale_and_clamp y rect.height),
  )
