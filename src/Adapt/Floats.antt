-- ===== src/Adapt/Floats.antt =====
-- The floats of host/src/adapt/mod.rs. They are a parameter: the finite `f64` values, and the
-- operations that the controller uses. `f32` values are widened, which is exact.
use rcdesk.Common.{ℕ, ◌≤◌, ◌<◌, ◌^◌, ◌≡◌, Bool, false, if◌then◌else◌}

pub record Floats : Type 1 where
  pub F : Type 0
  -- `n as f64`
  pub from_nat : ℕ → F
  -- a decimal literal, as a fraction, at type f64 or f32
  pub lit : ℕ → ℕ → F
  pub lit_f32 : ℕ → ℕ → F
  -- `Duration::as_secs_f64`
  pub as_secs : ℕ → F
  pub mul : F → F → F
  pub div : F → F → F
  pub sub : F → F → F
  -- `(a - b).abs()`
  pub abs_diff : F → F → F
  pub lt : F → F → Bool
  pub le : F → F → Bool
  -- `x.round() as u32`
  pub to_u32 : F → ℕ

-- What rounding does with values on either side of a whole number that `u32` holds.
pub record RoundingLaws (f : Floats) : Type 0 where
  pub to_u32_exact : (n : ℕ) → n < 2 ^ 32 → f.to_u32 (f.from_nat n) ≡ n
  pub to_u32_lower : (x : f.F) (n : ℕ) → n < 2 ^ 32 → f.lt x (f.from_nat n) ≡ false → n ≤ f.to_u32 x
  pub to_u32_upper : (x : f.F) (n : ℕ) → n < 2 ^ 32 → f.lt (f.from_nat n) x ≡ false → f.to_u32 x ≤ n

module _ (f : Floats) where
  -- `f64::min`, `f64::max` and `f64::clamp`, at values that are no NaN.
  abbrev pub fmin : f.F → f.F → f.F
  fmin a b = if f.lt b a then b else a

  abbrev pub fmax : f.F → f.F → f.F
  fmax a b = if f.lt a b then b else a

  abbrev pub clamp : f.F → f.F → f.F → f.F
  clamp x lo hi = if f.lt x lo then lo else if f.lt hi x then hi else x
