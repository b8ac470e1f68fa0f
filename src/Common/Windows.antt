-- ===== src/Common/Windows.antt =====
-- Times that a sliding window still counts.
use Prim.Native.Nat.{ℕ, ◌+◌, ◌-◌, ◌*◌, ◌≤◌}
use mathlib.Core.Path.{◌≡◌}
use mathlib.Core.List.{List, [], ◌∷◌, ◌++◌}
use native.Mathlib.Omega.{arith}
use rcdesk.Common.Lists.{length}

module _ (window : ℕ) where
  -- How much of the window the times still take, together.
  abbrev pub weight : ℕ → List ℕ → ℕ
  weight now [] = 0
  weight now (t ∷ ts) = (window - (now - t)) + weight now ts

  pub weight-append :
      (now : ℕ) (ts us : List ℕ) → weight now (ts ++ us) ≡ weight now ts + weight now us
  weight-append now [] us = omega arith
  weight-append now (t ∷ ts) us = omega (arith, weight-append now ts us)

  pub weight-later :
      (now later : ℕ) (ts : List ℕ)
      → now ≤ later
      → weight now ts ≤ weight later ts + length ts * (later - now)
  weight-later now later [] h = omega arith
  weight-later now later (t ∷ ts) h = omega (arith, weight-later now later ts h)

  pub weight_max : (now : ℕ) (ts : List ℕ) → weight now ts ≤ length ts * window
  weight_max now [] = omega arith
  weight_max now (t ∷ ts) = omega (arith, weight_max now ts)
