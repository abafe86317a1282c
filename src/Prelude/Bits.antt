-- ===== src/Prelude/Bits.antt =====
-- A test that is evaluated at every number below a bound.
use Prim.Native.Nat.{ℕ, zero, suc, ◌<◌}
use mathlib.Core.Path.{◌≡◌}
use mathlib.Core.Bool.{Bool, true, false}
use native.Mathlib.Omega.{arith}
use post.Prelude.Tests.{if◌then◌else◌}

module _ (test : ℕ → Bool) where
  unfoldable pub holds_below : ℕ → Bool
  holds_below zero = true
  holds_below (suc bound) = let others = holds_below bound in if test bound then others else false

  pub holds_below-at : (bound k : ℕ) → k < bound → holds_below bound ≡ true → test k ≡ true
  unfolding holds_below
  holds_below-at zero k below h = absurd (omega arith)
  holds_below-at (suc bound) k below h = ground (arith, holds_below-at bound k)
