-- ===== src/Common/Numbers.antt =====
-- JavaScript numbers, as the tests of settings and lifetimes tell them apart.
use Prim.Native.Nat.{ℕ, suc, ◌/◌}
use mathlib.Core.Bool.{Bool, true}
use image_app.Common.Tests.{◌==◌}

-- A JavaScript number as far as these functions tell numbers apart: `ratio p d` is p / (d + 1).
pub data Number : Type 0 where
  not_finite : Number
  negative : Number
  ratio : ℕ → ℕ → Number

-- `!Number.isFinite(x) || x <= 0`
abbrev pub is_refused : Number → Bool
is_refused (ratio p d) = p == 0
is_refused _ = true

-- `Math.floor`, of a number that is not refused
abbrev pub floor : Number → ℕ
floor (ratio p d) = p / suc d
floor _ = 0
