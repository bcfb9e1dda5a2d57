-- ===== src/UnitOfWork/Backoff.antt =====
-- `backoffWithJitter`, the same in backend/src/database/UnitOfWork.ts and
-- backend/src/services/retry.service.ts. `Math.random()` is `random / 2 ^ 53` with `random` below
-- 2 ^ 53, and the product is exact here where the program rounds it to a double.
use image_app.Common.{ℕ, ◌-◌, ◌*◌, ◌/◌, ◌^◌, ◌≤◌, ◌<◌, min, max, arith}

abbrev pub random_range : ℕ
random_range = 2 ^ 53

unfoldable pub exponential_delay : ℕ → ℕ → ℕ → ℕ
exponential_delay attempt base max_ms = min (base * 2 ^ (attempt - 1)) max_ms

-- The delay in milliseconds that is waited for.
unfoldable pub backoff_with_jitter : ℕ → ℕ → ℕ → ℕ → ℕ
unfolding exponential_delay
backoff_with_jitter random attempt base max_ms =
    max (random * exponential_delay attempt base max_ms / random_range) 10

scaled-le : (r n d : ℕ) → r < d → r * n / d ≤ n
scaled-le r n d h = grind arith

-- The delay is at least 10 ms; it passes 10 only within the exponential bound of its attempt, and
-- so never passes the configured maximum (or 10).
pub backoff_bounds :
    (random attempt base max_ms : ℕ)
    → random < random_range
    → (10 ≤ backoff_with_jitter random attempt base max_ms)
      × (backoff_with_jitter random attempt base max_ms
          ≤ max 10 (exponential_delay attempt base max_ms))
      × (backoff_with_jitter random attempt base max_ms ≤ max 10 max_ms)
unfolding backoff_with_jitter
backoff_bounds random attempt base max_ms h =
    let small = scaled-le random (exponential_delay attempt base max_ms) random_range h in
    omega arith
