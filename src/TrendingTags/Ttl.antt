-- ===== src/TrendingTags/Ttl.antt =====
-- The time to live of cached tags.
use image_app.Common.{ℕ, ◌≤◌, Bool, true, false, Option, none, some, arith}
use image_app.Errors.{Result, ok, err}
use image_app.TrendingTags.{Metrics, ttl_of_metrics, calculate_dynamic_ttl}

ttl_of_metrics_range :
    (m : Metrics) (now : ℕ) → (300 ≤ ttl_of_metrics m now) × (ttl_of_metrics m now ≤ 2592000)
unfolding ttl_of_metrics
ttl_of_metrics_range m now = ground arith

ttl_of_metrics_falls :
    (c c' s u now : ℕ)
    → c ≤ c'
    → ttl_of_metrics
        (record { recent_window_start = s; recent_usage_count = c'; last_updated = u })
        now
      ≤ ttl_of_metrics
          (record { recent_window_start = s; recent_usage_count = c; last_updated = u })
          now
unfolding ttl_of_metrics
ttl_of_metrics_falls c c' s u now h = ground arith

-- The time to live of the cached tags is between 5 minutes and 30 days, whatever is read; and more
-- uses of tags in the same window never make it longer.
pub calculate_dynamic_ttl_lem :
    (used_extended : Bool) (metrics : Result (Option Metrics)) (c c' s u now : ℕ)
    → c ≤ c'
    → (300 ≤ calculate_dynamic_ttl used_extended metrics now)
      × (calculate_dynamic_ttl used_extended metrics now ≤ 2592000)
      × (calculate_dynamic_ttl used_extended
            (ok (
              some (record { recent_window_start = s; recent_usage_count = c'; last_updated = u })))
            now
          ≤ calculate_dynamic_ttl used_extended
              (ok (
                some
                  (record { recent_window_start = s; recent_usage_count = c; last_updated = u })))
              now)
unfolding calculate_dynamic_ttl
calculate_dynamic_ttl_lem true metrics c c' s u now h = (omega arith, omega arith, omega arith)
calculate_dynamic_ttl_lem false (ok none) c c' s u now h =
    (omega arith, omega arith, ttl_of_metrics_falls c c' s u now h)
calculate_dynamic_ttl_lem false (err e) c c' s u now h =
    (omega arith, omega arith, ttl_of_metrics_falls c c' s u now h)
calculate_dynamic_ttl_lem false (ok (some m)) c c' s u now h =
    let (low, high) = ttl_of_metrics_range m now in (low, high, ttl_of_metrics_falls c c' s u now h)
