-- ===== src/EventBus/Tests.antt =====
-- The event bus at concrete events: an event is a number, its handler another.
use image_app.Common.{◌==◌, ℕ, String, ◌≡◌, refl, true, false, List, [], ◌∷◌, if◌then◌else◌}
use image_app.EventBus.{EventBus, empty}
use image_app.EventBus.Sharing.{
  Transaction, queues, begins_flush, ends_flush, clears, run, serial, committed, run-serial,
  run_overlapping,
}

abbrev bus : EventBus ℕ ℕ
bus = empty

abbrev busy : EventBus ℕ ℕ
busy = record { subscriptions = []; transactional_queue = (1, 9) ∷ [] }

abbrev names : ℕ → String
names n = if n == 1 then "liked" else "followed"

abbrev two : List (Transaction ℕ ℕ)
two =
    record { events = (1, 9) ∷ (2, 9) ∷ []; commits = true }
    ∷ record { events = (3, 9) ∷ []; commits = false }
    ∷ []

committed-two : committed two ≡ (1, 9) ∷ (2, 9) ∷ []
unfolding committed
committed-two = refl

run-serial_example : run (serial two) bus ≡ (committed two, bus)
run-serial_example = run-serial two bus

run_overlapping_example :
    ((run (queues 5 9 ∷ clears ∷ begins_flush ∷ ends_flush ∷ []) busy).0 ≡ [])
    × ((run (queues 5 9 ∷ begins_flush ∷ ends_flush ∷ clears ∷ []) busy).0 ≡ (1, 9) ∷ (5, 9) ∷ [])
    × (run (begins_flush ∷ queues 5 9 ∷ ends_flush ∷ begins_flush ∷ ends_flush ∷ []) busy
        ≡ ((1, 9) ∷ [], bus))
run_overlapping_example = run_overlapping 5 9 busy
