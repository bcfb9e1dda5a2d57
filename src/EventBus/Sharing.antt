-- ===== src/EventBus/Sharing.antt =====
-- One `EventBus` is registered for the whole process (backend/src/di/handlers.di.ts), so all
-- transactions in flight share its queue. Their calls on it, in any order:
use mathlib.Core.List.{append_assoc, append-nil}
use image_app.Common.{◌≡◌, refl, Bool, true, false, List, [], ◌∷◌, ◌++◌}
use image_app.EventBus.{
  EventBus, queue_transactional, flush_begin, flush_end, clear_transactional_queue,
}

-- The work of a transaction queues an event; a transaction that has committed flushes, in two
-- steps since the flush awaits in between; a transaction that has failed clears.
pub data Call (Event Handler : Type 0) : Type 0 where
  queues : Event → Handler → Call Event Handler
  begins_flush ends_flush clears : Call Event Handler

-- What one transaction queues, and whether it commits.
pub record Transaction (Event Handler : Type 0) : Type 0 where
  pub events : List (Event × Handler)
  pub commits : Bool

module _ {Event Handler : Type 0} where
  -- The handler calls that a schedule starts, and the bus that it leaves.
  unfoldable pub run :
      List (Call Event Handler)
      → EventBus Event Handler
      → List (Event × Handler) × EventBus Event Handler
  run [] bus = ([], bus)
  run (queues e h ∷ calls) bus = run calls (queue_transactional e h bus)
  run (begins_flush ∷ calls) bus = (flush_begin bus ++ (run calls bus).0, (run calls bus).1)
  run (ends_flush ∷ calls) bus = run calls (flush_end bus)
  run (clears ∷ calls) bus = run calls (clear_transactional_queue bus)

  abbrev ends : Bool → List (Call Event Handler)
  ends true = begins_flush ∷ ends_flush ∷ []
  ends false = clears ∷ []

  abbrev queueing : List (Event × Handler) → List (Call Event Handler) → List (Call Event Handler)
  queueing [] rest = rest
  queueing ((e, h) ∷ events) rest = queues e h ∷ queueing events rest

  -- Transactions one after the other, none begun before the last has flushed or cleared.
  unfoldable pub serial : List (Transaction Event Handler) → List (Call Event Handler)
  serial [] = []
  serial (t ∷ ts) = queueing t.events (ends t.commits ++ serial ts)

  abbrev kept : Bool → List (Event × Handler) → List (Event × Handler)
  kept true events = events
  kept false events = []

  -- The events of those that commit, in order.
  unfoldable pub committed : List (Transaction Event Handler) → List (Event × Handler)
  committed [] = []
  committed (t ∷ ts) = kept t.commits t.events ++ committed ts

  abbrev with_queue : EventBus Event Handler → List (Event × Handler) → EventBus Event Handler
  with_queue bus q = record bus { transactional_queue = q }

  run-queueing :
      (events q : List (Event × Handler)) (rest : List (Call Event Handler))
      (bus : EventBus Event Handler)
      → run (queueing events rest) (with_queue bus q) ≡ run rest (with_queue bus (q ++ events))
  unfolding run queue_transactional
  run-queueing [] q rest bus = rw append-nil
  run-queueing ((e, h) ∷ events) q rest bus =
      rw (run-queueing events (q ++ (e, h) ∷ []) rest bus) (rw append_assoc)

  run-ends :
      (b : Bool) (q : List (Event × Handler)) (rest : List (Call Event Handler))
      (bus : EventBus Event Handler)
      → run (ends b ++ rest) (with_queue bus q)
        ≡ (kept b q ++ (run rest (with_queue bus [])).0, (run rest (with_queue bus [])).1)
  unfolding run flush_begin flush_end clear_transactional_queue
  run-ends true q rest bus = refl
  run-ends false q rest bus = refl

  -- Transactions that run one after the other on an empty queue start exactly the handlers of the
  -- events that the committed ones have queued, in order, and leave the queue empty.
  pub run-serial :
      (ts : List (Transaction Event Handler)) (bus : EventBus Event Handler)
      → run (serial ts) (with_queue bus []) ≡ (committed ts, with_queue bus [])
  unfolding run serial committed flush_begin flush_end clear_transactional_queue
  run-serial [] bus = refl
  run-serial (t ∷ ts) bus =
      rw (run-queueing t.events [] (ends t.commits ++ serial ts) bus)
        (rw (run-ends t.commits t.events (serial ts) bus) (rw (run-serial ts bus) refl))

  -- What the shared queue allows when transactions overlap, whatever the bus holds. An event of one
  -- transaction is dropped when another fails before the first commits. It is handled when another
  -- commits, even if its own transaction fails afterwards. It is dropped when it is queued while
  -- the flush of another awaits.
  pub run_overlapping :
      (e : Event) (h : Handler) (bus : EventBus Event Handler)
      → ((run (queues e h ∷ clears ∷ begins_flush ∷ ends_flush ∷ []) bus).0 ≡ [])
        × ((run (queues e h ∷ begins_flush ∷ ends_flush ∷ clears ∷ []) bus).0
            ≡ bus.transactional_queue ++ (e, h) ∷ [])
        × (run (begins_flush ∷ queues e h ∷ ends_flush ∷ begins_flush ∷ ends_flush ∷ []) bus
            ≡ (bus.transactional_queue, with_queue bus []))
  unfolding run queue_transactional flush_begin flush_end clear_transactional_queue
  run_overlapping e h bus = (refl, append-nil _, rw append-nil)
