-- ===== src/EventBus.antt =====
-- backend/src/application/common/buses/event.bus.ts: subscriptions by event name, and the queue of
-- events that wait for a commit.
pub mod Laws
pub mod Sharing
mod Tests
use image_app.Common.{
  String, Bool, Option, none, some, List, [], ◌∷◌, ◌++◌, map, all, if◌then◌else◌, str_eq,
}
use mathlib.Core.Option

pub record EventBus (Event Handler : Type 0) : Type 0 where
  pub subscriptions : List (String × List Handler)
  pub transactional_queue : List (Event × Handler)

-- `Map.get` and `Map.set`: a new key goes to the end.
module _ {ℓ} {V : Type ℓ} where
  unfoldable pub get : String → List (String × V) → Option V
  get k [] = none
  get k ((j, v) ∷ m) = if str_eq j k then some v else get k m

  unfoldable pub set : String → V → List (String × V) → List (String × V)
  set k v [] = (k, v) ∷ []
  set k v ((j, w) ∷ m) = if str_eq j k then (j, v) ∷ m else (j, w) ∷ set k v m

module _ {Event Handler : Type 0} where
  abbrev pub empty : EventBus Event Handler
  empty = record { subscriptions = []; transactional_queue = [] }

  -- `this.subscriptions.get(eventName) || []`
  unfoldable pub handlers_of : String → EventBus Event Handler → List Handler
  unfolding get
  handlers_of name bus = Option.get_or (get name bus.subscriptions) []

  unfoldable pub subscribe : String → Handler → EventBus Event Handler → EventBus Event Handler
  unfolding handlers_of set
  subscribe name handler bus = record bus {
    subscriptions = set name (handlers_of name bus ++ handler ∷ []) bus.subscriptions;
  }

  -- The calls that `publish` starts, and whether its promise is fulfilled; `handles h e` says
  -- whether the promise of `h.handle(e)` is.
  unfoldable pub publish :
      (Event → String)
      → (Handler → Event → Bool)
      → Event
      → EventBus Event Handler
      → List (Event × Handler) × Bool
  unfolding handlers_of
  publish name_of handles event bus =
      let handlers = handlers_of (name_of event) bus in
      (map (λ h. (event, h)) handlers, all (λ h. handles h event) handlers)

  unfoldable pub queue_transactional :
      Event → Handler → EventBus Event Handler → EventBus Event Handler
  queue_transactional event handler bus = record bus {
    transactional_queue = bus.transactional_queue ++ (event, handler) ∷ [];
  }

  -- `flushTransactionalQueue` up to its `await`: the handlers of all queued events are started, in
  -- order. Their failures are logged, and nobody waits for them.
  unfoldable pub flush_begin : EventBus Event Handler → List (Event × Handler)
  flush_begin bus = bus.transactional_queue

  -- After the `await` the queue is replaced by an empty one.
  unfoldable pub flush_end : EventBus Event Handler → EventBus Event Handler
  flush_end bus = record bus { transactional_queue = [] }

  -- With nothing else run at the `await`: the calls started, and the bus.
  unfoldable pub flush_transactional_queue :
      EventBus Event Handler → List (Event × Handler) × EventBus Event Handler
  unfolding flush_begin flush_end
  flush_transactional_queue bus = (flush_begin bus, flush_end bus)

  unfoldable pub clear_transactional_queue : EventBus Event Handler → EventBus Event Handler
  clear_transactional_queue bus = record bus { transactional_queue = [] }
