-- ===== src/EventBus/Laws.antt =====
-- Subscriptions of the event bus.
use mathlib.Core.List.{map-append}
use image_app.Common.{
  ◌≡◌, refl, String, Bool, some, List, [], ◌∷◌, ◌++◌, arith, if◌then◌else◌, str_eq, Bool-cases, inl,
  inr, eq_iff,
}
use image_app.EventBus.{EventBus, get, set, handlers_of, subscribe, publish}

module _ {ℓ} {V : Type ℓ} where
  pub get-set :
      (k j : String) (v : V) (m : List (String × V))
      → get j (set k v m) ≡ (if str_eq k j then some v else get j m)
  unfolding get set
  get-set k j v [] = refl
  get-set k j v ((i, w) ∷ m) = ground (arith, eq_iff k j, eq_iff i k, eq_iff i j, get-set k j v m)

module _ {Event Handler : Type 0} where
  pub handlers_of-subscribe :
      (n m : String) (h : Handler) (bus : EventBus Event Handler)
      → handlers_of m (subscribe n h bus)
        ≡ (if str_eq n m then handlers_of n bus ++ h ∷ [] else handlers_of m bus)
  unfolding handlers_of subscribe
  handlers_of-subscribe n m h bus = rw get-set (ground arith)

  -- A subscription adds one call, the last, to a later `publish` of an event of that name, and
  -- changes no call for an event of another name.
  pub publish-subscribe :
      (name_of : Event → String) (handles : Handler → Event → Bool) (n : String) (h : Handler)
      (e : Event) (bus : EventBus Event Handler)
      → (publish name_of handles e (subscribe n h bus)).0 ≡ (
          if str_eq n (name_of e)
          then (publish name_of handles e bus).0 ++ (e, h) ∷ []
          else (publish name_of handles e bus).0)
  unfolding publish
  publish-subscribe name_of handles n h e bus = elim (Bool-cases (str_eq n (name_of e))) [
    | inl same ↦
        rw (handlers_of-subscribe, same, map-append) (rw ((eq_iff n (name_of e)).0 same) refl)
    | inr other ↦ rw (handlers_of-subscribe, other) refl
  ]
